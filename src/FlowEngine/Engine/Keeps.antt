-- ===== src/FlowEngine/Engine/Keeps.antt =====
-- What a run keeps, whatever the calls of the database and of the outside answer.
use zernflow.Base.{
  if◌then◌else◌, ℕ, Bool, true, false, List, [], ◌∷◌, Bool-cases, inl, inr, ◌==◌, ◌≡◌, All, filter,
}
use zernflow.Base.Result.{Result, ok, err}
use zernflow.FlowEngine.Engine.Store.{
  Session, Event, World, Rows, M, FlowError, ◌>>=◌, ◌>>◌, return, throw, fails_now, later_calls,
  pop, Answer, row, single_of, single, select, write, write_rows, write_returning,
  write_rows_returning, ask, post, Patch, take_over, apply_patch, update_where, update_session,
  track, EventType, message_sent, message_failed,
}

-- What is said of the sessions, the analytics and the calls to come.
abbrev pub Pred : Type 1
Pred = List Session → List Event → List Bool → Type 0

abbrev pub On : Pred → World → Type 0
On p w = p w.sessions w.events w.faults

abbrev pub Keeps : {A : Type 0} → Pred → M A → Type 0
Keeps p m = (w : World) → On p w → On p (m w).0

-- What no node but a takeover changes: the predicate holds after another call, after every update of
-- a session but a takeover, and after the event of a message.
abbrev pub IsTakeover : Patch → Type 0
IsTakeover (take_over time) = Unit
IsTakeover _ = ⊥

abbrev pub IsMessage : EventType → Type 0
IsMessage message_sent = Unit
IsMessage message_failed = Unit
IsMessage _ = ⊥

pub record Stable (p : Pred) (allowed : Patch → Type 0) : Type 0 where
  pub called : (s : List Session) (e : List Event) (f : List Bool) → p s e f → p s e (later_calls f)
  pub patched :
      (id : ℕ) (patch : Patch) (s : List Session) (e : List Event) (f : List Bool)
      → allowed patch
      → p s e f
      → p (update_where (λ x. x.id == id) (apply_patch patch) s) e f
  pub messaged :
      (event : Event) (s : List Session) (e : List Event) (f : List Bool)
      → IsMessage event.type
      → p s e f
      → p s (event ∷ e) f

module _ (p : Pred) where
  pub bind-On :
      {A B : Type 0} (f : A → M B) (o : World × Result FlowError A)
      → ((a : A) → Keeps p (f a))
      → On p o.0
      → On p
          (let (w', x) = o in
            let o' : World × Result FlowError B = elim x [ err e ↦ (w', err e) | ok a ↦ f a w' ] in
            o').0
  bind-On f (w, ok a) k h = k a w h
  bind-On f (w, err e) k h = h

  pub bind :
      {A B : Type 0} (m : M A) (f : A → M B)
      → Keeps p m
      → ((a : A) → Keeps p (f a))
      → Keeps p (m >>= f)
  unfolding ◌>>=◌
  bind m f hm hf w h = bind-On f (m w) hf (hm w h)

  pub return-Keeps : {A : Type 0} (a : A) → Keeps p (return a)
  unfolding return
  return-Keeps a w h = h

  pub throw-Keeps : (A : Type 0) (e : FlowError) → Keeps {A = A} p (throw e)
  unfolding throw
  throw-Keeps A e w h = h

  pub ask-Keeps : {A : Type 0} (answer : ℕ → A) → Keeps p (ask answer)
  unfolding ask
  ask-Keeps answer w h = h

  pub post-Keeps :
      {A : Type 0} (change : Rows → Rows) (answer : ℕ → A) → Keeps p (post change answer)
  unfolding post
  post-Keeps change answer w h = h

  abbrev pub Called : Type 0
  Called = (s : List Session) (e : List Event) (f : List Bool) → p s e f → p s e (later_calls f)

  pub single-Keeps : {A : Type 0} (read : World → List A) → Called → Keeps p (single read)
  unfolding single
  single-Keeps read called w h = called w.sessions w.events w.faults h

  pub select-Keeps : {A : Type 0} (read : World → List A) → Called → Keeps p (select read)
  unfolding select
  select-Keeps read called w h = called w.sessions w.events w.faults h

  pub write-Keeps :
      (change : World → World)
      → Called
      → ((w : World) → On p w → On p (change w))
      → Keeps p (write change)
  unfolding write
  write-Keeps change called step w h = elim (Bool-cases (fails_now w.faults)) [
    | inl fails ↦ rw fails (called w.sessions w.events w.faults h)
    | inr works ↦ rw works (step (pop w) (called w.sessions w.events w.faults h))
  ]

  pub write_returning-Keeps :
      {A : Type 0} (change : World → World × A)
      → Called
      → ((w : World) → On p w → On p (change w).0)
      → Keeps p (write_returning change)
  unfolding write_returning
  write_returning-Keeps change called step w h = elim (Bool-cases (fails_now w.faults)) [
    | inl fails ↦ rw fails (called w.sessions w.events w.faults h)
    | inr works ↦ rw works (step (pop w) (called w.sessions w.events w.faults h))
  ]

  pub write_rows-Keeps : (change : Rows → Rows) → Called → Keeps p (write_rows change)
  unfolding write_rows
  write_rows-Keeps change called = write-Keeps _ called (λ w h. h)

  pub write_rows_returning-Keeps :
      {A : Type 0} (change : Rows → Rows × A) → Called → Keeps p (write_rows_returning change)
  unfolding write_rows_returning
  write_rows_returning-Keeps change called = write_returning-Keeps _ called (λ w h. h)

  pub update_session-Keeps :
      {allowed : Patch → Type 0} (stable : Stable p allowed) (id : ℕ) (patch : Patch)
      → allowed patch
      → Keeps p (update_session id patch)
  unfolding update_session
  update_session-Keeps stable id patch a =
      write-Keeps _ stable.called (λ w h. stable.patched id patch w.sessions w.events w.faults a h)

  pub track-Keeps :
      {allowed : Patch → Type 0} (stable : Stable p allowed) (event : Event)
      → IsMessage event.type
      → Keeps p (track event)
  unfolding track
  track-Keeps stable event m =
      write-Keeps _ stable.called (λ w h. stable.messaged event w.sessions w.events w.faults m h)

  -- Both branches of a test.
  pub if-Keeps :
      {A : Type 0} (b : Bool) (m n : M A) → Keeps p m → Keeps p n → Keeps p (if b then m else n)
  if-Keeps true m n hm hn = hm
  if-Keeps false m n hm hn = hn

  pub then-Keeps : {A B : Type 0} (m : M A) (n : M B) → Keeps p m → Keeps p n → Keeps p (m >> n)
  then-Keeps m n hm hn = bind m (λ done. n) hm (λ done. hn)

-- What a step returns, if it does not throw.
abbrev pub Ends : {A : Type 0} → (A → Type 0) → Result FlowError A → Type 0
Ends q (ok a) = q a
Ends q (err e) = Unit

abbrev pub Returns : {A : Type 0} → (A → Type 0) → M A → Type 0
Returns q m = (w : World) → Ends q (m w).1

pub return-Returns : {A : Type 0} (q : A → Type 0) (a : A) → q a → Returns q (return a)
unfolding return
return-Returns q a h w = h

pub throw-Returns : {A : Type 0} (q : A → Type 0) (e : FlowError) → Returns q (throw {A = A} e)
unfolding throw
throw-Returns q e w = tt

pub if-Returns :
    {A : Type 0} (q : A → Type 0) (b : Bool) (m n : M A)
    → Returns q m
    → Returns q n
    → Returns q (if b then m else n)
if-Returns q true m n hm hn = hm
if-Returns q false m n hm hn = hn

ended :
    {A B : Type 0} (q : B → Type 0) (f : A → M B) (o : World × Result FlowError A)
    → ((a : A) → Returns q (f a))
    → Ends q
        (let (w', x) = o in
          let o' : World × Result FlowError B = elim x [ err e ↦ (w', err e) | ok a ↦ f a w' ] in
          o').1
ended q f (w, ok a) k = k a w
ended q f (w, err e) k = tt

pub bind-Returns :
    {A B : Type 0} (q : B → Type 0) (m : M A) (f : A → M B)
    → ((a : A) → Returns q (f a))
    → Returns q (m >>= f)
unfolding ◌>>=◌
bind-Returns q m f k w = ended q f (m w) k

ended_with :
    {A B : Type 0} (r : A → Type 0) (q : B → Type 0) (f : A → M B) (o : World × Result FlowError A)
    → ((a : A) → r a → Returns q (f a))
    → Ends r o.1
    → Ends q
        (let (w', x) = o in
          let o' : World × Result FlowError B = elim x [ err e ↦ (w', err e) | ok a ↦ f a w' ] in
          o').1
ended_with r q f (w, ok a) k h = k a h w
ended_with r q f (w, err e) k h = tt

pub bind_with-Returns :
    {A B : Type 0} (r : A → Type 0) (q : B → Type 0) (m : M A) (f : A → M B)
    → Returns r m
    → ((a : A) → r a → Returns q (f a))
    → Returns q (m >>= f)
unfolding ◌>>=◌
bind_with-Returns r q m f h k w = ended_with r q f (m w) k (h w)

module _ (p : Pred) where
  bind_with-On :
      {A B : Type 0} (q : A → Type 0) (f : A → M B) (o : World × Result FlowError A)
      → ((a : A) → q a → Keeps p (f a))
      → Ends q o.1
      → On p o.0
      → On p
          (let (w', x) = o in
            let o' : World × Result FlowError B = elim x [ err e ↦ (w', err e) | ok a ↦ f a w' ] in
            o').0
  bind_with-On q f (w, ok a) k r h = k a r w h
  bind_with-On q f (w, err e) k r h = h

  pub bind_with :
      {A B : Type 0} (q : A → Type 0) (m : M A) (f : A → M B)
      → Keeps p m
      → Returns q m
      → ((a : A) → q a → Keeps p (f a))
      → Keeps p (m >>= f)
  unfolding ◌>>=◌
  bind_with q m f hm hr hf w h = bind_with-On q f (m w) hf (hr w) (hm w h)

-- A row that is read is one of those that the query keeps.
abbrev pub IsRow : {A : Type 0} → (A → Type 0) → (A → Bool) → Answer A → Type 0
IsRow P test (row a) = P a × (test a ≡ true)
IsRow P test _ = Unit

filter-All :
    {A : Type 0} (P : A → Type 0) (test : A → Bool) (rows : List A)
    → All P rows
    → All (λ a. P a × (test a ≡ true)) (filter test rows)
filter-All P test [] h = tt
filter-All P test (a ∷ rows) h = elim (Bool-cases (test a)) [
  | inl hit ↦ rw hit ((h.0, hit), filter-All P test rows h.1)
  | inr miss ↦ rw miss (filter-All P test rows h.1)
]

single_of-IsRow :
    {A : Type 0} (P : A → Type 0) (test : A → Bool) (rows : List A)
    → All (λ a. P a × (test a ≡ true)) rows
    → IsRow P test (single_of rows)
single_of-IsRow P test [] h = tt
single_of-IsRow P test (a ∷ []) h = h.0
single_of-IsRow P test (a ∷ b ∷ rows) h = tt

pub single-Returns :
    {A : Type 0} (P : A → Type 0) (test : A → Bool) (rows : List A)
    → All P rows
    → Returns (IsRow P test) (single (λ w. filter test rows))
unfolding single
single-Returns P test rows h w = elim (Bool-cases (fails_now w.faults)) [
  | inl fails ↦ rw fails tt
  | inr works ↦ rw works (single_of-IsRow P test (filter test rows) (filter-All P test rows h))
]
