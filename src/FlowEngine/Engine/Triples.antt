-- ===== src/FlowEngine/Engine/Triples.antt =====
-- Steps between what holds before and what holds after, by how they end.
use zernflow.Base.{◌≡◌, Bool, List, [], ◌∷◌}
use zernflow.Base.Result.{Result, ok, err}
use zernflow.FlowEngine.Engine.Store.{
  Session, Event, World, M, FlowError, ◌>>=◌, return, write, track,
}
use zernflow.FlowEngine.Engine.Keeps.{Pred, On, Keeps}

-- `q` after a result, and `r` after an error.
abbrev pub Post : {A : Type 0} → (A → Pred) → Pred → World × Result FlowError A → Type 0
Post q r (w, ok a) = On (q a) w
Post q r (w, err e) = On r w

abbrev pub Triple : {A : Type 0} → Pred → M A → (A → Pred) → Pred → Type 0
Triple {A} p m q r = (w : World) → On p w → Post {A = A} q r (m w)

abbrev pub Implies : Pred → Pred → Type 0
Implies p q = (s : List Session) (e : List Event) (f : List Bool) → p s e f → q s e f

-- That nothing is known.
abbrev pub anything : Pred
anything s e f = Unit

module _ (r : Pred) where
  bind-Post :
      {A B : Type 0} (m : A → Pred) (q : B → Pred) (f : A → M B) (o : World × Result FlowError A)
      → ((a : A) → Triple (m a) (f a) q r)
      → Post {A = A} m r o
      → Post {A = B} q r (
          let (w', x) = o in
          let o' : World × Result FlowError B = elim x [ err e ↦ (w', err e) | ok a ↦ f a w' ] in
          o')
  bind-Post m q f (w, ok a) k h = k a w h
  bind-Post m q f (w, err e) k h = h

  pub bind :
      {A B : Type 0} (p : Pred) (m : A → Pred) (q : B → Pred) (step : M A) (f : A → M B)
      → Triple p step m r
      → ((a : A) → Triple (m a) (f a) q r)
      → Triple p (step >>= f) q r
  unfolding ◌>>=◌
  bind p m q step f hm hf w h = bind-Post m q f (step w) hf (hm w h)

  keeps-Post :
      {A : Type 0} (p : Pred) (o : World × Result FlowError A)
      → Implies p r
      → On p o.0
      → Post {A = A} (λ a. p) r o
  keeps-Post p (w, ok a) weaken h = h
  keeps-Post p (w, err e) weaken h = weaken _ _ _ h

  pub keeps :
      {A : Type 0} (p : Pred) (step : M A) → Implies p r → Keeps p step → Triple p step (λ a. p) r
  keeps p step weaken h w k = keeps-Post p (step w) weaken (h w k)

  weaker-Post :
      {A : Type 0} (p : Pred) (q : A → Pred) (o : World × Result FlowError A)
      → Implies p r
      → ((a : A) → Implies p (q a))
      → On p o.0
      → Post {A = A} q r o
  weaker-Post p q (w, ok a) weaken to h = to a _ _ _ h
  weaker-Post p q (w, err e) weaken to h = weaken _ _ _ h

  pub keeps_to :
      {A : Type 0} (p : Pred) (q : A → Pred) (step : M A)
      → Implies p r
      → ((a : A) → Implies p (q a))
      → Keeps p step
      → Triple p step q r
  keeps_to p q step weaken to h w k = weaker-Post p q (step w) weaken to (h w k)

  pub returns :
      {A : Type 0} (p : Pred) (q : A → Pred) (a : A) → Implies p (q a) → Triple p (return a) q r
  unfolding return
  returns p q a h w k = h _ _ _ k

-- Where no call fails, a write writes.
abbrev pub clean : Pred
clean s e f = f ≡ []

module _ (p : Pred) (r : Pred) where
  pub track-Triple :
      (q : Pred) (event : Event)
      → Implies p clean
      → ((s : List Session) (e : List Event) (f : List Bool) → p s e f → q s (event ∷ e) [])
      → Triple p (track event) (λ done. q) r
  unfolding track write
  track-Triple q event works step w h =
      let none' = works _ _ _ h in rw none' (step w.sessions w.events w.faults h)
