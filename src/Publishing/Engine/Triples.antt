-- ===== src/Publishing/Engine/Triples.antt =====
-- Runs of the engine between what holds of the receipts and of the submissions before and after.
use zernflow.Base.{
  ℕ, suc, ◌≤◌, ◌<◌, ◌≡◌, ◌≢◌, refl, ◌∙◌, inl, inr, true, Option, some, List, [], ◌∷◌, arith, length,
  All, Bool-cases, Option-cases, ◌&&◌,
}
use zernflow.Base.Result.{Result, ok, err}
use zernflow.Tasks.Errors.{Thrown}
use zernflow.Publishing.State.{PublishState, publish_path, same}
use zernflow.Publishing.Engine.Store.{
  Receipt, ReceiptStatus, World, M, ◌>>=◌, database, database_error, fails_now, later_calls, Patch,
  move_step, hold, update_row, move_steps, move_to, no_patch, is_empty, steps_or, latest,
  has_reference,
}

abbrev pub IsFailed : Receipt → Type 0
IsFailed r = r.status ≡ ReceiptStatus.failed

-- The receipts below the newest one are failures of earlier attempts.
abbrev pub OneOpen : List Receipt → Type 0
OneOpen [] = Unit
OneOpen (r ∷ rs) = All IsFailed rs × All (λ x. x.attempt < r.attempt) rs

-- An operation reference is not empty, and an accepted receipt has one.
abbrev pub IsReferenced : Receipt → Type 0
IsReferenced r = (r.operation_ref ≢ some []) × (has_reference r ≡ true)

-- What is said of the receipts and of the submissions.
abbrev pub Pred : Type 1
Pred = List Receipt → List ℕ → Type 0

abbrev pub On : Pred → World → Type 0
On p w = p w.receipts w.submits

abbrev pub inv : Pred
inv rs ss = OneOpen rs × All IsReferenced rs × (length ss ≤ length rs)

-- Before the insert of a receipt and after it.
abbrev pub ready : Option Receipt → Pred
ready prior rs ss = inv rs ss × (latest rs ≡ prior)

abbrev pub fresh : Pred
fresh rs ss = OneOpen rs × All IsReferenced rs × (suc (length ss) ≤ length rs)

-- A run that starts where `p` holds ends where `q` holds of its result, or throws where the
-- invariant holds.
abbrev pub Post : {A : Type 0} → (A → Pred) → World × Result Thrown A → Type 0
Post q (w, ok a) = On (q a) w
Post q (w, err e) = On inv w

abbrev pub Triple : {A : Type 0} → Pred → M A → (A → Pred) → Type 0
Triple {A} p m q = (w : World) → On p w → Post {A = A} q (m w)

pub bind-Post :
    {A B : Type 0} (q : A → Pred) (r : B → Pred) (f : A → M B) (o : World × Result Thrown A)
    → ((a : A) → Triple (q a) (f a) r)
    → Post {A = A} q o
    → Post {A = B} r (let (w', x) = o in elim x [ err e ↦ (w', err e) | ok a ↦ f a w' ])
bind-Post q r f (w, ok a) k h = k a w h
bind-Post q r f (w, err e) k h = h

pub bind :
    {A B : Type 0} (p : Pred) (q : A → Pred) (r : B → Pred) (m : M A) (f : A → M B)
    → Triple p m q
    → ((a : A) → Triple (q a) (f a) r)
    → Triple p (m >>= f) r
unfolding ◌>>=◌
bind p q r m f hm hf w h = bind-Post q r f (m w) hf (hm w h)

-- An action that touches neither the receipts nor the submissions.
abbrev pub Quiet : {A : Type 0} → M A → Type 0
Quiet m = (w : World) → ((m w).0.receipts ≡ w.receipts) × ((m w).0.submits ≡ w.submits)

pub quiet-Post :
    {A : Type 0} (p : Pred) (w : World) (o : World × Result Thrown A)
    → ((rs : List Receipt) (ss : List ℕ) → p rs ss → inv rs ss)
    → (o.0.receipts ≡ w.receipts) × (o.0.submits ≡ w.submits)
    → On p w
    → Post {A = A} (λ _. p) o
quiet-Post p w (w', ok a) weaken (er, es) h = rw (er, es) h
quiet-Post p w (w', err e) weaken (er, es) h = rw (er, es) (weaken _ _ h)

pub quiet :
    {A : Type 0} (p : Pred) (m : M A)
    → ((rs : List Receipt) (ss : List ℕ) → p rs ss → inv rs ss)
    → Quiet m
    → Triple p m (λ _. p)
quiet p m weaken q w h = quiet-Post p w (m w) weaken (q w) h

pub Quiet-bind-Post :
    {A B : Type 0} (f : A → M B) (w : World) (o : World × Result Thrown A)
    → ((a : A) → Quiet (f a))
    → (o.0.receipts ≡ w.receipts) × (o.0.submits ≡ w.submits)
    → let o' : World × Result Thrown B =
        let (w', x) = o in elim x [ err e ↦ (w', err e) | ok a ↦ f a w' ] in
      (o'.0.receipts ≡ w.receipts) × (o'.0.submits ≡ w.submits)
Quiet-bind-Post f w (w', ok a) k (er, es) = ((k a w').0 ∙ er, (k a w').1 ∙ es)
Quiet-bind-Post f w (w', err e) k h = h

pub Quiet-bind :
    {A B : Type 0} (m : M A) (f : A → M B) → Quiet m → ((a : A) → Quiet (f a)) → Quiet (m >>= f)
unfolding ◌>>=◌
Quiet-bind m f hm hf w = Quiet-bind-Post f w (m w) hf (hm w)

-- A call of the database fails, or makes its change.
pub data Called (change : World → Option World) (w : World) : Type 0 where
  fault :
      database change w ≡ (record w { faults = later_calls w.faults }, err database_error)
      → Called change w
  done :
      (w' : World)
      → change (record w { faults = later_calls w.faults }) ≡ some w'
      → database change w ≡ (w', ok tt)
      → Called change w

pub called : (change : World → Option World) (w : World) → Called change w
unfolding database
called change w = elim (Bool-cases (fails_now w.faults)) [
  | inl fails ↦ fault (rw (fails, database))
  | inr works ↦ elim (Option-cases (change (record w { faults = later_calls w.faults }))) [
    | inl none' ↦ fault (rw (works, none', database))
    | inr (w', some') ↦ done w' some' (rw (works, some', database))
  ]
]

pub update_row-quiet :
    (step : PublishState) (p : Patch) (w w' : World)
    → update_row step p w ≡ some w'
    → (w'.receipts ≡ w.receipts) × (w'.submits ≡ w.submits)
unfolding update_row
update_row-quiet step p w w' e = ground arith

pub update_row-Quiet : (step : PublishState) (p : Patch) → Quiet (database (update_row step p))
update_row-Quiet step p w = elim (called (update_row step p) w) [
  | fault e ↦ rw e (refl, refl)
  | done w' c e ↦ rw e (update_row-quiet step p (record w { faults = later_calls w.faults }) w' c)
]

pub hold-Quiet : (step : PublishState) → Quiet (hold step)
unfolding hold
hold-Quiet step w = (refl, refl)

pub move_step-Quiet : (s : PublishState) (p : Patch) → Quiet (move_step s p)
unfolding move_step
move_step-Quiet s p w = elim (Bool-cases (same s w.held && is_empty p)) [
  | inl nothing ↦ rw (nothing, move_step) (refl, refl)
  | inr some' ↦
      rw (some', move_step)
        (Quiet-bind (database (update_row s p)) (λ _. hold s) (update_row-Quiet s p)
          (λ _. hold-Quiet s) w)
]

pub move_steps-Quiet : (steps : List PublishState) (p : Patch) → Quiet (move_steps steps p)
unfolding move_steps
move_steps-Quiet [] p w = (refl, refl)
move_steps-Quiet (s ∷ []) p w = move_step-Quiet s p w
move_steps-Quiet (s ∷ t ∷ rest) p w =
    Quiet-bind (move_step s no_patch) (λ _. move_steps (t ∷ rest) p) (move_step-Quiet s no_patch)
      (λ _. move_steps-Quiet (t ∷ rest) p) w

pub move_to-Quiet : (target : PublishState) (p : Patch) → Quiet (move_to target p)
unfolding move_to
move_to-Quiet target p w = elim (Option-cases (publish_path w.held target)) [
  | inl e ↦ rw (e, move_to) (refl, refl)
  | inr (path, e) ↦ rw (e, move_to) (move_steps-Quiet (steps_or path target) p w)
]

pub database-Triple :
    (p q : Pred) (change : World → Option World)
    → ((rs : List Receipt) (ss : List ℕ) → p rs ss → inv rs ss)
    → ((w w' : World) → On p w → change w ≡ some w' → On q w')
    → Triple p (database change) (λ _. q)
database-Triple p q change weaken step w h = elim (called change w) [
  | fault e ↦ rw e (weaken _ _ h)
  | done w' c e ↦ rw e (step (record w { faults = later_calls w.faults }) w' h c)
]
