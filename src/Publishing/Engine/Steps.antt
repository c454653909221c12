-- ===== src/Publishing/Engine/Steps.antt =====
-- What the steps of a run do to the invariant of the receipts: the outcomes, the recorded execution,
-- and the insert of a receipt.
use zernflow.Base.{
  ℕ, ◌≤◌, ◌<◌, ◌≡◌, ◌≢◌, refl, ap, ◌⊎◌, inl, inr, Bool, true, false, not, Option, none, some, List,
  [], ◌∷◌, arith, All, All-implies, is_some, ◌&&◌, if◌then◌else◌,
}
use zernflow.Base.Json.{Text}
use zernflow.Publishing.State.{PublishState, same}
use zernflow.Publishing.Contract.{PublishOutcome}
use zernflow.Publishing.Contract.Laws.{IsNamed}
use zernflow.Publishing.Engine.Store.{
  Receipt, M, ◌>>=◌, nonempty, database, Patch, move_to, has_attempt, insert_receipt,
}
use zernflow.Publishing.Engine.Apply.{is_new, Task, event, apply_outcome}
use zernflow.Publishing.Engine.Run.{record_execution}
use zernflow.Publishing.Engine.Triples.{
  IsFailed, IsReferenced, Pred, inv, ready, fresh, Triple, bind, quiet, database-Triple,
  move_to-Quiet,
}
use zernflow.Publishing.Engine.Receipts.{update_receipt-inv, latest-OneOpen}

self : (rs : List Receipt) (ss : List ℕ) → inv rs ss → inv rs ss
self rs ss h = h

-- The invariant through a sequence.
pub seq :
    {A B : Type 0} (m : M A) (f : A → M B)
    → Triple inv m (λ _. inv)
    → ((a : A) → Triple inv (f a) (λ _. inv))
    → Triple inv (m >>= f) (λ _. inv)
seq m f = bind inv (λ _. inv) (λ _. inv) m f

pub move_to-inv : (target : PublishState) (p : Patch) → Triple inv (move_to target p) (λ _. inv)
move_to-inv target p = quiet inv (move_to target p) self (move_to-Quiet target p)

event-inv : (message : Text) → Triple inv (event message) (λ _. inv)
unfolding event
event-inv message w h = h

pub choose :
    {A : Type 0} (m n : M A) (b : Bool)
    → Triple inv m (λ _. inv)
    → Triple inv n (λ _. inv)
    → Triple inv (if b then m else n) (λ _. inv)
choose m n true hm hn = hm
choose m n false hm hn = hn

chosen_ref :
    (ref held old : Option Text)
    → old ≢ some []
    → (if is_some (nonempty ref) && not (is_some held) then ref else old) ≢ some []
chosen_ref none held old h = h
chosen_ref (some []) held old h = h
chosen_ref (some (c ∷ cs)) none old h = λ e. cc
chosen_ref (some (c ∷ cs)) (some t) old h = h

module _ (task : Task) (prior : Option Receipt) (receipt : Receipt) where
  pub apply_outcome-inv :
      (o : PublishOutcome) → IsNamed o → Triple inv (apply_outcome task prior receipt o) (λ _. inv)
  unfolding apply_outcome
  apply_outcome-inv (PublishOutcome.published ref url parts) n =
      seq _ _ (update_receipt-inv _ _ (λ r k. k))
        (λ _. seq _ _ (move_to-inv _ _) (λ _. seq _ _ (event-inv _) (λ _ w h. h)))
  apply_outcome-inv (PublishOutcome.accepted ref poll) n =
      seq _ _ (update_receipt-inv _ _ (λ r k. ground arith)) (λ _.
        seq _ _ (λ w h. h)
          (λ held.
            seq _ _ (choose _ _ (same held PublishState.publishing) (λ w h. h) (move_to-inv _ _))
              (λ _.
                seq _ _ (choose _ _ (is_new task prior receipt) (event-inv _) (λ w h. h))
                  (λ _. seq _ _ (λ w h. h) (λ now w h. h)))))
  apply_outcome-inv (PublishOutcome.partial ref url parts message) n =
      seq _ _ (update_receipt-inv _ _ (λ r k. k)) (λ _. seq _ _ (move_to-inv _ _) (λ _ w h. h))
  apply_outcome-inv (PublishOutcome.failed cls message code after final) n =
      seq _ _ (update_receipt-inv _ _ (λ r k. k)) (λ _. seq _ _ (move_to-inv _ _) (λ _ w h. h))
  apply_outcome-inv (PublishOutcome.unknown message ref) n =
      seq _ _
        (update_receipt-inv _ _
          (λ r k. chosen_ref ref (nonempty receipt.operation_ref) r.operation_ref k))
        (λ _. seq _ _ (move_to-inv _ _) (λ _ w h. h))

pub record_execution-inv : (o : PublishOutcome) → Triple inv (record_execution o) (λ _. inv)
unfolding record_execution
record_execution-inv o w h = h

pub record_execution-fresh : (o : PublishOutcome) → Triple fresh (record_execution o) (λ _. fresh)
unfolding record_execution
record_execution-fresh o w h = h

-- The results that a caller goes on with.
pub require :
    {A B : Type 0} (p : A → Type 0) (m : M A) (f : A → M B)
    → Triple inv m (λ a rs ss. inv rs ss × p a)
    → ((a : A) → p a → Triple inv (f a) (λ _. inv))
    → Triple inv (m >>= f) (λ _. inv)
require p m f hm hf =
    bind inv (λ a rs ss. inv rs ss × p a) (λ _. inv) m f hm (λ a w h. hf a h.1 w h.0)

-- A receipt may be inserted above failed ones whose attempts are smaller.
abbrev pub Above : ℕ → List Receipt → Type 0
Above n rs = All IsFailed rs × All (λ r. r.attempt < n) rs

has_attempt-Above :
    (n : ℕ) (rs : List Receipt) → All (λ r. r.attempt < n) rs → has_attempt n rs ≡ false
unfolding has_attempt
has_attempt-Above n [] h = refl
has_attempt-Above n (r ∷ rs) h =
    let rest = has_attempt-Above n rs h.1 in let less = h.0 in ground arith

abbrev pub vacant : ℕ → Pred
vacant n rs ss = inv rs ss × Above n rs

-- The insert of a receipt that is not there yet.
inserted-fresh :
    (n : ℕ) (r : Receipt)
    → r.attempt ≡ n
    → IsReferenced r
    → Triple (vacant n) (database (λ v. some (record v { receipts = r ∷ v.receipts }))) (λ _. fresh)
inserted-fresh n r same ref =
    database-Triple (vacant n) fresh _ (λ rs ss k. k.0)
      (λ v v' k e.
        let added : record v { receipts = r ∷ v.receipts } ≡ v' = ground arith in
        rw (← added) (rw same (k.1.0, k.1.1), (ref, k.0.1), omega (arith, k.0.2)))

pub insert_receipt-fresh : (n : ℕ) → Triple (vacant n) (insert_receipt n) (λ _. fresh)
unfolding insert_receipt
insert_receipt-fresh n w h = rw (has_attempt-Above n w.receipts h.1.1) (
    bind (vacant n) (λ _. fresh) (λ _. fresh) _ _ (inserted-fresh n _ refl ((λ e. cc), refl))
      (λ _ v k. k) w h)

-- The state before an insert, from the latest receipt.
pub settled-vacant :
    (n : ℕ) (rs : List Receipt) (ss : List ℕ) (prior : Option Receipt)
    → ready prior rs ss
    → (prior ≡ none) ⊎ ((r : Receipt) × (prior ≡ some r) × IsFailed r × (r.attempt < n))
    → vacant n rs ss
settled-vacant n [] ss prior h c = (h.0, (tt, tt))
settled-vacant n (r ∷ rs) ss prior h (inl none') =
    let top = latest-OneOpen r rs h.0.0 in let same = h.1 in absurd (ground arith)
settled-vacant n (r ∷ rs) ss prior h (inr (s, e, failed', less)) =
    let top = latest-OneOpen r rs h.0.0 in
    let same : r ≡ s = (let eq = h.1 in ground arith) in
    let below : s.attempt ≤ n = omega (arith, less) in
    (
      h.0,
      (
        (rw same failed', h.0.0.0),
        (
          rw same less,
          All-implies (λ x k. omega (arith, k, below, ap (λ (y : Receipt). y.attempt) same)) rs
              h.0.0.1,
        ),
      ),
    )
