-- ===== src/FlowEngine/Engine/Settle.antt =====
-- Sessions that are settled, and the updates that settle one.
pub mod Nodes
pub mod Pausing
pub mod Traversal
use zernflow.Base.{
  ℕ, zero, suc, ◌≡◌, ◌≢◌, refl, sym, ap, ◌∙◌, ◌⊎◌, inl, inr, Bool, true, false, ◌&&◌, Option, none,
  some, List, [], ◌∷◌, arith, ◌==◌, ==_iff, All, if◌then◌else◌, Bool-cases,
}
use zernflow.Base.Result.{Result, ok, err}
use zernflow.FlowEngine.Engine.Store.{
  FlowError, Session, SessionStatus, active, Event, World, M, ◌>>=◌, return, Tables,
  write_returning, is_active, Patch, cancel, wait_until, wait_for_input, take_over, store_variables,
  apply_patch, update_where, update_session, write, later_calls,
}
use zernflow.FlowEngine.Engine.Nodes.{NodeResult, pause}
use zernflow.FlowEngine.Engine.Keeps.{Pred, On, Keeps, Ends, Returns, Stable}
use zernflow.FlowEngine.Engine.Runs.Completion.{Ending, after_completion-Keeps}
use zernflow.FlowEngine.Engine.Triples.{Post, Triple, bind, keeps, clean, anything}
use zernflow.FlowEngine.Engine.Outside.{Outside}
use zernflow.FlowEngine.Engine.Run.{
  is_open, complete, complete_row, after_completion, complete_session,
}

-- A session that needs nothing, or that a message or a delay resumes.
abbrev pub IsSettled : Session → Type 0
IsSettled x = (x.status ≢ active) ⊎ ((x.waiting_for_input ≡ true) ⊎ (x.waiting_until ≢ none))

abbrev pub Settled : ℕ → List Session → Type 0
Settled id s = All (λ x. x.id ≡ id → IsSettled x) s

abbrev pub settled : ℕ → Pred
settled id s e f = (f ≡ []) × Settled id s

-- A node that pauses has settled the session.
abbrev pub paused : ℕ → NodeResult → Pred
paused id r s e f = (f ≡ []) × (r ≡ pause → Settled id s)

pub update_where-Settled :
    (id : ℕ) (test : Session → Bool) (g : Session → Session) (ss : List Session)
    → ((x : Session) → x.id ≡ id → test x ≡ true → IsSettled (g x))
    → ((x : Session) → (g x).id ≡ x.id)
    → ((x : Session) → x.id ≡ id → test x ≡ false → IsSettled x)
    → Settled id (update_where test g ss)
unfolding update_where
update_where-Settled id test g [] hit same miss = tt
update_where-Settled id test g (x ∷ ss) hit same miss = elim (Bool-cases (test x)) [
  | inl yes' ↦
      rw yes'
        ((λ e. hit x (sym (same x) ∙ e) yes'), update_where-Settled id test g ss hit same miss)
  | inr no' ↦ rw no' ((λ e. miss x e no'), update_where-Settled id test g ss hit same miss)
]

abbrev pub Settles : Patch → Type 0
Settles patch = (x : Session) → IsSettled (apply_patch patch x)

pub wait_until-Settles : (node time : ℕ) → Settles (wait_until node time)
unfolding apply_patch
wait_until-Settles node time x = inr (inr (λ e. cc))

pub wait_for_input-Settles : (node : ℕ) → Settles (wait_for_input node)
unfolding apply_patch
wait_for_input-Settles node x = inr (inl refl)

pub cancel-Settles : Settles cancel
unfolding apply_patch
cancel-Settles x = inl (λ e. cc)

pub take_over-Settles : (time : ℕ) → Settles (take_over time)
unfolding apply_patch
take_over-Settles time x = inl (λ e. cc)

pub update_session-settled :
    (id : ℕ) (patch : Patch)
    → Settles patch
    → ((x : Session) → (apply_patch patch x).id ≡ x.id)
    → Triple clean (update_session id patch) (λ done. settled id) anything
unfolding update_session write
update_session-settled id patch settles same w h = rw h (
  refl,
  update_where-Settled id (λ x. x.id == id) (apply_patch patch) w.sessions (λ x e hit. settles x)
      same (λ x e miss. absurd (ground arith)),
)

pub clean-Stable : Stable clean (λ patch. Unit {0})
clean-Stable = record {
  called = λ s e f h. rw h refl;
  patched = λ id patch s e f a h. h;
  messaged = λ event s e f m h. h;
}

pub clean-Ending : Ending clean
clean-Ending = record { ended = λ event s e f m h. h; completed = λ id s e f h. h }

-- The completion of an active session.
complete-Settled :
    (id other : ℕ) (ss : List Session)
    → Settled id ss
    → Settled id (update_where (is_open other) complete ss)
unfolding update_where
complete-Settled id other [] h = tt
complete-Settled id other (x ∷ ss) h = elim (Bool-cases (is_open other x)) [
  | inl yes' ↦ rw yes' ((λ e. inl (λ k. cc)), complete-Settled id other ss h.1)
  | inr no' ↦ rw no' (h.0, complete-Settled id other ss h.1)
]

pub settled-Stable : (id : ℕ) → Stable (settled id) (λ patch. ⊥)
settled-Stable id = record {
  called = λ s e f h. (rw h.0 refl, h.1);
  patched = λ other patch s e f a h. absurd a;
  messaged = λ event s e f m h. h;
}

pub settled-Ending : (id : ℕ) → Ending (settled id)
settled-Ending id = record {
  ended = λ event s e f m h. h;
  completed = λ other s e f h. (h.0, complete-Settled id other s h.1);
}

closed : (id : ℕ) (x : Session) → x.id ≡ id → is_open id x ≡ false → x.status ≢ active
closed id x e miss active' = ground arith

completed_row-settled : (id : ℕ) (w : World) → On clean w → On (settled id) (complete_row id w).0
completed_row-settled id w h = (
  h,
  update_where-Settled id (is_open id) complete w.sessions (λ x e hit. inl (λ k. cc)) (λ x. refl)
      (λ x e miss. inl (closed id x e miss)),
)

module _ (o : Outside) (t : Tables) where
  pub complete_session-settled :
      (id : ℕ) → Triple clean (complete_session o t id) (λ done. settled id) anything
  unfolding complete_session write_returning
  complete_session-settled id =
      bind anything clean (λ answer. settled id) (λ done. settled id)
        (write_returning (complete_row id)) (after_completion o t)
        (λ w h. rw h (completed_row-settled id (record w { faults = [] }) refl))
        (λ answer.
          keeps anything (settled id) (after_completion o t answer) (λ s e f h. tt)
            (after_completion-Keeps o t (settled id) (settled-Stable id) (settled-Ending id)
              answer))

-- A node that goes on leaves the session as it is.
going-Post :
    {A : Type 0} (id : ℕ) (result : A → NodeResult) (o : World × Result FlowError A)
    → On clean o.0
    → Ends (λ a. result a ≢ pause) o.1
    → Post {A = A} (λ a. paused id (result a)) anything o
going-Post id result (w, ok a) h k = (h, λ e. absurd (k e))
going-Post id result (w, err e) h k = tt

pub going :
    {A : Type 0} (id : ℕ) (result : A → NodeResult) (m : M A)
    → Keeps clean m
    → Returns (λ a. result a ≢ pause) m
    → Triple clean m (λ a. paused id (result a)) anything
going id result m h k w p = going-Post id result (m w) (h w p) (k w)
