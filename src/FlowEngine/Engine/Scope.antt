-- ===== src/FlowEngine/Engine/Scope.antt =====
-- The flows that the sessions are of, through the updates of a run.
use zernflow.Base.{
  ℕ, ◌≡◌, refl, ◌⊎◌, inl, inr, Bool, true, false, List, [], ◌∷◌, arith, All, All-implies,
  if◌then◌else◌,
}
use mathlib.Core.List.{Mem}
use zernflow.FlowEngine.Types.{Context}
use zernflow.FlowEngine.Engine.Store.{
  Flow, Tables, Session, World, Patch, resumed, cancel, at_node, store_variables, wait_for_input,
  wait_until, take_over, apply_patch, update_where,
}
use zernflow.FlowEngine.Engine.Outside.{Outside}
use zernflow.FlowEngine.Engine.Run.{complete}
use zernflow.FlowEngine.Engine.Start.{is_runnable, execute_flow}
use zernflow.FlowEngine.Engine.Keeps.{Pred, Stable}
use zernflow.FlowEngine.Engine.Runs.Traversal.{Lasting}
use zernflow.FlowEngine.Engine.Runs.Whole.{All-MayTakeOver, execute_flow-Keeps}

apply_patch-flow_id : (patch : Patch) (s : Session) → (apply_patch patch s).flow_id ≡ s.flow_id
unfolding apply_patch
apply_patch-flow_id resumed s = refl
apply_patch-flow_id cancel s = refl
apply_patch-flow_id (at_node node) s = refl
apply_patch-flow_id (store_variables vs) s = refl
apply_patch-flow_id (wait_for_input node) s = refl
apply_patch-flow_id (wait_until node time) s = refl
apply_patch-flow_id (take_over time) s = refl

update_where-All :
    (P : ℕ → Type 0) (test : Session → Bool) (f : Session → Session)
    → ((s : Session) → (f s).flow_id ≡ s.flow_id)
    → (ss : List Session) → All (λ s. P s.flow_id) ss
    → All (λ s. P s.flow_id) (update_where test f ss)
unfolding update_where
update_where-All P test f same [] h = tt
update_where-All P test f same (s ∷ ss) h = (chosen (test s), update_where-All P test f same ss h.1)
  where
    chosen : (b : Bool) → P (if b then f s else s).flow_id
    chosen true = rw (same s) h.0
    chosen false = h.0

-- A published flow of the workspace.
abbrev pub IsPublishedIn : Tables → ℕ → ℕ → Type 0
IsPublishedIn t workspace id =
    (f : Flow) × Mem f t.flows
    × (f.id ≡ id)
    × (f.workspace_id ≡ workspace)
    × (f.is_published ≡ true)

runnable :
    (t : Tables) (c : Context) (f : Flow) (workspace : ℕ)
    → c.workspace_id ≡ workspace
    → Mem f t.flows
    → is_runnable c f ≡ true
    → IsPublishedIn t workspace c.flow_id
runnable t c f workspace here listed e = (f, listed, ground arith, ground arith, ground arith)

module _ (t : Tables) (workspace : ℕ) (Old : ℕ → Type 0) where
  abbrev Scoped : ℕ → Type 0
  Scoped id = Old id ⊎ IsPublishedIn t workspace id

  abbrev scoped : Pred
  scoped s e f = All (λ x. Scoped x.flow_id) s

  scoped-Stable : Stable scoped (λ patch. Unit {0})
  scoped-Stable = record {
    called = λ s e f h. h;
    patched = λ id patch s e f a h.
        update_where-All Scoped _ (apply_patch patch) (apply_patch-flow_id patch) s h;
    messaged = λ event s e f m h. h;
  }

  scoped-Lasting : Lasting scoped
  scoped-Lasting = record {
    ending = record {
      ended = λ event s e f same h. h;
      completed = λ id s e f h. update_where-All Scoped _ complete (λ x. refl) s h;
    };
    logged = λ event s e f h. h;
  }

-- For every context, every fuel, every row that the database holds, every failure of its calls and
-- every answer of the outside: the sessions that there are after `executeFlow` are of flows that a
-- session was of before (`Old`), or of published flows of the workspace of the context. A flow may
-- go to any flow id, and the run may end in an error.
pub execute_flow-scoped :
    (o : Outside) (t : Tables) (fuel : ℕ) (c : Context) (w : World) (Old : ℕ → Type 0)
    → All (λ s. Old s.flow_id) w.sessions
    → All
        (λ s. Old s.flow_id ⊎ IsPublishedIn t c.workspace_id s.flow_id)
        (execute_flow o t fuel c w).0.sessions
execute_flow-scoped o t fuel c w Old old =
    execute_flow-Keeps o t (scoped t c.workspace_id Old) (scoped-Stable t c.workspace_id Old)
      (scoped-Lasting t c.workspace_id Old) (λ patch usual. tt) (Scoped t c.workspace_id Old)
      (λ d s e f h k. (h, k)) c.workspace_id
      (λ d f here listed e. inr (runnable t d f c.workspace_id here listed e))
      (All-MayTakeOver (λ patch. Unit {0}) (λ patch. tt) t.flows) fuel c refl w
      (All-implies (λ s h. inl h) w.sessions old)
