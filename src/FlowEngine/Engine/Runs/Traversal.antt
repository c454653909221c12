-- ===== src/FlowEngine/Engine/Runs/Traversal.antt =====
-- A predicate through the completion of a session, a traversal, a new run and a run that goes on.
use zernflow.Base.{
  ℕ, zero, suc, ◌≡◌, refl, ◌∙◌, Bool, true, false, Option, none, some, List, ◌∷◌, ◌==◌, All, find,
  find-All,
}
use zernflow.Base.Json.{Text}
use zernflow.FlowEngine.Types.{FlowNode, FlowEdge, Context}
use zernflow.FlowEngine.Engine.Store.{Tables, Session, Event, M, load_error, Patch, cancel, track}
use zernflow.FlowEngine.Engine.Outside.{Outside}
use zernflow.FlowEngine.Engine.Nodes.{NodeResult, pause, go_on, handle}
use zernflow.FlowEngine.Engine.Run.{
  target_node, is_edge, next_node, or_load_error, cancel_unresumable_session, execute_node, follow,
  chosen_handle, traverse_nodes,
}
use zernflow.FlowEngine.Engine.Keeps.{
  Pred, Keeps, IsTakeover, Stable, bind, bind_with, return-Keeps, throw-Keeps, write-Keeps,
  update_session-Keeps, then-Keeps,
}
use zernflow.FlowEngine.Engine.Contexts.{IsHere, execute_data-Returns}
use zernflow.FlowEngine.Engine.Runs.Completion.{Ending, complete_session-Keeps}
use zernflow.FlowEngine.Engine.Runs.{IsFine, execute_data-Keeps, persist-Keeps}

target_node-All :
    (P : FlowNode → Type 0) (edge : Option FlowEdge) (nodes : List FlowNode) {n : FlowNode}
    → target_node edge nodes ≡ some n
    → All P nodes
    → P n
target_node-All P none nodes e fine = cc
target_node-All P (some edge) nodes e fine = find-All P (λ n. n.id == edge.target) nodes fine e

pub next_node-All :
    (P : FlowNode → Type 0) (node : FlowNode) (h : Option Text) (nodes : List FlowNode)
    (edges : List FlowEdge) {n : FlowNode}
    → next_node node h nodes edges ≡ some n
    → All P nodes
    → P n
unfolding next_node
next_node-All P node h nodes edges e fine =
    target_node-All P (find (is_edge node h) edges) nodes e fine

-- And every event.
pub record Lasting (p : Pred) : Type 0 where
  pub ending : Ending p
  pub logged :
      (event : Event) (s : List Session) (e : List Event) (f : List Bool)
      → p s e f
      → p s (event ∷ e) f

module _ (o : Outside) (t : Tables) (p : Pred) {allowed : Patch → Type 0}
    (stable : Stable p allowed) where
  pub event-Keeps : Lasting p → (event : Event) → Keeps p (track event)
  unfolding track
  event-Keeps lasting event =
      write-Keeps p _ stable.called (λ w h. lasting.logged event w.sessions w.events w.faults h)

  module _ (lasting : Lasting p) where
    module _ (usual : (patch : Patch) → ¬ IsTakeover patch → allowed patch) where
      or_load_error-Keeps : (done : Bool) → Keeps p (or_load_error o t done)
      or_load_error-Keeps true = return-Keeps p tt
      or_load_error-Keeps false = throw-Keeps p (Unit {0}) load_error

      pub cancel_unresumable_session-Keeps : (id : ℕ) → Keeps p (cancel_unresumable_session o t id)
      unfolding cancel_unresumable_session
      cancel_unresumable_session-Keeps id =
          bind p _ _ (update_session-Keeps p stable id cancel (usual cancel (λ x. x)))
            or_load_error-Keeps

      follow-Keeps :
          (result : NodeResult) (session : ℕ) (next : Option FlowNode)
          (go : FlowNode → M (Unit {0}))
          → ((n : FlowNode) → next ≡ some n → Keeps p (go n))
          → Keeps p (follow o t result session next go)
      follow-Keeps pause session next go keep = return-Keeps p tt
      follow-Keeps go_on session none go keep =
          complete_session-Keeps o t p stable lasting.ending session
      follow-Keeps go_on session (some n) go keep = keep n refl
      follow-Keeps (handle h) session none go keep =
          complete_session-Keeps o t p stable lasting.ending session
      follow-Keeps (handle h) session (some n) go keep = keep n refl

      module _ (workspace : ℕ) (run : Context → M (Unit {0})) where
        abbrev pub AllFine : List FlowNode → Type 0
        AllFine nodes = All (λ n. IsFine p allowed workspace run n.content) nodes

        pub traverse_nodes-Keeps :
            (left session : ℕ) (node : FlowNode) (nodes : List FlowNode) (edges : List FlowEdge)
            (c : Context)
            → c.workspace_id ≡ workspace
            → IsFine p allowed workspace run node.content
            → AllFine nodes
            → Keeps p (traverse_nodes o t run left session node nodes edges c)
        unfolding traverse_nodes execute_node
        traverse_nodes-Keeps zero session node nodes edges c here fine all_fine =
            complete_session-Keeps o t p stable lasting.ending session
        traverse_nodes-Keeps (suc left) session node nodes edges c here fine all_fine =
            then-Keeps p _ _ (update_session-Keeps p stable session _ (usual _ (λ x. x))) (
              then-Keeps p _ _ (event-Keeps lasting _) (
                bind_with p (IsHere c) _ _
                  (execute_data-Keeps o t p stable usual workspace run node.content node.id c
                    session here fine)
                  (execute_data-Returns o t run node.content node.id c session)
                  (λ r same.
                    then-Keeps p _ _
                      (persist-Keeps o t p stable usual workspace run node.content session r.1)
                      (follow-Keeps r.0 session _ _ (λ n e.
                        traverse_nodes-Keeps left session n nodes edges r.1 (same ∙ here)
                          (next_node-All (λ m. IsFine p allowed workspace run m.content) node
                            (chosen_handle r.0) nodes edges e all_fine)
                          all_fine)))))
