-- ===== src/FlowEngine/Engine/Runs/Completion.antt =====
-- A predicate through the completion of a session, and through what a run reads first.
use zernflow.Base.{ℕ, ◌≡◌, refl, Bool, Option, none, some, List, ◌∷◌}
use zernflow.Base.Json.{Text}
use zernflow.FlowEngine.Types.{Context}
use zernflow.FlowEngine.Engine.Store.{
  Flow, Tables, Session, Event, Answer, row, no_row, unavailable, Patch, update_where, track,
  flow_completed,
}
use zernflow.FlowEngine.Engine.Outside.{Outside}
use zernflow.FlowEngine.Engine.Run.{
  is_open, complete, flow_completed_by, after_completion, complete_session, load_conversation,
  load_channel,
}
use zernflow.FlowEngine.Engine.Keeps.{
  Pred, Keeps, Stable, bind, return-Keeps, single-Keeps, write-Keeps, write_returning-Keeps,
  then-Keeps,
}

-- Besides: the event of a completion, and the completion of an active session.
pub record Ending (p : Pred) : Type 0 where
  pub ended :
      (event : Event) (s : List Session) (e : List Event) (f : List Bool)
      → event.type ≡ flow_completed
      → p s e f
      → p s (event ∷ e) f
  pub completed :
      (id : ℕ) (s : List Session) (e : List Event) (f : List Bool)
      → p s e f
      → p (update_where (is_open id) complete s) e f

module _ (o : Outside) (t : Tables) (p : Pred) {allowed : Patch → Type 0}
    (stable : Stable p allowed) where
  module _ (ending : Ending p) where
    ended-Keeps : (event : Event) → event.type ≡ flow_completed → Keeps p (track event)
    unfolding track
    ended-Keeps event same =
        write-Keeps p _ stable.called
          (λ w h. ending.ended event w.sessions w.events w.faults same h)

    flow_completed_by-Keeps :
        (s : Session) (answer : Answer Flow) → Keeps p (flow_completed_by o t s answer)
    flow_completed_by-Keeps s (row f) = then-Keeps p _ _ (ended-Keeps _ refl) (return-Keeps p tt)
    flow_completed_by-Keeps s no_row = return-Keeps p tt
    flow_completed_by-Keeps s unavailable = return-Keeps p tt

    pub after_completion-Keeps :
        (answer : Option (Answer Session)) → Keeps p (after_completion o t answer)
    after_completion-Keeps none = return-Keeps p tt
    after_completion-Keeps (some (row s)) =
        bind p _ _ (single-Keeps p _ stable.called) (flow_completed_by-Keeps s)
    after_completion-Keeps (some no_row) = return-Keeps p tt
    after_completion-Keeps (some unavailable) = return-Keeps p tt

    pub complete_session-Keeps : (id : ℕ) → Keeps p (complete_session o t id)
    unfolding complete_session
    complete_session-Keeps id =
        bind p _ _
          (write_returning-Keeps p _ stable.called
            (λ w h. ending.completed id w.sessions w.events w.faults h))
          after_completion-Keeps

  pub load_conversation-Keeps :
      (id : Option Text) (c : Context) → Keeps p (load_conversation o t id c)
  load_conversation-Keeps (some id) c = return-Keeps p c
  load_conversation-Keeps none c =
      bind p _ _ (single-Keeps p _ stable.called) (λ answer. return-Keeps p _)

  pub load_channel-Keeps : (c : Context) → Keeps p (load_channel o t c)
  unfolding load_channel
  load_channel-Keeps c =
      bind p _ _ (single-Keeps p _ stable.called) (λ answer. load_conversation-Keeps _ _)
