-- ===== src/FlowEngine/Engine/Lifecycle.antt =====
-- The status of a session through the updates of a run.
use zernflow.Base.{
  ℕ, ◌<◌, ◌≡◌, ◌≢◌, refl, sym, ◌∙◌, inl, inr, Bool, true, List, [], ◌∷◌, arith, ◌==◌, All,
  All-implies, Bool-cases,
}
use mathlib.Core.Path.{subst}
use zernflow.FlowEngine.Types.{human_takeover, FlowNode, FlowEdge, Context}
use zernflow.FlowEngine.Engine.Store.{
  Tables, Session, SessionStatus, active, completed, cancelled, expired, is_active, World, Patch,
  resumed, cancel, at_node, store_variables, wait_for_input, wait_until, take_over, apply_patch,
  update_where,
}
use zernflow.FlowEngine.Engine.Outside.{Outside}
use zernflow.FlowEngine.Engine.Run.{is_open, complete, traverse_nodes}
use zernflow.FlowEngine.Engine.Start.{fresh_id, new_session, execute_flow}
use zernflow.FlowEngine.Engine.Keeps.{IsTakeover, Stable}
use zernflow.FlowEngine.Engine.Runs.Traversal.{Lasting, traverse_nodes-Keeps}
use zernflow.FlowEngine.Engine.Runs.{IsFine}
use zernflow.FlowEngine.Engine.Runs.Whole.{
  All-MayTakeOver, may_take_over, IsFine-node, execute_flow-Keeps,
}

-- The sessions with an id have a status of a kind, and the id is taken.
abbrev pub HasStatus : (SessionStatus → Type 0) → ℕ → List Session → Type 0
HasStatus P id s = All (λ x. x.id ≡ id → P x.status) s × (id < fresh_id s)

-- An update that leaves the ids and, of the rows that it is for, this kind of status.
pub record IsKind (P : SessionStatus → Type 0) (test : Session → Bool) (f : Session → Session)
    : Type 0 where
  pub same_id : (x : Session) → (f x).id ≡ x.id
  pub same_kind : (x : Session) → test x ≡ true → P x.status → P (f x).status

module _ (P : SessionStatus → Type 0) (id : ℕ) where
  update_where-All :
      (test : Session → Bool) (f : Session → Session)
      → IsKind P test f
      → (ss : List Session) → All (λ x. x.id ≡ id → P x.status) ss
      → All (λ x. x.id ≡ id → P x.status) (update_where test f ss)
  unfolding update_where
  update_where-All test f kind [] h = tt
  update_where-All test f kind (x ∷ ss) h = elim (Bool-cases (test x)) [
    | inl hit ↦ rw hit (
      (λ e. kind.same_kind x hit (h.0 (sym (kind.same_id x) ∙ e))),
      update_where-All test f kind ss h.1,
    )
    | inr miss ↦ rw miss (h.0, update_where-All test f kind ss h.1)
  ]

fresh_id-update_where :
    (test : Session → Bool) (f : Session → Session)
    → ((x : Session) → (f x).id ≡ x.id)
    → (ss : List Session) → fresh_id (update_where test f ss) ≡ fresh_id ss
unfolding update_where
fresh_id-update_where test f same [] = refl
fresh_id-update_where test f same (x ∷ ss) = elim (Bool-cases (test x)) [
  | inl hit ↦ rw (hit, same x, fresh_id-update_where test f same ss)
  | inr miss ↦ rw (miss, fresh_id-update_where test f same ss)
]

module _ (P : SessionStatus → Type 0) (id : ℕ) where
  update_where-HasStatus :
      (test : Session → Bool) (f : Session → Session) (ss : List Session)
      → IsKind P test f
      → HasStatus P id ss
      → HasStatus P id (update_where test f ss)
  update_where-HasStatus test f ss kind h = (
    update_where-All P id test f kind ss h.0,
    rw (fresh_id-update_where test f kind.same_id ss) h.1,
  )

  new_session-HasStatus :
      (c : Context) (ss : List Session)
      → HasStatus P id ss
      → HasStatus P id (new_session (fresh_id ss) c ∷ ss)
  new_session-HasStatus c ss h =
      (((λ e. absurd (let taken = h.1 in omega (arith, e))), h.0), omega (arith, h.1))

open_active : (session : ℕ) (x : Session) → is_open session x ≡ true → x.status ≡ active
open_active session x e = status_active x.status (ground arith)
  where
    status_active : (s : SessionStatus) → is_active s ≡ true → s ≡ active
    status_active active h = refl
    status_active completed h = cc
    status_active expired h = cc
    status_active cancelled h = cc

apply_patch-id : (patch : Patch) (x : Session) → (apply_patch patch x).id ≡ x.id
unfolding apply_patch
apply_patch-id resumed x = refl
apply_patch-id cancel x = refl
apply_patch-id (at_node node) x = refl
apply_patch-id (store_variables vs) x = refl
apply_patch-id (wait_for_input node) x = refl
apply_patch-id (wait_until node time) x = refl
apply_patch-id (take_over time) x = refl

-- The updates that leave a kind of status; a cancellation and a takeover set one.
patch_kind :
    (P : SessionStatus → Type 0) (patch : Patch) (x : Session)
    → P cancelled
    → (IsTakeover patch → P completed)
    → P x.status
    → P (apply_patch patch x).status
unfolding apply_patch
patch_kind P resumed x c o h = h
patch_kind P cancel x c o h = c
patch_kind P (at_node node) x c o h = h
patch_kind P (store_variables vs) x c o h = h
patch_kind P (wait_for_input node) x c o h = h
patch_kind P (wait_until node time) x c o h = h
patch_kind P (take_over time) x c o h = o tt

module _ (P : SessionStatus → Type 0) (id : ℕ) (cancels : P cancelled) where
  abbrev Allowed : Patch → Type 0
  Allowed patch = IsTakeover patch → P completed

  status-Stable : Stable (λ s e f. HasStatus P id s) Allowed
  status-Stable = record {
    called = λ s e f h. h;
    patched = λ session patch s e f may h.
        update_where-HasStatus P id (λ x. x.id == session) (apply_patch patch) s
          (record {
            same_id = apply_patch-id patch;
            same_kind = λ x hit k. patch_kind P patch x cancels may k;
          })
          h;
    messaged = λ event s e f m h. h;
  }

  -- Only an active session completes.
  status-Lasting : (P active → P completed) → Lasting (λ s e f. HasStatus P id s)
  status-Lasting completes = record {
    ending = record {
      ended = λ event s e f same h. h;
      completed = λ session s e f h.
          update_where-HasStatus P id (is_open session) complete s
            (record {
              same_id = λ x. refl;
              same_kind = λ x hit k. completes (subst P (open_active session x hit) k);
            })
            h;
    };
    logged = λ event s e f h. h;
  }

-- For every run of `executeFlow`, whatever the flows are and the calls answer, also if it throws: a
-- session that is not active, since it was completed, cancelled or expired, is not active after the
-- run.
pub execute_flow-over :
    (o : Outside) (t : Tables) (fuel : ℕ) (c : Context) (w : World) (id : ℕ)
    → HasStatus (λ s. s ≢ active) id w.sessions
    → HasStatus (λ s. s ≢ active) id (execute_flow o t fuel c w).0.sessions
execute_flow-over o t fuel c w id =
    execute_flow-Keeps o t (λ s e f. HasStatus (λ x. x ≢ active) id s)
      (status-Stable (λ x. x ≢ active) id (λ e. cc))
      (status-Lasting (λ x. x ≢ active) id (λ e. cc) (λ h e. cc)) (λ patch usual takeover e. cc)
      (λ id. Unit {0}) (λ d s e f started. new_session-HasStatus (λ x. x ≢ active) id d s)
      c.workspace_id (λ d f here listed e. tt)
      (All-MayTakeOver (Allowed (λ x. x ≢ active) id (λ e. cc)) (λ patch takeover e. cc) t.flows)
      fuel c refl w

execute_flow-cancelled :
    (o : Outside) (t : Tables) (fuel : ℕ) (c : Context) (w : World) (id : ℕ)
    → All (λ f. All (λ n. n.content ≢ human_takeover) f.nodes) t.flows
    → HasStatus (λ s. s ≡ cancelled) id w.sessions
    → HasStatus (λ s. s ≡ cancelled) id (execute_flow o t fuel c w).0.sessions
execute_flow-cancelled o t fuel c w id none_over =
    execute_flow-Keeps o t (λ s e f. HasStatus (λ x. x ≡ cancelled) id s)
      (status-Stable (λ x. x ≡ cancelled) id refl)
      (status-Lasting (λ x. x ≡ cancelled) id refl (λ h. cc))
      (λ patch usual takeover. absurd (usual takeover)) (λ id. Unit {0})
      (λ d s e f started. new_session-HasStatus (λ x. x ≡ cancelled) id d s) c.workspace_id
      (λ d f here listed e. tt)
      (All-implies
        (λ f.
          All-implies
            (λ n other.
              may_take_over (Allowed (λ x. x ≡ cancelled) id refl) n.content
                (λ over. absurd (other over)))
            f.nodes)
        t.flows none_over)
      fuel c refl w

-- A session that is cancelled while a traversal of it runs: whichever node is next and however many
-- are left of the depth, the rest of the traversal, with the completion at its end and the flows that
-- its nodes go to, leaves the session cancelled, as long as neither these nodes nor the flows have a
-- human takeover, whatever the calls answer and also if one throws.
pub traverse_nodes-cancelled :
    (o : Outside) (t : Tables) (fuel left session : ℕ) (node : FlowNode) (nodes : List FlowNode)
    (edges : List FlowEdge) (c : Context) (w : World)
    → node.content ≢ human_takeover
    → All (λ n. n.content ≢ human_takeover) nodes
    → All (λ f. All (λ n. n.content ≢ human_takeover) f.nodes) t.flows
    → HasStatus (λ s. s ≡ cancelled) session w.sessions
    → HasStatus
        (λ s. s ≡ cancelled)
        session
        (traverse_nodes o t
          (λ d. execute_flow o t fuel d)
          left
          session
          node
          nodes
          edges
          c
          w).0.sessions
traverse_nodes-cancelled o t fuel left session node nodes edges c w here all_nodes none_over =
    traverse_nodes-Keeps o t (λ s e f. HasStatus (λ x. x ≡ cancelled) session s)
      (status-Stable (λ x. x ≡ cancelled) session refl)
      (status-Lasting (λ x. x ≡ cancelled) session refl (λ h. cc))
      (λ patch usual takeover. absurd (usual takeover)) c.workspace_id
      (λ d. execute_flow o t fuel d) left session node nodes edges c refl (fine node here)
      (All-implies fine nodes all_nodes) w
  where
    fine :
        (n : FlowNode)
        → n.content ≢ human_takeover
        → IsFine
            (λ s e f. HasStatus (λ x. x ≡ cancelled) session s)
            (Allowed (λ x. x ≡ cancelled) session refl)
            c.workspace_id
            (λ d. execute_flow o t fuel d)
            n.content
    fine n other =
        IsFine-node (λ s e f. HasStatus (λ x. x ≡ cancelled) session s)
          (Allowed (λ x. x ≡ cancelled) session refl) c.workspace_id (λ d. execute_flow o t fuel d)
          (λ d at_home v h. execute_flow-cancelled o t fuel d v session none_over h) n.content
          (may_take_over (Allowed (λ x. x ≡ cancelled) session refl) n.content
            (λ over. absurd (other over)))
