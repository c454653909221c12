-- ===== src/FlowEngine/Engine/Settle/Traversal.antt =====
-- Settled sessions through a node with its persistence, and through a traversal.
use zernflow.Base.{
  ℕ, zero, suc, ◌≡◌, ◌≢◌, refl, Option, none, some, List, [], ◌∷◌, ◌==◌, All, Bool-cases, inl, inr,
}
use zernflow.Base.Json.{Json}
use zernflow.Base.Result.{Result, ok, err}
use zernflow.FlowEngine.Types.{
  NodeData, trigger, send_message, condition, delay, add_tag, remove_tag, set_custom_field,
  http_request, go_to_flow, subscription, human_takeover, comment_reply, private_reply, ab_split,
  smart_delay, ai_response, enroll_sequence, other_node, FlowNode, FlowEdge, Context,
}
use zernflow.FlowEngine.Engine.Store.{
  Tables, Session, World, FlowError, M, ◌>>=◌, ◌>>◌, return, at_node, store_variables,
  update_session, update_where, apply_patch, track,
}
use zernflow.FlowEngine.Engine.Outside.{Outside}
use zernflow.FlowEngine.Engine.Nodes.{NodeResult, pause, go_on, handle}
use zernflow.FlowEngine.Engine.Rows.{variables_of}
use zernflow.FlowEngine.Engine.Run.{
  keep, execute_data, execute_node, persist, follow, next_node, chosen_handle, traverse_nodes,
  max_traversal_depth,
}
use zernflow.FlowEngine.Engine.Keeps.{
  Keeps, Returns, update_session-Keeps, write-Keeps, then-Keeps, return-Keeps,
}
use zernflow.FlowEngine.Engine.Handlers.{
  execute_condition-Keeps, execute_tag-Keeps, execute_set_field-Keeps, execute_http_request-Keeps,
  execute_subscription-Keeps, execute_ab_split-Keeps, execute_enroll_sequence-Keeps,
}
use zernflow.FlowEngine.Engine.Handlers.Sending.{
  execute_send_message-Keeps, execute_comment_reply-Keeps, execute_private_reply-Keeps,
}
use zernflow.FlowEngine.Engine.Runs.Traversal.{next_node-All}
use zernflow.FlowEngine.Engine.Walk.{StaysHere}
use zernflow.FlowEngine.Engine.Triples.{Post, Triple, bind, keeps, returns, clean, anything}
use zernflow.FlowEngine.Engine.Settle.{
  Settled, settled, paused, going, clean-Stable, complete_session-settled,
}
use zernflow.FlowEngine.Engine.Settle.Nodes.{
  execute_condition-GoesOn, execute_tag-GoesOn, execute_set_field-GoesOn,
  execute_subscription-GoesOn, execute_ab_split-GoesOn, execute_enroll_sequence-GoesOn,
  execute_comment_reply-GoesOn, execute_private_reply-GoesOn,
}
use zernflow.FlowEngine.Engine.Settle.Pausing.{
  itself, of_both, Pauses, first, goes_on, execute_delay-paused, execute_human_takeover-paused,
  smart_delay-paused, execute_ai_response-paused,
}

module _ (o : Outside) (t : Tables) (session : ℕ) where
  kept :
      (m : M NodeResult) (c : Context)
      → Triple clean m (paused session) anything
      → Pauses o t session (m >>= keep o t c)
  kept m c h =
      bind anything clean (paused session) (λ r. paused session (of_both o t session r)) m
        (keep o t c) h
        (λ r.
          returns anything (paused session r) (λ b. paused session (of_both o t session b)) (r, c)
            (λ s e f k. k))

  going_on :
      (m : M NodeResult) (c : Context)
      → Keeps clean m
      → Returns (λ r. r ≢ pause) m
      → Pauses o t session (m >>= keep o t c)
  going_on m c h k = kept m c (going session (itself o t session) m h k)

  execute_data-paused :
      (run : Context → M (Unit {0})) (content : NodeData) (node : ℕ) (c : Context)
      → StaysHere content
      → Pauses o t session (execute_data o t run content node c session)
  unfolding execute_data
  execute_data-paused run trigger node c stays = goes_on o t session c go_on (λ e. cc)
  execute_data-paused run (send_message ms) node c stays =
      first o t session (of_both o t session) _ _
        (execute_send_message-Keeps o t clean clean-Stable ms c session node)
        (λ d. goes_on o t session d go_on (λ e. cc))
  execute_data-paused run (condition logic cs) node c stays =
      going_on _ c (execute_condition-Keeps o t clean clean-Stable logic cs c)
        (execute_condition-GoesOn o t logic cs c)
  execute_data-paused run (delay duration unit) node c stays =
      kept _ c (execute_delay-paused o t session duration unit node c)
  execute_data-paused run (add_tag add name) node c stays =
      going_on _ c (execute_tag-Keeps o t clean clean-Stable add name c)
        (execute_tag-GoesOn o t add name c)
  execute_data-paused run (remove_tag add name) node c stays =
      going_on _ c (execute_tag-Keeps o t clean clean-Stable add name c)
        (execute_tag-GoesOn o t add name c)
  execute_data-paused run (set_custom_field slug value) node c stays =
      going_on _ c (execute_set_field-Keeps o t clean clean-Stable slug value c)
        (execute_set_field-GoesOn o t slug value c)
  execute_data-paused run (http_request r) node c stays =
      first o t session (of_both o t session) _ _
        (execute_http_request-Keeps o t clean clean-Stable r c)
        (λ d. goes_on o t session d go_on (λ e. cc))
  execute_data-paused run (go_to_flow flow) node c stays = absurd stays
  execute_data-paused run (subscription b) node c stays =
      going_on _ c (execute_subscription-Keeps o t clean clean-Stable b c)
        (execute_subscription-GoesOn o t b c)
  execute_data-paused run human_takeover node c stays =
      kept _ c (execute_human_takeover-paused o t session c)
  execute_data-paused run (comment_reply text) node c stays =
      going_on _ c (execute_comment_reply-Keeps o t clean clean-Stable text c session node)
        (execute_comment_reply-GoesOn o t text c session node)
  execute_data-paused run (private_reply text image) node c stays =
      going_on _ c (execute_private_reply-Keeps o t clean clean-Stable text image c session node)
        (execute_private_reply-GoesOn o t text image c session node)
  execute_data-paused run (ab_split paths) node c stays =
      going_on _ c (execute_ab_split-Keeps o t clean clean-Stable paths)
        (execute_ab_split-GoesOn o t paths)
  execute_data-paused run smart_delay node c stays = smart_delay-paused o t session node c
  execute_data-paused run (ai_response r) node c stays =
      execute_ai_response-paused o t session r c node
  execute_data-paused run (enroll_sequence sequence) node c stays =
      going_on _ c (execute_enroll_sequence-Keeps o t clean clean-Stable sequence c)
        (execute_enroll_sequence-GoesOn o t sequence c)
  execute_data-paused run other_node node c stays = goes_on o t session c go_on (λ e. cc)

  -- The variables are no part of it.
  variables-Settled :
      (vs : List (List ℕ × Json)) (ss : List Session)
      → Settled session ss
      → Settled session (update_where (λ x. x.id == session) (apply_patch (store_variables vs)) ss)
  unfolding update_where apply_patch
  variables-Settled vs [] h = tt
  variables-Settled vs (x ∷ ss) h = elim (Bool-cases (x.id == session)) [
    | inl hit ↦ rw hit (h.0, variables-Settled vs ss h.1)
    | inr miss ↦ rw miss (h.0, variables-Settled vs ss h.1)
  ]

  store-Keeps :
      (r : NodeResult) (c : Context)
      → Keeps
          (paused session r)
          (update_session session (store_variables (variables_of c)) >> return tt)
  unfolding update_session
  store-Keeps r c =
      then-Keeps (paused session r) _ _
        (write-Keeps (paused session r) _ (λ s e f h. (rw h.0 refl, h.1))
          (λ w h. (h.0, λ e. variables-Settled (variables_of c) w.sessions (h.1 e))))
        (return-Keeps (paused session r) tt)

  persist-Keeps :
      (content : NodeData) (r : NodeResult) (c : Context)
      → Keeps (paused session r) (persist o t content session c)
  persist-Keeps trigger r c = return-Keeps (paused session r) tt
  persist-Keeps (send_message ms) r c = return-Keeps (paused session r) tt
  persist-Keeps (condition logic cs) r c = return-Keeps (paused session r) tt
  persist-Keeps (delay duration unit) r c = return-Keeps (paused session r) tt
  persist-Keeps (add_tag add name) r c = return-Keeps (paused session r) tt
  persist-Keeps (remove_tag add name) r c = return-Keeps (paused session r) tt
  persist-Keeps (set_custom_field slug value) r c = return-Keeps (paused session r) tt
  persist-Keeps (http_request q) r c = store-Keeps r c
  persist-Keeps (go_to_flow flow) r c = return-Keeps (paused session r) tt
  persist-Keeps (subscription b) r c = return-Keeps (paused session r) tt
  persist-Keeps human_takeover r c = return-Keeps (paused session r) tt
  persist-Keeps (comment_reply text) r c = return-Keeps (paused session r) tt
  persist-Keeps (private_reply text image) r c = return-Keeps (paused session r) tt
  persist-Keeps (ab_split paths) r c = return-Keeps (paused session r) tt
  persist-Keeps smart_delay r c = return-Keeps (paused session r) tt
  persist-Keeps (ai_response q) r c = store-Keeps r c
  persist-Keeps (enroll_sequence sequence) r c = return-Keeps (paused session r) tt
  persist-Keeps other_node r c = return-Keeps (paused session r) tt

  follow-settled :
      (r : NodeResult) (next : Option FlowNode) (go : FlowNode → M (Unit {0}))
      → ((n : FlowNode) → next ≡ some n → Triple clean (go n) (λ done. settled session) anything)
      → Triple (paused session r) (follow o t r session next go) (λ done. settled session) anything
  follow-settled pause next go step =
      returns anything (paused session pause) (λ done. settled session) tt
        (λ s e f h. (h.0, h.1 refl))
  follow-settled go_on none go step = λ w h. complete_session-settled o t session w h.0
  follow-settled go_on (some n) go step = λ w h. step n refl w h.0
  follow-settled (handle k) none go step = λ w h. complete_session-settled o t session w h.0
  follow-settled (handle k) (some n) go step = λ w h. step n refl w h.0

  settles :
      (run : Context → M (Unit {0})) (left : ℕ) (node : FlowNode) (nodes : List FlowNode)
      (edges : List FlowEdge) (c : Context)
      → StaysHere node.content
      → All (λ n. StaysHere n.content) nodes
      → Triple clean
          (traverse_nodes o t run left session node nodes edges c)
          (λ done. settled session)
          anything
  unfolding traverse_nodes execute_node track
  settles run zero node nodes edges c stays all_stay = complete_session-settled o t session
  settles run (suc left) node nodes edges c stays all_stay =
      bind anything clean (λ done. clean) (λ done. settled session) _ _
        (keeps anything clean (update_session session (at_node node.id)) (λ s e f h. tt)
          (update_session-Keeps clean clean-Stable session _ tt))
        (λ updated.
          bind anything clean (λ done. clean) (λ done. settled session) _ _
            (keeps anything clean (track _) (λ s e f h. tt)
              (write-Keeps clean _ clean-Stable.called (λ w h. h)))
            (λ tracked.
              bind anything clean (λ r. paused session r.0) (λ done. settled session) _ _
                (execute_data-paused run node.content node.id c stays)
                (λ r.
                  bind anything (paused session r.0) (λ done. paused session r.0)
                    (λ done. settled session) _ _
                    (keeps anything (paused session r.0) (persist o t node.content session r.1)
                      (λ s e f h. tt) (persist-Keeps node.content r.0 r.1))
                    (λ stored.
                      follow-settled r.0 (next_node node (chosen_handle r.0) nodes edges)
                        (λ n. traverse_nodes o t run left session n nodes edges r.1)
                        (λ n e.
                          settles run left n nodes edges r.1
                            (next_node-All (λ m. StaysHere m.content) node (chosen_handle r.0) nodes
                              edges e all_stay)
                            all_stay)))))

-- Where no call of the database fails and no node of the flow goes to another flow: a traversal that
-- ends without an error has settled its session, which is no longer active, or waits for a message
-- or for a time.
pub traverse_nodes-Settled :
    (o : Outside) (t : Tables) (run : Context → M (Unit {0})) (session : ℕ) (node : FlowNode)
    (nodes : List FlowNode) (edges : List FlowEdge) (c : Context) (w : World)
    → StaysHere node.content
    → All (λ n. StaysHere n.content) nodes
    → w.faults ≡ []
    → (traverse_nodes o t run max_traversal_depth session node nodes edges c w).1 ≡ ok tt
    → Settled session
        (traverse_nodes o t run max_traversal_depth session node nodes edges c w).0.sessions
traverse_nodes-Settled o t run session node nodes edges c w stays all_stay works ended =
    outcome (traverse_nodes o t run max_traversal_depth session node nodes edges c w) ended
      (settles o t session run max_traversal_depth node nodes edges c stays all_stay w works)
  where
    outcome :
        (p : World × Result FlowError (Unit {0}))
        → p.1 ≡ ok tt
        → Post {A = Unit {0}} (λ done. settled session) anything p
        → Settled session p.0.sessions
    outcome (v, ok done) e h = h.1
    outcome (v, err problem) e h = cc
