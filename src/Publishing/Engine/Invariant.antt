-- ===== src/Publishing/Engine/Invariant.antt =====
-- `runApiPublish` keeps the invariant of the receipts, for a provider whose submissions are not
-- idempotent and a task that nobody has resolved.
use zernflow.Base.{
  ℕ, ◌+◌, ◌-◌, ◌<◌, ◌≡◌, ◌≢◌, refl, ◌⊎◌, inl, inr, true, false, not, max, Option, none, some, List,
  [], ◌∷◌, arith, ltb, leb, is_some, Bool-cases, ◌&&◌, ◌||◌,
}
use zernflow.Base.Json.{Text}
use zernflow.Publishing.State.{PublishState}
use zernflow.Publishing.Contract.{PublishOutcome, Reply}
use zernflow.Publishing.Contract.Laws.{IsNamed, settle-IsNamed}
use zernflow.Publishing.Engine.Store.{
  Receipt, ReceiptStatus, ◌>>=◌, nonempty, move_to, latest_receipt,
}
use zernflow.Publishing.Engine.Apply.{Task}
use zernflow.Publishing.Engine.Run.{
  Provider, record_execution, status_outcome, poll_operation, resume, mark_unknown, call_submit,
  attempt_patch, prior_attempt, refuse, submit_post, submit_or_refuse, poll_or_submit, dispatch_on,
  dispatch, run_api_publish, is_ambiguous, max_polls, max_accepted_age_ms,
}
use zernflow.Publishing.Engine.Triples.{
  IsFailed, IsReferenced, inv, ready, fresh, Triple, bind, quiet, move_to-Quiet, database-Triple,
}
use zernflow.Publishing.Engine.Receipts.{update_receipt-inv, latest-All}
use zernflow.Publishing.Engine.Steps.{
  seq, move_to-inv, choose, require, apply_outcome-inv, insert_receipt-fresh, settled-vacant,
}

module _ (redact_string : Text → Text) (provider : Provider) (task : Task)
    (once : provider.idempotent_submit ≡ false) (open' : task.resolved ≡ false) where
  status_outcome-IsNamed :
      (ref : Text) (o : PublishOutcome) → ref ≢ [] → IsNamed o → IsNamed (status_outcome ref o)
  unfolding status_outcome
  status_outcome-IsNamed ref o h k = ground arith

  poll_operation-inv :
      (status : Text → Reply) (prior : Receipt) (ref : Text)
      → ref ≢ []
      → Triple inv
          (poll_operation redact_string provider task status prior ref)
          (λ o rs ss. inv rs ss × IsNamed o)
  unfolding poll_operation ◌>>=◌ record_execution
  poll_operation-inv status prior ref named w h =
      elim (Bool-cases
        (ltb max_accepted_age_ms (w.now - prior.created_at) || leb max_polls prior.poll_count)) [
          | inl old ↦ rw old (h, tt)
          | inr young ↦ rw young (
            h,
            status_outcome-IsNamed ref _ named (settle-IsNamed redact_string (status ref) true),
          )
        ]

  resume-inv :
      (status : Text → Reply) (prior : Receipt) (ref : Text)
      → ref ≢ []
      → Triple inv (resume redact_string provider task status prior ref) (λ _. inv)
  unfolding resume
  resume-inv status prior ref named =
      require IsNamed _ _ (poll_operation-inv status prior ref named)
        (λ o n. seq _ _ (update_receipt-inv _ _ (λ r k. k)) (λ _. apply_outcome-inv task _ _ o n))

  mark_unknown-inv :
      (prior : Option Receipt)
      → Triple inv (mark_unknown redact_string provider task prior) (λ _. inv)
  unfolding mark_unknown
  mark_unknown-inv none = λ w h. h
  mark_unknown-inv (some prior) = update_receipt-inv _ _ (λ r k. k)

  refuse-inv :
      (prior : Option Receipt) → Triple inv (refuse redact_string provider task prior) (λ _. inv)
  unfolding refuse
  refuse-inv prior = seq _ _ (mark_unknown-inv _) (λ _. seq _ _ (move_to-inv _ _) (λ _ w h. h))

  call_submit-inv :
      (n : ℕ)
      → Triple fresh (call_submit redact_string provider task n) (λ o rs ss. inv rs ss × IsNamed o)
  unfolding call_submit ◌>>=◌ record_execution
  call_submit-inv n w h = (h, settle-IsNamed redact_string (provider.submit n) _)

  submit_post-inv :
      (attempt_count : ℕ) (prior : Option Receipt)
      → (prior ≡ none) ⊎ ((r : Receipt) × (prior ≡ some r) × IsFailed r)
      → Triple
          (ready prior)
          (submit_post redact_string provider task attempt_count prior)
          (λ _. inv)
  unfolding submit_post
  submit_post-inv attempt_count prior settled =
      let n = max task.attempts (prior_attempt prior + 1) in
      let start = move_to PublishState.publishing (attempt_patch (attempt_count + 1)) in
      bind (ready prior) (λ _. ready prior) (λ _. inv) start _
        (quiet (ready prior) start (λ rs ss k. k.0) (move_to-Quiet _ _))
        (λ _.
          bind (ready prior) (λ _. fresh) (λ _. inv) _ _
            (λ w h.
              insert_receipt-fresh n w
                (settled-vacant n w.receipts w.submits prior h (newer settled)))
            (λ receipt.
              bind fresh (λ o rs ss. inv rs ss × IsNamed o) (λ _. inv) _ _
                (call_submit-inv receipt.attempt)
                (λ o w h. apply_outcome-inv task prior receipt o h.1 w h.0)))
    where
      newer :
          (prior ≡ none) ⊎ ((r : Receipt) × (prior ≡ some r) × IsFailed r)
          → (prior ≡ none)
            ⊎ ((r : Receipt) × (prior ≡ some r)
                × IsFailed r
                × (r.attempt < max task.attempts (prior_attempt prior + 1)))
      newer (inl e) = inl e
      newer (inr (r, e, failed')) = inr (r, e, failed', rw e (omega arith))

  -- A submission follows a receipt that is a definite failure, or none.
  submit_or_refuse-inv :
      (state : PublishState) (attempt_count : ℕ) (prior : Option Receipt)
      → (is_ambiguous redact_string provider task state prior ≡ true)
        ⊎ ((prior ≡ none) ⊎ ((r : Receipt) × (prior ≡ some r) × IsFailed r))
      → Triple
          (ready prior)
          (submit_or_refuse redact_string provider task state attempt_count prior)
          (λ _. inv)
  unfolding submit_or_refuse
  submit_or_refuse-inv state attempt_count prior (inl ambiguous) w h =
      let both : (is_ambiguous redact_string provider task state prior
            && not provider.idempotent_submit)
          ≡ true =
        ground arith in
      rw both (refuse-inv prior w h.0)
  submit_or_refuse-inv state attempt_count prior (inr settled) w h =
      elim (Bool-cases
        (is_ambiguous redact_string provider task state prior && not provider.idempotent_submit)) [
          | inl both ↦ rw both (refuse-inv prior w h.0)
          | inr clear ↦ rw clear (submit_post-inv attempt_count prior settled w h)
        ]

  ready-IsReferenced :
      (prior : Receipt) (rs : List Receipt) (ss : List ℕ)
      → ready (some prior) rs ss
      → IsReferenced prior
  ready-IsReferenced prior rs ss h = latest-All IsReferenced rs prior h.0.1 h.1

  ambiguous_or_failed :
      (state : PublishState) (attempt_count : ℕ) (prior : Receipt)
      → (is_ambiguous redact_string provider task state (some prior) ≡ true) ⊎ IsFailed prior
      → Triple
          (ready (some prior))
          (submit_or_refuse redact_string provider task state attempt_count (some prior))
          (λ _. inv)
  ambiguous_or_failed state attempt_count prior (inl e) =
      submit_or_refuse-inv state attempt_count (some prior) (inl e)
  ambiguous_or_failed state attempt_count prior (inr e) =
      submit_or_refuse-inv state attempt_count (some prior) (inr (inr (prior, refl, e)))

  nonempty-named : (o : Option Text) (ref : Text) → nonempty o ≡ some ref → ref ≢ []
  nonempty-named none ref e = λ f. cc
  nonempty-named (some []) ref e = λ f. cc
  nonempty-named (some (c ∷ cs)) ref e = λ f. ground arith

  has_reference-nonempty : (o : Option Text) → o ≢ some [] → is_some o ≡ true → nonempty o ≢ none
  has_reference-nonempty none h e = absurd (ground arith)
  has_reference-nonempty (some []) h e = absurd (h refl)
  has_reference-nonempty (some (c ∷ cs)) h e = λ f. cc

  poll_or_submit-inv :
      (state : PublishState) (attempt_count : ℕ) (prior : Receipt) (ref : Option Text)
      (status : Option (Text → Reply))
      → prior.status ≡ ReceiptStatus.accepted
      → nonempty prior.operation_ref ≡ ref
      → provider.status ≡ status
      → Triple
          (ready (some prior))
          (poll_or_submit redact_string provider task state attempt_count prior ref status)
          (λ _. inv)
  unfolding poll_or_submit is_ambiguous
  poll_or_submit-inv state attempt_count prior (some ref) (some status) e f g =
      λ w h. resume-inv status prior ref (nonempty-named _ ref f) w h.0
  poll_or_submit-inv state attempt_count prior (some ref) none e f g =
      ambiguous_or_failed state attempt_count prior (inl (rw (e, g) refl))
  poll_or_submit-inv state attempt_count prior none status e f g = λ w h.
      let named = ready-IsReferenced prior _ _ h in
      let given : is_some prior.operation_ref ≡ true = (let k = named.1 in ground arith) in
      absurd (has_reference-nonempty prior.operation_ref named.0 given f)

  dispatch_on-inv :
      (state : PublishState) (attempt_count : ℕ) (prior : Receipt) (s : ReceiptStatus)
      → prior.status ≡ s
      → Triple
          (ready (some prior))
          (dispatch_on redact_string provider task state attempt_count prior s)
          (λ _. inv)
  unfolding dispatch_on is_ambiguous
  dispatch_on-inv state attempt_count prior ReceiptStatus.published e =
      λ w h. seq _ _ (move_to-inv _ _) (λ _ w' k. k) w h.0
  dispatch_on-inv state attempt_count prior ReceiptStatus.partial e =
      λ w h. seq _ _ (move_to-inv _ _) (λ _ w' k. k) w h.0
  dispatch_on-inv state attempt_count prior ReceiptStatus.accepted e =
      poll_or_submit-inv state attempt_count prior _ _ e refl refl
  dispatch_on-inv state attempt_count prior ReceiptStatus.failed e =
      ambiguous_or_failed state attempt_count prior (inr e)
  dispatch_on-inv state attempt_count prior ReceiptStatus.submitting e =
      ambiguous_or_failed state attempt_count prior (inl (rw e refl))
  dispatch_on-inv state attempt_count prior ReceiptStatus.unknown e =
      ambiguous_or_failed state attempt_count prior (inl (rw (e, open') refl))

  dispatch-inv :
      (state : PublishState) (attempt_count : ℕ) (prior : Option Receipt)
      → Triple
          (ready prior)
          (dispatch redact_string provider task state attempt_count prior)
          (λ _. inv)
  unfolding dispatch
  dispatch-inv state attempt_count none =
      submit_or_refuse-inv state attempt_count none (inr (inl refl))
  dispatch-inv state attempt_count (some prior) =
      dispatch_on-inv state attempt_count prior prior.status refl

  latest_receipt-ready : Triple inv latest_receipt (λ prior. ready prior)
  unfolding latest_receipt
  latest_receipt-ready =
      bind inv (λ _. inv) (λ prior. ready prior) _ _
        (database-Triple inv inv _ (λ rs ss h. h)
          (λ w w' h e. let same : w ≡ w' = ground arith in rw (← same) h))
        (λ _ w h. (h, refl))

  pub run_api_publish-inv : Triple inv (run_api_publish redact_string provider task) (λ _. inv)
  unfolding run_api_publish
  run_api_publish-inv =
      seq _ _ (λ w h. h)
        (λ state.
          seq _ _ (λ w h. h)
            (λ attempt_count.
              seq _ _ (λ w h. h)
                (λ _.
                  seq _ _
                    (choose _ _ provider.available (λ w h. h)
                      (seq _ _ (move_to-inv _ _) (λ _ w h. h)))
                    (λ _.
                      bind inv (λ prior. ready prior) (λ _. inv) _ _ latest_receipt-ready
                        (λ prior. dispatch-inv state attempt_count prior)))))
