-- ===== src/InferService/Submission.antt =====
-- A submission from end to end: `InferService::submitInferenceRequest` over `Scheduler::submitTask`
-- and the repository of operations.
use gip.Prelude.{
  ℕ, String, ◌≡◌, refl, ◌∙◌, ◌⊎◌, inl, inr, Bool, true, false, none, some, ◌==◌, string_eq,
  Bool-cases, Option-cases, beq_of_ne, beq_of_eq, eq_of_beq, subst,
}
use gip.Prelude.Dict.{lookup-insert, lookup-insert_self}
use gip.Models.{RequestInfo, Task, enabled, model_state_eq, request_id}
use gip.Json.{JsonLibrary, got}
use gip.Operations.{get_operation, update_operation}
use gip.ModelManager.{resolve_model}
use gip.Scheduler.State.{Scheduler}
use gip.Scheduler.Admission.{admit, submit_task}
use gip.Scheduler.Admission.Acceptance.{Admitted, Refused, ResultOf, is_welcome, admit-Result}
use gip.InferService.{
  Answer, accepted, not_found, bad_request, service_unavailable, generate_operation_id, submitted,
  after_submit, submit_inference_request, dumped_operation,
}
use gip.InferService.Preparation.{
  refused, task_for, operation_in, KeepsOthers, WritesOwn, admit-WritesOwn, prepared,
  prepared-operations, prepared-Admitted, prepared-is_welcome, others_of,
}

module _ {J O : Type 0} (json : JsonLibrary J O) {B : Type 0} where
  -- The task is admitted, its operation is pending, and the answer shows that operation.
  pub record IsAccepted (now : ℕ) (id : String) (t : Task) (s : Scheduler B)
      (r : Scheduler B × Answer) : Type 0 where
    pub welcome : is_welcome now t s ≡ true
    pub answer : r.1 ≡ dumped_operation json accepted (submitted id)
    pub operation : operation_in id r.0 ≡ some (submitted id)
    pub others : KeepsOthers id s r.0
    pub admitted : Admitted t s r.0

  -- The scheduler is as it was, but for the operation, which has failed.
  pub record IsTurnedAway (now : ℕ) (id : String) (t : Task) (s : Scheduler B)
      (r : Scheduler B × Answer) : Type 0 where
    pub unwelcome : is_welcome now t s ≡ false
    pub answer : r.1 ≡ got (service_unavailable, "Failed to submit inference request")
    pub operation : operation_in id r.0 ≡ some (refused id)
    pub others : KeepsOthers id s r.0
    pub unchanged : Refused s r.0

  abbrev pub SubmitResult :
      String → ℕ → ℕ → ℕ → RequestInfo → Scheduler B → Scheduler B × Answer → Type 0
  SubmitResult ticks address built now request_info s r =
      let id = generate_operation_id ticks in
      let t = task_for id address built request_info in
      let meta = resolve_model request_info.model_name s.model_manager in
      ((meta.conf ≡ none) × (r ≡ (s, got (not_found, "Model not found"))))
      ⊎ (((meta.state == enabled) ≡ false) × (r ≡ (s, got (bad_request, "Model is not enabled"))))
      ⊎ ((meta.state ≡ enabled) × IsAccepted now id t s r)
      ⊎ ((meta.state ≡ enabled) × IsTurnedAway now id t s r)

  after_submit-cases :
      (now : ℕ) (id : String) (t : Task) (s : Scheduler B) (q : Scheduler B × Bool)
      → request_id t ≡ id
      → ResultOf (is_welcome now t s) t (prepared id t s) q
      → WritesOwn t (prepared id t s) q
      → IsAccepted now id t s (after_submit json (submitted id) q)
        ⊎ IsTurnedAway now id t s (after_submit json (submitted id) q)
  unfolding after_submit update_operation get_operation
  after_submit-cases now id t s (s', true) same (inl (w, joined, kept, a)) (inl e) = inl (record {
    welcome = w;
    answer = refl;
    operation = rw e (prepared-operations id id t s ∙ rw (beq_of_eq id id refl) refl);
    others = others_of id t s (s', true) same (inl e);
    admitted = prepared-Admitted id t s s' a;
  })
  after_submit-cases now id t s (s', true) same (inl (w, joined, kept, a)) (inr (declined, h)) = cc
  after_submit-cases now id t s (s', true) same (inr (w, declined, reports, a)) h = cc
  after_submit-cases now id t s (s', false) same (inl (w, joined, kept, a)) h = cc
  after_submit-cases now id t s (s', false) same (inr (w, declined, reports, a)) own = inr (record {
    unwelcome = w;
    answer = refl;
    operation = lookup-insert_self id (refused id) s'.op_repository;
    others = λ j h.
        lookup-insert id j (refused id) s'.op_repository
        ∙ rw (beq_of_ne id j h) (others_of id t s (s', false) same own j h);
    unchanged = record { waits = a.waits; jobs = a.jobs; tracked = a.tracked; counted = a.counted };
  })

  submitted-cases :
      (ticks : String) (address built now : ℕ) (request_info : RequestInfo) (s : Scheduler B)
      → let id = generate_operation_id ticks in
        let t = task_for id address built request_info in
        let q = admit now (some t) (prepared id t s) in
        IsAccepted now id t s (after_submit json (submitted id) q)
        ⊎ IsTurnedAway now id t s (after_submit json (submitted id) q)
  submitted-cases ticks address built now request_info s =
      let id = generate_operation_id ticks in
      let t = task_for id address built request_info in
      after_submit-cases now id t s (admit now (some t) (prepared id t s)) refl
        (subst (λ b. ResultOf b t (prepared id t s) (admit now (some t) (prepared id t s)))
          (prepared-is_welcome now id t s) (admit-Result now t (prepared id t s)))
        (admit-WritesOwn now t (prepared id t s))

  -- A submission ends in one of four ways. The model is not known, or it is not enabled: the
  -- answer is `not_found`, or `bad_request`, and nothing changes. The model is enabled and the
  -- scheduler welcomes the task: the answer is `accepted` with the new operation, which is
  -- pending, the task waits, is tracked under the id of the operation and is counted (which raises
  -- `current_inflight` of its model, though it only waits), and no other operation, tracked task
  -- or counter changes. Or the model is enabled and the scheduler does not welcome it: the answer
  -- is `service_unavailable`, the operation is stored as failed with the message of the service,
  -- and no other operation, no queue, no tracked task and no counter changes.
  pub submit_inference_request-Result :
      (ticks : String) (address built now : ℕ) (request_info : RequestInfo) (s : Scheduler B)
      → SubmitResult ticks address built now request_info s
          (submit_inference_request json ticks address built now request_info s)
  unfolding submit_inference_request submit_task
  submit_inference_request-Result ticks address built now request_info s =
      let meta = resolve_model request_info.model_name s.model_manager in
      elim (Option-cases meta.conf) [
        | inl e ↦ rw (e, submit_inference_request) (inl (refl, refl))
        | inr (conf, e) ↦ elim (Bool-cases (meta.state == enabled)) [
          | inr off ↦ rw (e, submit_inference_request) (simp off (inr (inl (refl, refl))))
          | inl on ↦
              let is_on : meta.state ≡ enabled = eq_of_beq meta.state enabled on in
              rw (e, submit_inference_request)
                (simp on (elim (submitted-cases ticks address built now request_info s) [
                  | inl welcome ↦ inr (inr (inl (is_on, welcome)))
                  | inr unwelcome ↦ inr (inr (inr (is_on, unwelcome)))
                ]))
        ]
      ]
