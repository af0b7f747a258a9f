-- ===== src/Scheduler/Execution/Completion.antt =====
-- When the execution of a unit returns without an exception.
use gip.Prelude.{
  String, ◌≡◌, refl, ap, subst, inl, inr, Bool, true, Option, none, List, [], ◌∷◌, All, ◌==◌,
  Bool-cases, Option-cases, eq_of_beq, string_eq,
}
use gip.Prelude.Dict.{lookup}
use gip.Models.{
  Task, BackendType, ModelMeta, model_state_eq, enabled, RequestInfo, ResponseInfo, OperationState,
  DispatchUnit, ongoing, done, request_id, model_name,
}
use gip.Backends.{IBackend, get_backend}
use gip.ModelManager.{resolve_model}
use gip.ModelManager.Invariants.{Usable}
use gip.ModelManager.Soundness.{SoundRegistry}
use gip.Scheduler.Stats.{record_model_result}
use gip.Scheduler.State.{Scheduler, set_operation, forget_task, finalize_canceled_task, cell_of}
use gip.Scheduler.Execution.{
  report_canceled, fail_task, report_failure, report_success, after_infer, run_backend, run_model,
  execute_task, execute_tasks, execute,
}
use gip.Scheduler.Execution.Endings.{
  Ending, ends_canceled, ends_failed, ends_reported, ends_succeeded, ends_throwing, ends_null,
  ends_deadlocked, Reached, at_start, before_infer, in_infer, past_infer, execute_task-Ends,
}
use gip.Scheduler.Execution.Conclusion.{Finished, Respects}
use gip.Scheduler.Execution.Conclusion.Units.{execute-Finished}

-- `infer` reports its errors by what it returns.
abbrev pub Responds : {B : Type 0} → IBackend B → Type 0
Responds {B} i =
    (request : RequestInfo) (response : ResponseInfo) (backend : B)
    → (answer : ResponseInfo × Bool) × (i.infer request response backend ≡ done answer)

module _ {B : Type 0} where
  abbrev pub HasSoundModels : Scheduler B → Type 0
  HasSoundModels s = SoundRegistry s.model_manager.registry

  -- What the other threads do leaves the registry sound.
  abbrev pub KeepsModelsSound : (Scheduler B → Scheduler B) → Type 0
  KeepsModelsSound during = (s : Scheduler B) → HasSoundModels s → HasSoundModels (during s)

module _ {B : Type 0} ⦃i : IBackend B⦄ (during : Scheduler B → Scheduler B) (r : Responds i) where
  run_backend_returns :
      (t : Task) (type : BackendType) (s : Scheduler B)
      → (run_backend during t (done type) s).1 ≡ done tt
  unfolding run_backend after_infer
  run_backend_returns t type s = elim (Option-cases (get_backend type s.model_manager.backends)) [
    | inl e ↦ rw (e, run_backend) refl
    | inr (backend, e) ↦
        rw (e, run_backend) (rw ((r t.request (cell_of t s).response backend).1, after_infer) refl)
  ]

  run_model_returns :
      (t : Task) (meta : ModelMeta) (s : Scheduler B)
      → ((meta.state == enabled) ≡ true → Usable meta)
      → (run_model during t meta s).1 ≡ done tt
  unfolding run_model
  run_model_returns t meta s usable = elim (Bool-cases (meta.state == enabled)) [
    | inl on ↦
        let (conf, type, e, parsed) = usable on in
        rw (e, run_model) (rw on (rw parsed (run_backend_returns t type s)))
    | inr off ↦ elim (Option-cases meta.conf) [
      | inl e ↦ rw (e, run_model) refl
      | inr (conf, e) ↦ rw (e, run_model) (rw off refl)
    ]
  ]

  -- What `resolveModel` returns can be run if it says that the model is enabled.
  resolved-Usable :
      (name : String) (s : Scheduler B)
      → HasSoundModels s
      → ((resolve_model name s.model_manager).state == enabled) ≡ true
      → Usable (resolve_model name s.model_manager)
  unfolding resolve_model
  resolved-Usable name s h = elim (Option-cases (lookup name s.model_manager.registry)) [
    | inl e ↦ rw (e, resolve_model) (λ p. cc)
    | inr (meta, e) ↦
        rw (e, resolve_model)
          (λ p.
            let on : meta.state ≡ enabled = eq_of_beq meta.state enabled p in
            h name meta e (rw on refl))
  ]

  models-set_operation :
      (id : String) (st : OperationState) (p : ResponseInfo) (m : Option String) (s : Scheduler B)
      → (set_operation id st p m s).model_manager ≡ s.model_manager
  unfolding set_operation
  models-set_operation id st p m s = refl

  pub execute_task_returns :
      (t : Task) (s : Scheduler B) → HasSoundModels s → (execute_task during t s).1 ≡ done tt
  unfolding execute_task
  execute_task_returns t s h = elim (Bool-cases (cell_of t s).cancel_requested) [
    | inl flagged ↦ simp flagged
    | inr clear ↦
        let marked = set_operation (request_id t) ongoing (cell_of t s).response none s in
        let sound : HasSoundModels marked =
          rw (models-set_operation (request_id t) ongoing (cell_of t s).response none s) h in
        simp clear (run_model_returns t _ marked (resolved-Usable (model_name t) marked sound))
  ]

  Ending-sound :
      (t : Task) (b s' : Scheduler B)
      → HasSoundModels b
      → Ending t b (s', done tt)
      → HasSoundModels s'
  unfolding report_canceled finalize_canceled_task fail_task report_failure report_success
      record_model_result forget_task set_operation
  Ending-sound t b s' h (ends_canceled message e) = rw (ap (λ p. p.0) e) h
  Ending-sound t b s' h (ends_failed message e) = rw (ap (λ p. p.0) e) h
  Ending-sound t b s' h (ends_reported e) = rw (ap (λ p. p.0) e) h
  Ending-sound t b s' h (ends_succeeded e) = rw (ap (λ p. p.0) e) h
  Ending-sound t b s' h (ends_throwing message e) = cc
  Ending-sound t b s' h (ends_null e) = cc
  Ending-sound t b s' h (ends_deadlocked e) = cc

  Reached-sound :
      (t : Task) (s b : Scheduler B)
      → KeepsModelsSound during
      → HasSoundModels s
      → Reached during t s b
      → HasSoundModels b
  unfolding set_operation
  Reached-sound t s b k h (at_start e) = rw e h
  Reached-sound t s b k h (before_infer e) = rw e h
  Reached-sound t s b k h (in_infer e) = rw e (k _ h)
  Reached-sound t s b k h (past_infer c e) = rw e (k _ h)

  execute_task_sound :
      (t : Task) (s : Scheduler B)
      → KeepsModelsSound during
      → HasSoundModels s
      → HasSoundModels (execute_task during t s).0
  execute_task_sound t s k h =
      let (b, reached, ending) = execute_task-Ends during t s in
      Ending-sound t b (execute_task during t s).0 (Reached-sound t s b k h reached) (
        subst (λ o. Ending t b ((execute_task during t s).0, o)) (execute_task_returns t s h)
          ending)

  execute_tasks_returns :
      (ts : List Task) (s : Scheduler B)
      → KeepsModelsSound during
      → HasSoundModels s
      → (execute_tasks during ts s).1 ≡ done tt
  unfolding execute_tasks
  execute_tasks_returns [] s k h = refl
  execute_tasks_returns (t ∷ ts) s k h =
      rw (execute_task_returns t s h, execute_tasks)
        (execute_tasks_returns ts (execute_task during t s).0 k (execute_task_sound t s k h))

  -- With a backend whose `infer` throws no exception, and a sound registry that the other threads
  -- keep sound, the execution of a unit returns, whatever else they do while a worker is inside
  -- `infer`; if besides they leave finished operations finished, then every task of the unit ends
  -- with its operation in a final state, and is no longer tracked.
  pub execute-Completes :
      (unit : DispatchUnit) (s : Scheduler B)
      → HasSoundModels s
      → KeepsModelsSound during
      → Respects during
      → ((execute during unit s).1 ≡ done tt)
        × All (λ t. Finished (request_id t) (execute during unit s).0) unit.tasks
  execute-Completes unit s h k f =
      let returned : (execute during unit s).1 ≡ done tt =
        unfold execute in execute_tasks_returns unit.tasks s k h in
      (
        returned,
        execute-Finished during unit s (execute during unit s).0 f
            (ap (λ o. ((execute during unit s).0, o)) returned),
      )
