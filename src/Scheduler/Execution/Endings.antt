-- ===== src/Scheduler/Execution/Endings.antt =====
-- The ways in which a worker's round on one task ends, and the state from which it ends so.
use gip.Prelude.{
  String, ◌≡◌, refl, Bool, true, false, none, inl, inr, has_value, Bool-cases, Option-cases, ◌==◌,
  if◌then◌else◌,
}
use gip.Models.{
  Task, TaskCell, BackendType, ModelMeta, enabled, model_state_eq, ongoing, ResponseInfo, Outcome,
  done, throws, null_dereference, self_deadlock, request_id, model_name,
}
use gip.Backends.{IBackend, get_backend}
use gip.ModelManager.{resolve_model}
use gip.Scheduler.State.{Scheduler, set_operation, cell_of, put_cell}
use gip.Scheduler.Execution.{
  report_failure, fail_task, report_canceled, report_success, conclude, after_infer, run_backend,
  run_model, execute_task,
}

module _ {B : Type 0} where
  pub data Ending (t : Task) (b : Scheduler B) (r : Scheduler B × Outcome (Unit {0})) : Type 0 where
    ends_canceled : (message : String) → r ≡ (report_canceled t message b, done tt) → Ending t b r
    ends_failed : (message : String) → r ≡ (fail_task t message b, done tt) → Ending t b r
    ends_reported : r ≡ (report_failure t b, done tt) → Ending t b r
    ends_succeeded : r ≡ (report_success t b, done tt) → Ending t b r
    ends_throwing : (message : String) → r ≡ (b, throws message) → Ending t b r
    ends_null : r ≡ (b, null_dereference) → Ending t b r
    ends_deadlocked : r ≡ (b, self_deadlock) → Ending t b r

  conclude-Ending : (t : Task) (ok : Bool) (b : Scheduler B) → Ending t b (conclude t ok b, done tt)
  unfolding conclude
  conclude-Ending t ok b = elim (Bool-cases (cell_of t b).cancel_requested) [
    | inl flagged ↦ ends_canceled "request canceled during execution" (simp flagged)
    | inr clear ↦ simp clear (not_flagged ok)
  ]
    where
      not_flagged :
          (ok : Bool)
          → Ending t b (
            if ok
                then report_success t b
                else if has_value (cell_of t b).response.error_message
                then report_failure t b
                else fail_task t "inference execution failed" b,
            done tt,
          )
      not_flagged true = ends_succeeded refl
      not_flagged false = elim (Bool-cases (has_value (cell_of t b).response.error_message)) [
        | inl said ↦ ends_reported (simp said)
        | inr silent ↦ ends_failed "inference execution failed" (simp silent)
      ]

  -- The states from which a round can end: before the backend is called, or after.
  pub data Reached (during : Scheduler B → Scheduler B) (t : Task) (s b : Scheduler B)
      : Type 0 where
    at_start : b ≡ s → Reached during t s b
    before_infer :
        b ≡ set_operation (request_id t) ongoing (cell_of t s).response none s
        → Reached during t s b
    in_infer :
        b ≡ during (set_operation (request_id t) ongoing (cell_of t s).response none s)
        → Reached during t s b
    past_infer :
        (c : TaskCell)
        → b
          ≡ put_cell t c
              (during (set_operation (request_id t) ongoing (cell_of t s).response none s))
        → Reached during t s b

  abbrev pub Ends :
      (Scheduler B → Scheduler B) → Task → Scheduler B → Scheduler B × Outcome (Unit {0}) → Type 0
  Ends during t s r = (b : Scheduler B) × Reached during t s b × Ending t b r

module _ {B : Type 0} ⦃i : IBackend B⦄ (during : Scheduler B → Scheduler B) (t : Task)
    (s : Scheduler B) where
  abbrev marked : Scheduler B
  marked = set_operation (request_id t) ongoing (cell_of t s).response none s

  after_infer-Ends :
      (o : Outcome (ResponseInfo × Bool)) → Ends during t s (after_infer t o (during marked))
  unfolding after_infer
  after_infer-Ends (done (response, ok)) = (_, past_infer _ refl, conclude-Ending t ok _)
  after_infer-Ends (throws message) = (_, in_infer refl, ends_throwing message refl)
  after_infer-Ends null_dereference = (_, in_infer refl, ends_null refl)
  after_infer-Ends self_deadlock = (_, in_infer refl, ends_deadlocked refl)

  run_backend-Ends : (o : Outcome BackendType) → Ends during t s (run_backend during t o marked)
  unfolding run_backend
  run_backend-Ends (done type) =
      elim (Option-cases (get_backend type marked.model_manager.backends)) [
        | inl e ↦ (marked, before_infer refl, ends_failed "backend not found" (rw (e, run_backend)))
        | inr (backend, e) ↦ rw (e, run_backend) (after_infer-Ends _)
      ]
  run_backend-Ends (throws message) = (marked, before_infer refl, ends_throwing message refl)
  run_backend-Ends null_dereference = (marked, before_infer refl, ends_null refl)
  run_backend-Ends self_deadlock = (marked, before_infer refl, ends_deadlocked refl)

  run_model-Ends : (meta : ModelMeta) → Ends during t s (run_model during t meta marked)
  unfolding run_model
  run_model-Ends meta = elim (Option-cases meta.conf) [
    | inl e ↦ (marked, before_infer refl, ends_failed "model not found" (rw (e, run_model)))
    | inr (conf, e) ↦ elim (Bool-cases (meta.state == enabled)) [
      | inl on ↦ rw (e, run_model) (rw on (run_backend-Ends _))
      | inr off ↦ (
        marked,
        before_infer refl,
        ends_failed "model is not enabled" (rw (e, run_model) (rw off)),
      )
    ]
  ]

  -- Every round ends in one of these ways.
  pub execute_task-Ends : Ends during t s (execute_task during t s)
  unfolding execute_task
  execute_task-Ends = elim (Bool-cases (cell_of t s).cancel_requested) [
    | inl flagged ↦
        (s, at_start refl, ends_canceled "request canceled before execution" (simp flagged))
    | inr clear ↦ simp clear (run_model-Ends (resolve_model (model_name t) marked.model_manager))
  ]
