-- ===== src/Scheduler/Execution.antt =====
-- `Scheduler::execute`, which a worker of the thread pool runs. While it is inside `infer` the other
-- threads go on: `during` is what they do to the scheduler in that time.
pub mod Endings
pub mod Conclusion
pub mod Completion
use gip.Prelude.{String, Bool, none, some, List, [], ◌∷◌, ◌==◌, has_value, if◌then◌else◌, decrement}
use gip.Models.{
  Task, DispatchUnit, BackendType, ModelMeta, model_state_eq, enabled, ResponseInfo, ongoing,
  success, failure, canceled, Outcome, done, throws, null_dereference, self_deadlock, request_id,
  model_name,
}
use gip.Backends.{IBackend, backend_type_from_string, get_backend}
use gip.ModelManager.{resolve_model}
use gip.Scheduler.State.{
  Scheduler, set_operation, forget_task, finalize_canceled_task, cell_of, put_cell, set_error,
}
use gip.Scheduler.Stats.{record_model_result}

module _ {B : Type 0} where
  -- `FAILURE` with the error of the response, in each branch that fails.
  unfoldable pub report_failure : Task → Scheduler B → Scheduler B
  report_failure t s = record_model_result (model_name t) failure (
      forget_task (request_id t) (
        set_operation (request_id t) failure (cell_of t s).response
          (cell_of t s).response.error_message s))

  unfoldable pub fail_task : Task → String → Scheduler B → Scheduler B
  fail_task t message s = report_failure t (set_error t message s)

  unfoldable pub report_canceled : Task → String → Scheduler B → Scheduler B
  report_canceled t message s =
      record_model_result (model_name t) canceled (finalize_canceled_task t (some message) s)

  unfoldable pub report_success : Task → Scheduler B → Scheduler B
  report_success t s = record_model_result (model_name t) success (
      forget_task (request_id t)
        (set_operation (request_id t) success (cell_of t s).response none s))

  -- After `infer` has returned `ok`.
  unfoldable pub conclude : Task → Bool → Scheduler B → Scheduler B
  conclude t ok s =
      if (cell_of t s).cancel_requested
      then report_canceled t "request canceled during execution" s
      else if ok
      then report_success t s
      else if has_value (cell_of t s).response.error_message
      then report_failure t s
      else fail_task t "inference execution failed" s

  -- The response that `infer` wrote is that of the shared task.
  unfoldable pub after_infer :
      Task → Outcome (ResponseInfo × Bool) → Scheduler B → Scheduler B × Outcome (Unit {0})
  after_infer t (done (response, ok)) s =
      (conclude t ok (put_cell t (record (cell_of t s) { response = response }) s), done tt)
  after_infer t (throws message) s = (s, throws message)
  after_infer t null_dereference s = (s, null_dereference)
  after_infer t self_deadlock s = (s, self_deadlock)

module _ {B : Type 0} ⦃i : IBackend B⦄ where
  unfoldable pub run_backend :
      (Scheduler B → Scheduler B)
      → Task
      → Outcome BackendType
      → Scheduler B
      → Scheduler B × Outcome (Unit {0})
  run_backend during t (done type) s = elim (get_backend type s.model_manager.backends) [
    | none ↦ (fail_task t "backend not found" s, done tt)
    | some backend ↦ after_infer t (i.infer t.request (cell_of t s).response backend) (during s)
  ]
  run_backend during t (throws message) s = (s, throws message)
  run_backend during t null_dereference s = (s, null_dereference)
  run_backend during t self_deadlock s = (s, self_deadlock)

  unfoldable pub run_model :
      (Scheduler B → Scheduler B)
      → Task
      → ModelMeta
      → Scheduler B
      → Scheduler B × Outcome (Unit {0})
  run_model during t meta s = elim meta.conf [
    | none ↦ (fail_task t "model not found" s, done tt)
    | some conf ↦
        if meta.state == enabled
        then run_backend during t (backend_type_from_string conf.backend_type) s
        else (fail_task t "model is not enabled" s, done tt)
  ]

  -- One round of the loop.
  unfoldable pub execute_task :
      (Scheduler B → Scheduler B) → Task → Scheduler B → Scheduler B × Outcome (Unit {0})
  execute_task during t s =
      if (cell_of t s).cancel_requested
      then (report_canceled t "request canceled before execution" s, done tt)
      else (let s' = set_operation (request_id t) ongoing (cell_of t s).response none s in
          run_model during t (resolve_model (model_name t) s'.model_manager) s')

  -- An exception ends the loop.
  unfoldable pub execute_tasks :
      (Scheduler B → Scheduler B) → List Task → Scheduler B → Scheduler B × Outcome (Unit {0})
  execute_tasks during [] s = (s, done tt)
  execute_tasks during (t ∷ ts) s =
      let (s', outcome) = execute_task during t s in
      elim outcome [
        | done _ ↦ execute_tasks during ts s'
        | throws message ↦ (s', throws message)
        | null_dereference ↦ (s', null_dereference)
        | self_deadlock ↦ (s', self_deadlock)
      ]

  -- The guard takes one from the count of units in flight, however the loop ends.
  unfoldable pub execute :
      (Scheduler B → Scheduler B) → DispatchUnit → Scheduler B → Scheduler B × Outcome (Unit {0})
  execute during unit s =
      let (s', outcome) = execute_tasks during unit.tasks s in
      (record s' { inflight_task_count = decrement s'.inflight_task_count }, outcome)

  -- A worker takes the oldest job of the thread pool, if there is one, and runs it.
  unfoldable pub run_job :
      (Scheduler B → Scheduler B) → Scheduler B → Scheduler B × Outcome (Unit {0})
  run_job during s = elim s.thread_pool [
    | [] ↦ (s, done tt)
    | unit ∷ rest ↦ execute during unit (record s { thread_pool = rest })
  ]
