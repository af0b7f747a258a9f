-- ===== src/Scheduler/Execution/Conclusion.antt =====
-- How a task ends that a worker has executed.
pub mod Units
use gip.Prelude.{
  ℕ, String, ◌≡◌, refl, sym, ap, subst, ◌∙◌, ◌≢◌, ◌⊎◌, inl, inr, Option, none, some, List, [], ◌∷◌,
  All, ◌==◌, string_eq, if◌then◌else◌, arith, eq_of_beq, ne_of_beq, beq_of_ne, Bool-cases,
}
use gip.Prelude.Dict.{lookup-insert, lookup-insert_self, lookup-erase, lookup-erase_self}
use gip.Models.{
  Task, TaskCell, OperationState, success, failure, canceled, ongoing, submit_inference,
  OperationInfo, ResponseInfo, DispatchUnit, done, request_id, model_name,
}
use gip.Operations.{get_operation}
use gip.Backends.{IBackend}
use gip.Scheduler.State.{
  Scheduler, tracked_task, set_operation, forget_task, finalize_canceled_task, put_cell,
}
use gip.Scheduler.Stats.{record_model_result}
use gip.Scheduler.Execution.{
  report_failure, fail_task, report_canceled, report_success, execute_task, execute_tasks, execute,
}
use gip.Scheduler.Execution.Endings.{
  Ending, ends_canceled, ends_failed, ends_reported, ends_succeeded, ends_throwing, ends_null,
  ends_deadlocked, Reached, at_start, before_infer, in_infer, past_infer, execute_task-Ends,
}

abbrev pub IsFinal : OperationState → Type 0
IsFinal st = (st ≡ success) ⊎ (st ≡ failure) ⊎ (st ≡ canceled)

abbrev pub operation_of : String → OperationState → ResponseInfo → Option String → OperationInfo
operation_of id st r m = record {
  id = id;
  type = submit_inference;
  state = st;
  message = m;
  response = r;
}

module _ {B : Type 0} where
  -- The operation is in a final state, and the scheduler has let go of the task.
  pub record Finished (id : String) (s : Scheduler B) : Type 0 where
    pub operation : OperationInfo
    pub stored : get_operation id s.op_repository ≡ some operation
    pub final : IsFinal operation.state
    pub released : tracked_task id s ≡ none

  pub get-set_operation :
      (id j : String) (st : OperationState) (r : ResponseInfo) (m : Option String) (s : Scheduler B)
      → get_operation j (set_operation id st r m s).op_repository
        ≡ (if id == j then some (operation_of id st r m) else get_operation j s.op_repository)
  unfolding get_operation set_operation
  get-set_operation id j st r m s = lookup-insert id j (operation_of id st r m) s.op_repository

  pub get-set_operation_self :
      (id : String) (st : OperationState) (r : ResponseInfo) (m : Option String) (s : Scheduler B)
      → get_operation id (set_operation id st r m s).op_repository ≡ some (operation_of id st r m)
  unfolding get_operation set_operation
  get-set_operation_self id st r m s =
      lookup-insert_self id (operation_of id st r m) s.op_repository

  -- The writes that end every branch of `execute` but an exception.
  abbrev pub closed :
      Task
      → OperationState
      → ResponseInfo
      → Option String
      → OperationState
      → Scheduler B
      → Scheduler B
  closed t st r m result s =
      record_model_result (model_name t) result
        (forget_task (request_id t) (set_operation (request_id t) st r m s))

  closed-Finished :
      (t : Task) (st : OperationState) (r : ResponseInfo) (m : Option String) (x : OperationState)
      (s : Scheduler B)
      → IsFinal st
      → Finished (request_id t) (closed t st r m x s)
  unfolding record_model_result forget_task tracked_task
  closed-Finished t st r m x s h = record {
    operation = operation_of (request_id t) st r m;
    stored = get-set_operation_self (request_id t) st r m s;
    final = h;
    released = lookup-erase_self (request_id t) _;
  }

  closed-keeps :
      (t : Task) (j : String) (st : OperationState) (r : ResponseInfo) (m : Option String)
      (x : OperationState) (s : Scheduler B)
      → request_id t ≢ j
      → Finished j s
      → Finished j (closed t st r m x s)
  unfolding record_model_result forget_task tracked_task
  closed-keeps t j st r m x s h f = record {
    operation = f.operation;
    stored =
        rw (get-set_operation (request_id t) j st r m s, beq_of_ne (request_id t) j h) f.stored;
    final = f.final;
    released =
        unfold set_operation in
        rw (lookup-erase (request_id t) j s.tracked_tasks, beq_of_ne (request_id t) j h) f.released;
  }

  -- Every ending without an exception finishes the task.
  Ending-Finished :
      (t : Task) (b s' : Scheduler B) → Ending t b (s', done tt) → Finished (request_id t) s'
  unfolding report_canceled finalize_canceled_task fail_task report_failure report_success
  Ending-Finished t b s' (ends_canceled message e) =
      rw (ap (λ p. p.0) e) (closed-Finished t canceled _ _ canceled _ (inr (inr refl)))
  Ending-Finished t b s' (ends_failed message e) =
      rw (ap (λ p. p.0) e) (closed-Finished t failure _ _ failure _ (inr (inl refl)))
  Ending-Finished t b s' (ends_reported e) =
      rw (ap (λ p. p.0) e) (closed-Finished t failure _ _ failure _ (inr (inl refl)))
  Ending-Finished t b s' (ends_succeeded e) =
      rw (ap (λ p. p.0) e) (closed-Finished t success _ _ success _ (inl refl))
  Ending-Finished t b s' (ends_throwing message e) = cc
  Ending-Finished t b s' (ends_null e) = cc
  Ending-Finished t b s' (ends_deadlocked e) = cc

  put_cell-keeps :
      (t : Task) (j : String) (c : TaskCell) (s : Scheduler B)
      → Finished j s
      → Finished j (put_cell t c s)
  unfolding tracked_task
  put_cell-keeps t j c s f = record {
    operation = f.operation;
    stored = f.stored;
    final = f.final;
    released = f.released;
  }

  Ending-keeps :
      (t : Task) (j : String) (b s' : Scheduler B)
      → request_id t ≢ j
      → Finished j b
      → Ending t b (s', done tt)
      → Finished j s'
  unfolding report_canceled finalize_canceled_task fail_task report_failure report_success
  Ending-keeps t j b s' h f (ends_canceled message e) =
      rw (ap (λ p. p.0) e) (closed-keeps t j canceled _ _ canceled _ h (put_cell-keeps t j _ b f))
  Ending-keeps t j b s' h f (ends_failed message e) =
      rw (ap (λ p. p.0) e) (closed-keeps t j failure _ _ failure _ h (put_cell-keeps t j _ b f))
  Ending-keeps t j b s' h f (ends_reported e) =
      rw (ap (λ p. p.0) e) (closed-keeps t j failure _ _ failure _ h f)
  Ending-keeps t j b s' h f (ends_succeeded e) =
      rw (ap (λ p. p.0) e) (closed-keeps t j success _ _ success _ h f)
  Ending-keeps t j b s' h f (ends_throwing message e) = cc
  Ending-keeps t j b s' h f (ends_null e) = cc
  Ending-keeps t j b s' h f (ends_deadlocked e) = cc

  set_operation-keeps :
      (id j : String) (st : OperationState) (r : ResponseInfo) (m : Option String) (s : Scheduler B)
      → id ≢ j
      → Finished j s
      → Finished j (set_operation id st r m s)
  unfolding tracked_task
  set_operation-keeps id j st r m s h f = record {
    operation = f.operation;
    stored = rw (get-set_operation id j st r m s, beq_of_ne id j h) f.stored;
    final = f.final;
    released = unfold set_operation in f.released;
  }

  -- What the other threads do leaves every finished operation finished.
  abbrev pub Respects : (Scheduler B → Scheduler B) → Type 0
  Respects during = (j : String) (s : Scheduler B) → Finished j s → Finished j (during s)

  Reached-keeps :
      (during : Scheduler B → Scheduler B) (t : Task) (j : String) (s b : Scheduler B)
      → Respects during
      → request_id t ≢ j
      → Finished j s
      → Reached during t s b
      → Finished j b
  Reached-keeps during t j s b k h f (at_start e) = rw e f
  Reached-keeps during t j s b k h f (before_infer e) =
      rw e (set_operation-keeps (request_id t) j ongoing _ none s h f)
  Reached-keeps during t j s b k h f (in_infer e) =
      rw e (k j _ (set_operation-keeps (request_id t) j ongoing _ none s h f))
  Reached-keeps during t j s b k h f (past_infer c e) =
      rw e
        (put_cell-keeps t j c _ (k j _ (set_operation-keeps (request_id t) j ongoing _ none s h f)))
