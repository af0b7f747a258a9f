-- ===== src/Scheduler/Dispatch/Refusal.antt =====
-- The tasks of a unit that the thread pool refuses.
use gip.Prelude.{
  String, refl, subst, ◌≢◌, inl, inr, List, [], ◌∷◌, All, ◌==◌, string_eq, Bool-cases, eq_of_beq,
  ne_of_beq, beq_of_ne,
}
use gip.Prelude.Dict.{lookup-erase, lookup-erase_self}
use gip.Models.{Task, failure, request_id}
use gip.Scheduler.State.{Scheduler, tracked_task, forget_task, set_operation}
use gip.Scheduler.Execution.Conclusion.{
  Finished, operation_of, get-set_operation, get-set_operation_self,
}
use gip.Scheduler.Dispatch.{refuse_task, refuse_tasks}

module _ {B : Type 0} where
  refuse_task-Finished : (t : Task) (s : Scheduler B) → Finished (request_id t) (refuse_task t s)
  unfolding refuse_task forget_task tracked_task
  refuse_task-Finished t s = record {
    operation = operation_of (request_id t) failure _ _;
    stored = get-set_operation_self (request_id t) failure _ _ _;
    final = inr (inl refl);
    released = lookup-erase_self (request_id t) _;
  }

  refuse_task-other :
      (t : Task) (j : String) (s : Scheduler B)
      → request_id t ≢ j
      → Finished j s
      → Finished j (refuse_task t s)
  unfolding refuse_task forget_task tracked_task
  refuse_task-other t j s h f = record {
    operation = f.operation;
    stored =
        rw (get-set_operation (request_id t) j failure _ _ _, beq_of_ne (request_id t) j h)
          f.stored;
    final = f.final;
    released =
        unfold set_operation in
        rw (lookup-erase (request_id t) j s.tracked_tasks, beq_of_ne (request_id t) j h) f.released;
  }

  refuse_task-keeps :
      (t : Task) (j : String) (s : Scheduler B) → Finished j s → Finished j (refuse_task t s)
  refuse_task-keeps t j s f = elim (Bool-cases (request_id t == j)) [
    | inl same ↦
        subst (λ x. Finished x (refuse_task t s)) (eq_of_beq (request_id t) j same)
          (refuse_task-Finished t s)
    | inr other ↦ refuse_task-other t j s (ne_of_beq (request_id t) j other) f
  ]

  refuse_tasks-keeps :
      (ts : List Task) (j : String) (s : Scheduler B)
      → Finished j s
      → Finished j (refuse_tasks ts s)
  unfolding refuse_tasks
  refuse_tasks-keeps [] j s f = f
  refuse_tasks-keeps (t ∷ ts) j s f = refuse_tasks-keeps ts j _ (refuse_task-keeps t j s f)

  -- When the thread pool refuses a unit, the operation of each of its tasks is in a final state
  -- afterwards, and none of the tasks is tracked any longer.
  pub refuse_tasks-Finished :
      (ts : List Task) (s : Scheduler B) → All (λ t. Finished (request_id t) (refuse_tasks ts s)) ts
  unfolding refuse_tasks
  refuse_tasks-Finished [] s = tt
  refuse_tasks-Finished (t ∷ ts) s = (
    refuse_tasks-keeps ts (request_id t) _ (refuse_task-Finished t s),
    refuse_tasks-Finished ts (refuse_task t s),
  )
