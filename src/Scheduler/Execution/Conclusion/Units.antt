-- ===== src/Scheduler/Execution/Conclusion/Units.antt =====
-- How the tasks of a dispatch unit end that a worker has executed.
use gip.Prelude.{
  ℕ, String, ◌≡◌, refl, sym, ap, subst, ◌∙◌, inl, inr, List, [], ◌∷◌, All, ◌==◌, string_eq, arith,
  eq_of_beq, ne_of_beq, Bool-cases,
}
use gip.Models.{Task, DispatchUnit, done, request_id}
use gip.Backends.{IBackend}
use gip.Scheduler.State.{Scheduler, tracked_task}
use gip.Scheduler.Execution.{execute_task, execute_tasks, execute}
use gip.Scheduler.Execution.Endings.{Ending, execute_task-Ends}
use gip.Scheduler.Execution.Conclusion.{
  Finished, Respects, Ending-Finished, Ending-keeps, Reached-keeps,
}

module _ {B : Type 0} ⦃i : IBackend B⦄ (during : Scheduler B → Scheduler B) where
  -- Whatever other threads do while a worker is inside `infer`: once the worker's round on a task
  -- returns without an exception, the operation of the task is in a final state, and the scheduler
  -- no longer tracks the task.
  pub execute_task-Finished :
      (t : Task) (s s' : Scheduler B)
      → execute_task during t s ≡ (s', done tt)
      → Finished (request_id t) s'
  execute_task-Finished t s s' e =
      let (b, reached, ending) = execute_task-Ends during t s in
      Ending-Finished t b s' (subst (Ending t b) e ending)

  execute_task-keeps :
      (t : Task) (j : String) (s s' : Scheduler B)
      → Respects during
      → execute_task during t s ≡ (s', done tt)
      → Finished j s
      → Finished j s'
  execute_task-keeps t j s s' k e f =
      let (b, reached, ending) = execute_task-Ends during t s in
      elim (Bool-cases (request_id t == j)) [
        | inl same ↦
            subst (λ x. Finished x s') (eq_of_beq (request_id t) j same)
              (execute_task-Finished t s s' e)
        | inr other ↦
            let h = ne_of_beq (request_id t) j other in
            Ending-keeps t j b s' h (Reached-keeps during t j s b k h f reached)
              (subst (Ending t b) e ending)
      ]

  -- The loop goes on after a task only if its round returned.
  execute_tasks-cons :
      (t : Task) (ts : List Task) (s s' : Scheduler B)
      → execute_tasks during (t ∷ ts) s ≡ (s', done tt)
      → ((execute_task during t s).1 ≡ done tt)
        × (execute_tasks during ts (execute_task during t s).0 ≡ (s', done tt))
  unfolding execute_tasks
  execute_tasks-cons t ts s s' e = ground arith

  round_returned :
      (t : Task) (s : Scheduler B)
      → (execute_task during t s).1 ≡ done tt
      → execute_task during t s ≡ ((execute_task during t s).0, done tt)
  round_returned t s e = ap (λ o. ((execute_task during t s).0, o)) e

  execute_tasks-nil : (s : Scheduler B) → execute_tasks during [] s ≡ (s, done tt)
  unfolding execute_tasks
  execute_tasks-nil s = refl

  execute_tasks-keeps :
      (ts : List Task) (j : String) (s s' : Scheduler B)
      → Respects during
      → execute_tasks during ts s ≡ (s', done tt)
      → Finished j s
      → Finished j s'
  execute_tasks-keeps [] j s s' k e f =
      subst (Finished j) (ap (λ p. p.0) (sym (execute_tasks-nil s) ∙ e)) f
  execute_tasks-keeps (t ∷ ts) j s s' k e f =
      let (returned, rest) = execute_tasks-cons t ts s s' e in
      execute_tasks-keeps ts j (execute_task during t s).0 s' k rest
        (execute_task-keeps t j s (execute_task during t s).0 k (round_returned t s returned) f)

  execute_tasks-Finished :
      (ts : List Task) (s s' : Scheduler B)
      → Respects during
      → execute_tasks during ts s ≡ (s', done tt)
      → All (λ t. Finished (request_id t) s') ts
  execute_tasks-Finished [] s s' k e = tt
  execute_tasks-Finished (t ∷ ts) s s' k e =
      let (returned, rest) = execute_tasks-cons t ts s s' e in
      (
        execute_tasks-keeps ts (request_id t) (execute_task during t s).0 s' k rest
            (execute_task-Finished t s (execute_task during t s).0 (round_returned t s returned)),
        execute_tasks-Finished ts (execute_task during t s).0 s' k rest,
      )

  recount-Finished :
      (j : String) (n : ℕ) (s : Scheduler B)
      → Finished j s
      → Finished j (record s { inflight_task_count = n })
  unfolding tracked_task
  recount-Finished j n s f = record {
    operation = f.operation;
    stored = f.stored;
    final = f.final;
    released = f.released;
  }

  All-recount :
      (ts : List Task) (n : ℕ) (s : Scheduler B)
      → All (λ t. Finished (request_id t) s) ts
      → All (λ t. Finished (request_id t) (record s { inflight_task_count = n })) ts
  All-recount [] n s h = tt
  All-recount (t ∷ ts) n s h = (recount-Finished (request_id t) n s h.0, All-recount ts n s h.1)

  -- When the execution of a unit returns without an exception, every task of the unit has its
  -- operation in a final state and is no longer tracked, whatever other threads do meanwhile, as
  -- long as they leave finished operations finished.
  pub execute-Finished :
      (unit : DispatchUnit) (s s' : Scheduler B)
      → Respects during
      → execute during unit s ≡ (s', done tt)
      → All (λ t. Finished (request_id t) s') unit.tasks
  unfolding execute
  execute-Finished unit s s' k e =
      subst (λ x. All (λ t. Finished (request_id t) x) unit.tasks) (ap (λ p. p.0) e)
        (All-recount unit.tasks _ (execute_tasks during unit.tasks s).0 (
          execute_tasks-Finished unit.tasks s (execute_tasks during unit.tasks s).0 k
            (ap (λ o. ((execute_tasks during unit.tasks s).0, o)) (ap (λ p. p.1) e))))
