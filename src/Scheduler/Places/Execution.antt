-- ===== src/Scheduler/Places/Execution.antt =====
-- A worker lets go of each task of the job that it takes.
use mathlib.Core.List.Perm
use gip.Prelude.{some, none, ◌≡◌, refl, ap, subst, inl, inr, List-cases, List, [], ◌∷◌, ◌++◌}
use gip.Models.{success, failure, ongoing, Task, done, request_id}
use gip.Backends.{IBackend}
use gip.Scheduler.State.{cell_of, set_error, Scheduler, tracked_task, set_operation}
use gip.Scheduler.Stats.{record_model_result}
use gip.Scheduler.Cancellation.Search.{all_waiting}
use gip.Scheduler.Execution.{
  report_canceled, fail_task, report_failure, report_success, execute_task, execute_tasks, execute,
  run_job,
}
use gip.Scheduler.Execution.Endings.{
  Ending, ends_canceled, ends_failed, ends_reported, ends_succeeded, ends_throwing, ends_null,
  ends_deadlocked, Reached, at_start, before_infer, in_infer, past_infer, execute_task-Ends,
}
use gip.Scheduler.Execution.Completion.{Responds, execute_task_returns}
use gip.Scheduler.Places.{job_tasks, take_jobs}
use gip.Scheduler.Places.Fit.{
  IsFit, KeepsFit, IsFit-moves, IsFit-closes, IsFit-keeps, IsFit-finalize,
}

module _ {B : Type 0} where
  report_failure-IsFit :
      (t : Task) (taken : List Task) (s : Scheduler B)
      → IsFit (t ∷ taken) s
      → IsFit taken (report_failure t s)
  unfolding report_failure record_model_result tracked_task
  report_failure-IsFit t taken s h =
      IsFit-closes (request_id t) failure (cell_of t s).response
        (cell_of t s).response.error_message taken s t refl refl h

  report_success-IsFit :
      (t : Task) (taken : List Task) (s : Scheduler B)
      → IsFit (t ∷ taken) s
      → IsFit taken (report_success t s)
  unfolding report_success record_model_result tracked_task
  report_success-IsFit t taken s h =
      IsFit-closes (request_id t) success (cell_of t s).response none taken s t refl refl h

  pub Ending-IsFit :
      (t : Task) (taken : List Task) (b s' : Scheduler B)
      → IsFit (t ∷ taken) b
      → Ending t b (s', done tt)
      → IsFit taken s'
  unfolding report_canceled fail_task record_model_result tracked_task
  Ending-IsFit t taken b s' h (ends_canceled message e) =
      rw (ap (λ p. p.0) e) (IsFit-finalize t t (some message) taken b refl h)
  Ending-IsFit t taken b s' h (ends_failed message e) =
      rw (ap (λ p. p.0) e) (report_failure-IsFit t taken (set_error t message b) h)
  Ending-IsFit t taken b s' h (ends_reported e) =
      rw (ap (λ p. p.0) e) (report_failure-IsFit t taken b h)
  Ending-IsFit t taken b s' h (ends_succeeded e) =
      rw (ap (λ p. p.0) e) (report_success-IsFit t taken b h)
  Ending-IsFit t taken b s' h (ends_throwing message e) = cc
  Ending-IsFit t taken b s' h (ends_null e) = cc
  Ending-IsFit t taken b s' h (ends_deadlocked e) = cc

module _ {B : Type 0} ⦃i : IBackend B⦄ (r : Responds i) (during : Scheduler B → Scheduler B)
    (keeps : KeepsFit during) where
  Reached-IsFit :
      (t : Task) (taken : List Task) (s b : Scheduler B)
      → IsFit (t ∷ taken) s
      → Reached during t s b
      → IsFit (t ∷ taken) b
  unfolding tracked_task
  Reached-IsFit t taken s b h reached = reached_from reached
    where
      marked :
          IsFit (t ∷ taken) (set_operation (request_id t) ongoing (cell_of t s).response none s)
      marked = IsFit-keeps (request_id t) ongoing (cell_of t s).response none taken s t refl h

      reached_from : Reached during t s b → IsFit (t ∷ taken) b
      reached_from (at_start e) = rw e h
      reached_from (before_infer e) = rw e marked
      reached_from (in_infer e) = rw e (keeps (t ∷ taken) _ marked)
      reached_from (past_infer c e) = rw e (keeps (t ∷ taken) _ marked)

  execute_task-IsFit :
      (t : Task) (taken : List Task) (s : Scheduler B)
      → IsFit (t ∷ taken) s
      → IsFit taken (execute_task during t s).0
  execute_task-IsFit t taken s h =
      let (b, reached, ending) = execute_task-Ends during t s in
      Ending-IsFit t taken b (execute_task during t s).0 (Reached-IsFit t taken s b h reached) (
        subst (λ o. Ending t b ((execute_task during t s).0, o))
          (execute_task_returns during r t s h.0) ending)

  execute_tasks-IsFit :
      (ts taken : List Task) (s : Scheduler B)
      → IsFit (ts ++ taken) s
      → ((execute_tasks during ts s).1 ≡ done tt) × IsFit taken (execute_tasks during ts s).0
  unfolding execute_tasks
  execute_tasks-IsFit [] taken s h = (refl, h)
  execute_tasks-IsFit (t ∷ ts) taken s h =
      rw (execute_task_returns during r t s h.0, execute_tasks)
        (execute_tasks-IsFit ts taken (execute_task during t s).0
          (execute_task-IsFit t (ts ++ taken) s h))

  -- The worker's job returns, and no task of it is left without a place.
  pub run_job-IsFit :
      (taken : List Task) (s : Scheduler B)
      → IsFit taken s
      → ((run_job during s).1 ≡ done tt) × IsFit taken (run_job during s).0
  unfolding run_job execute tracked_task job_tasks
  run_job-IsFit taken s h = elim (List-cases s.thread_pool) [
    | inl e ↦ rw (e, run_job) (refl, h)
    | inr (unit, rest, e) ↦
        let popped = record s { thread_pool = rest } in
        let fit =
          IsFit-moves taken (unit.tasks ++ taken) s popped refl refl refl
            (rw e (
              Perm.subset (
                take_jobs unit.tasks taken (all_waiting s.strategies) (unit.tasks ++ job_tasks rest)
                  (job_tasks rest) Perm.rfl)))
            h in
        rw (e, run_job) (execute_tasks-IsFit unit.tasks taken popped fit)
  ]
