-- ===== src/Scheduler/Places/Dispatch.antt =====
-- A round of the dispatcher puts the tasks that it selects into a job, or lets go of them.
use mathlib.Core.List.Perm
use mathlib.Core.List.{Perm}
use gip.Prelude.{
  ℕ, refl, subst, inl, inr, Bool, true, false, ◌&&◌, Option, none, some, List, [], ◌∷◌, ◌++◌,
  is_empty, nil_of_is_empty, nat_beq, Bool-cases, if◌then◌else◌, increment, decrement,
}
use gip.Prelude.Dict.{Dict}
use gip.Prelude.Perms.{swap_front}
use gip.Models.{Task, DispatchUnit, ScheduleStrategy, Outcome, failure, request_id}
use gip.ModelManager.Lifecycle.{Returned}
use gip.ModelManager.Invariants.{Returned-then}
use gip.Batch.Conservation.{unit_tasks}
use gip.Scheduler.Cancellation.Search.{all_waiting}
use gip.Strategy.{Strategy}
use gip.Scheduler.State.{Scheduler, tracked_task, set_error, cell_of, queued_task_count}
use gip.Scheduler.Dispatch.{
  refuse_task, refuse_tasks, dispatch_unit, lock_strategies, unlock_strategies, after_wait,
  dispatch_round, select_ready_unit, select_from,
}
use gip.Scheduler.Dispatch.Conservation.{select_from-perm}
use gip.Scheduler.Places.{job_tasks, take_waiting, take_jobs}
use gip.Scheduler.Places.Fit.{IsFit, IsFit-moves, IsFit-closes}

job_tasks-append :
    (jobs : List DispatchUnit) (unit : DispatchUnit)
    → Perm (job_tasks (jobs ++ unit ∷ [])) (unit.tasks ++ job_tasks jobs)
unfolding job_tasks
job_tasks-append [] unit = Perm.rfl
job_tasks-append (job ∷ jobs) unit =
    Perm.trans (Perm.append_left job.tasks (job_tasks-append jobs unit))
      (swap_front job.tasks unit.tasks (job_tasks jobs))

module _ {B : Type 0} (taken : List Task) where
  refuse_task-IsFit :
      (t : Task) (ts : List Task) (s : Scheduler B)
      → IsFit (t ∷ ts ++ taken) s
      → IsFit (ts ++ taken) (refuse_task t s)
  unfolding refuse_task tracked_task
  refuse_task-IsFit t ts s h =
      let s' = set_error t "failed to dispatch task to worker pool" s in
      IsFit-closes (request_id t) failure (cell_of t s').response
        (cell_of t s').response.error_message (ts ++ taken) s' t refl refl h

  refuse_tasks-IsFit :
      (ts : List Task) (s : Scheduler B) → IsFit (ts ++ taken) s → IsFit taken (refuse_tasks ts s)
  unfolding refuse_tasks
  refuse_tasks-IsFit [] s h = h
  refuse_tasks-IsFit (t ∷ ts) s h = refuse_tasks-IsFit ts _ (refuse_task-IsFit t ts s h)

  dispatch_unit-IsFit :
      (enqueued : Bool) (unit : Option DispatchUnit) (s : Scheduler B)
      → IsFit (unit_tasks unit ++ taken) s
      → IsFit taken (dispatch_unit enqueued unit s)
  unfolding dispatch_unit tracked_task
  dispatch_unit-IsFit enqueued none s h = h
  dispatch_unit-IsFit enqueued (some unit) s h = elim (Bool-cases (is_empty unit.tasks)) [
    | inl e ↦ let same : IsFit taken s = rw (nil_of_is_empty unit.tasks e) at h in simp e same
    | inr e ↦ simp e (either enqueued)
  ]
    where
      counted : Scheduler B
      counted = record s { inflight_task_count = increment s.inflight_task_count }

      recounted : Scheduler B
      recounted = record counted { inflight_task_count = decrement counted.inflight_task_count }

      queued : Scheduler B
      queued = record counted { thread_pool = s.thread_pool ++ unit ∷ [] }

      either : (b : Bool) → IsFit taken (if b then queued else refuse_tasks unit.tasks recounted)
      either true =
          IsFit-moves (unit.tasks ++ taken) taken s queued refl refl refl
            (Perm.subset (
              Perm.symm (
                take_jobs unit.tasks taken (all_waiting s.strategies) (job_tasks queued.thread_pool)
                  (job_tasks s.thread_pool) (job_tasks-append s.thread_pool unit))))
            h
      either false = refuse_tasks-IsFit unit.tasks recounted h

  select_ready_unit-IsFit :
      (now : ℕ) (s : Scheduler B)
      → IsFit taken s
      → Returned (λ r. IsFit (unit_tasks r.1 ++ taken) r.0) (select_ready_unit now s)
  unfolding select_ready_unit tracked_task
  select_ready_unit-IsFit now s h = Returned-then Fits (select_from now s s.strategies) _ (λ r e.
      let moved = subst Moved e (select_from-perm now s s.strategies) in
      let after = record s { strategies = r.0 } in
      IsFit-moves taken (unit_tasks r.1 ++ taken) s after refl refl refl
        (Perm.subset (
          take_waiting (unit_tasks r.1) taken (all_waiting s.strategies) (all_waiting r.0)
            (job_tasks s.thread_pool) moved))
        h)
    where
      Fits : Scheduler B × Option DispatchUnit → Type 0
      Fits r = IsFit (unit_tasks r.1 ++ taken) r.0

      Moved : Outcome (Dict ScheduleStrategy Strategy × Option DispatchUnit) → Type 0
      Moved = Returned (λ r. Perm (all_waiting s.strategies) (unit_tasks r.1 ++ all_waiting r.0))

  pub after_wait-IsFit :
      (enqueued : Bool) (now : ℕ) (s : Scheduler B)
      → IsFit taken s
      → Returned (λ r. IsFit taken r.0) (after_wait enqueued now s)
  unfolding after_wait unlock_strategies tracked_task
  after_wait-IsFit enqueued now s h =
      elim (Bool-cases (s.stop_requested && nat_beq (queued_task_count s.strategies) 0)) [
        | inl ends ↦ rw ends h
        | inr on ↦ rw on (
            Returned-then (λ r. IsFit taken r.0) (select_ready_unit now s) _
              (λ r e. dispatch_unit-IsFit enqueued r.1 (unlock_strategies r.0) (
                subst (Returned (λ q. IsFit (unit_tasks q.1 ++ taken) q.0)) e
                  (select_ready_unit-IsFit now s h))))
      ]

  pub dispatch_round-IsFit :
      (enqueued : Bool) (now : ℕ) (s : Scheduler B)
      → IsFit taken s
      → Returned (λ r. IsFit taken r.0) (dispatch_round enqueued now s)
  unfolding dispatch_round lock_strategies tracked_task
  dispatch_round-IsFit enqueued now s h = elim (Bool-cases s.strategies_mutex) [
    | inl held ↦ rw (held, dispatch_round) tt
    | inr free ↦
        rw (free, dispatch_round)
          (after_wait-IsFit enqueued now (record s { strategies_mutex = true }) h)
  ]
