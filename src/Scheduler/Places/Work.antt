-- ===== src/Scheduler/Places/Work.antt =====
-- A worker's execution of a job in single steps, between which other threads may act.
use mathlib.Core.List.Perm
use mathlib.Core.List.{Perm, perm_middle}
use gip.Prelude.{◌≡◌, refl, none, List, ◌∷◌, ◌++◌, decrement}
use gip.Prelude.Perms.{Subset-append_right}
use gip.Models.{Task, TaskCell, DispatchUnit, ongoing, done, request_id}
use gip.Scheduler.State.{Scheduler, tracked_task, set_operation, cell_of, put_cell}
use gip.Scheduler.Cancellation.Search.{all_waiting}
use gip.Scheduler.Execution.Endings.{Ending}
use gip.Scheduler.Places.{job_tasks, take_jobs}
use gip.Scheduler.Places.Fit.{IsFit, IsFit-moves, IsFit-keeps}
use gip.Scheduler.Places.Execution.{Ending-IsFit}

module _ {B : Type 0} where
  -- What a worker does to the scheduler, and to the tasks in hand: it takes a job; it marks a task as
  -- ongoing; `infer` writes the response; the round on the task ends, with no exception; the unit is
  -- no longer counted.
  pub data Works : List Task → Scheduler B → List Task → Scheduler B → Type 0 where
    takes :
        (taken : List Task) (unit : DispatchUnit) (rest : List DispatchUnit) (s : Scheduler B)
        → s.thread_pool ≡ unit ∷ rest
        → Works taken s (unit.tasks ++ taken) (record s { thread_pool = rest })
    marks :
        (before after : List Task) (t : Task) (s : Scheduler B)
        → Works
            (before ++ t ∷ after)
            s
            (before ++ t ∷ after)
            (set_operation (request_id t) ongoing (cell_of t s).response none s)
    answers :
        (before after : List Task) (t : Task) (c : TaskCell) (s : Scheduler B)
        → Works (before ++ t ∷ after) s (before ++ t ∷ after) (put_cell t c s)
    ends :
        (before after : List Task) (t : Task) (s s' : Scheduler B)
        → Ending t s (s', done tt)
        → Works (before ++ t ∷ after) s (before ++ after) s'
    counts :
        (taken : List Task) (s : Scheduler B)
        → Works taken s taken (record s { inflight_task_count = decrement s.inflight_task_count })

  -- The order of the tasks in hand does not matter.
  hand-IsFit :
      (taken taken' : List Task) (s : Scheduler B)
      → Perm taken taken'
      → IsFit taken s
      → IsFit taken' s
  hand-IsFit taken taken' s p h =
      IsFit-moves taken taken' s s refl refl refl
        (Subset-append_right (all_waiting s.strategies ++ job_tasks s.thread_pool) (Perm.subset p))
        h

  pub Works-IsFit :
      (taken taken' : List Task) (s s' : Scheduler B)
      → Works taken s taken' s'
      → IsFit taken s
      → IsFit taken' s'
  unfolding tracked_task job_tasks
  Works-IsFit taken _ s _ (takes _ unit rest _ e) h =
      IsFit-moves taken (unit.tasks ++ taken) s (record s { thread_pool = rest }) refl refl refl
        (rw e (
          Perm.subset (
            take_jobs unit.tasks taken (all_waiting s.strategies) (unit.tasks ++ job_tasks rest)
              (job_tasks rest) Perm.rfl)))
        h
  Works-IsFit _ _ s _ (marks before after t _) h =
      let marked = set_operation (request_id t) ongoing (cell_of t s).response none s in
      hand-IsFit (t ∷ before ++ after) (before ++ t ∷ after) marked
        (Perm.symm (perm_middle before after))
        (IsFit-keeps (request_id t) ongoing (cell_of t s).response none (before ++ after) s t refl
          (hand-IsFit (before ++ t ∷ after) (t ∷ before ++ after) s (perm_middle before after) h))
  Works-IsFit _ _ s _ (answers before after t c _) h = h
  Works-IsFit _ _ s s' (ends before after t _ _ ending) h =
      Ending-IsFit t (before ++ after) s s'
        (hand-IsFit (before ++ t ∷ after) (t ∷ before ++ after) s (perm_middle before after) h)
        ending
  Works-IsFit _ _ s _ (counts taken _) h = h
