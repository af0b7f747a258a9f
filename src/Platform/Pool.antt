-- ===== src/Platform/Pool.antt =====
-- The jobs of the scheduler against the thread pool itself: what `Scheduler.State` keeps as
-- `thread_pool` is the queue of a `ThreadPool`, whose jobs are the units to execute.
use gip.Prelude.{
  ◌≡◌, refl, ap, ◌∙◌, ◌⊎◌, inl, inr, Bool, true, false, some, List, [], ◌∷◌, ◌++◌, is_empty,
  Bool-cases,
}
use gip.Models.{Task, DispatchUnit}
use gip.Backends.{IBackend}
use gip.ThreadPool.{ThreadPool, Worker, running, enqueue, look, Moves, WorkerStep, looks, finishes}
use gip.Scheduler.State.{Scheduler, set_operation, forget_task}
use gip.Scheduler.Dispatch.{refuse_task, refuse_tasks, dispatch_unit}
use gip.Scheduler.Execution.{execute, run_job}

module _ {B : Type 0} where
  abbrev pub IsLinked : Scheduler B → ThreadPool DispatchUnit → Type 0
  IsLinked s p = s.thread_pool ≡ p.tasks

  jobs-refuse_tasks :
      (ts : List Task) (s : Scheduler B) → (refuse_tasks ts s).thread_pool ≡ s.thread_pool
  unfolding refuse_tasks refuse_task forget_task set_operation
  jobs-refuse_tasks [] s = refl
  jobs-refuse_tasks (t ∷ ts) s = jobs-refuse_tasks ts (refuse_task t s)

  dispatch_unit-IsLinked :
      (notify_one : List (Worker DispatchUnit) → List (Worker DispatchUnit)) (unit : DispatchUnit)
      (s : Scheduler B) (p : ThreadPool DispatchUnit)
      → is_empty unit.tasks ≡ false
      → IsLinked s p
      → IsLinked
          (dispatch_unit (enqueue notify_one unit p).1 (some unit) s)
          (enqueue notify_one unit p).0
  unfolding dispatch_unit enqueue
  dispatch_unit-IsLinked notify_one unit s p filled linked = elim (Bool-cases p.stop) [
    | inl stopped ↦ simp (filled, stopped) (jobs-refuse_tasks unit.tasks _ ∙ linked)
    | inr open_ ↦ simp (filled, open_) (ap (λ q. q ++ unit ∷ []) linked)
  ]

module _ {B : Type 0} ⦃i : IBackend B⦄ where
  -- The queue stays; or the worker takes its oldest job, and runs what `run_job` runs.
  abbrev pub Follows :
      (Scheduler B → Scheduler B)
      → Scheduler B
      → ThreadPool DispatchUnit
      → ThreadPool DispatchUnit
      → Type 0
  Follows during s p p' =
      IsLinked s p'
      ⊎ ((unit : DispatchUnit) × (w : Worker DispatchUnit) × Moves w (running unit) p.workers
            p'.workers
          × (p.tasks ≡ unit ∷ p'.tasks)
          × (run_job during s ≡ execute during unit (record s { thread_pool = p'.tasks })))

  run_job-execute :
      (during : Scheduler B → Scheduler B) (s : Scheduler B) (unit : DispatchUnit)
      (rest : List DispatchUnit)
      → s.thread_pool ≡ unit ∷ rest
      → run_job during s ≡ execute during unit (record s { thread_pool = rest })
  unfolding run_job
  run_job-execute during s unit rest e = rw (e, run_job) refl

  WorkerStep-Follows :
      (during : Scheduler B → Scheduler B) (s : Scheduler B) (p p' : ThreadPool DispatchUnit)
      → IsLinked s p
      → WorkerStep p p'
      → Follows during s p p'
  unfolding look
  WorkerStep-Follows during s p p' linked (finishes _ job ws m) = inl linked
  WorkerStep-Follows during s p p' linked (looks _ w ws free m) = looked p.stop p.tasks refl m
    where
      looked :
          (stop : Bool) (tasks : List DispatchUnit)
          → p.tasks ≡ tasks
          → Moves w (look stop tasks).0 p.workers ws
          → (s.thread_pool ≡ (look stop tasks).1)
            ⊎ ((unit : DispatchUnit) × (w' : Worker DispatchUnit) × Moves w'
                  (running unit)
                  p.workers
                  ws
                × (p.tasks ≡ unit ∷ (look stop tasks).1)
                × (run_job during s
                    ≡ execute during unit (record s { thread_pool = (look stop tasks).1 })))
      looked true [] e moves = inl (linked ∙ e)
      looked false [] e moves = inl (linked ∙ e)
      looked true (unit ∷ rest) e moves =
          inr (unit, w, moves, e, run_job-execute during s unit rest (linked ∙ e))
      looked false (unit ∷ rest) e moves =
          inr (unit, w, moves, e, run_job-execute during s unit rest (linked ∙ e))

  -- While the jobs that the scheduler has handed over are the queue of the thread pool: after a
  -- unit with a task is dispatched, with what the pool answers to `enqueue`, they are the queue
  -- again, whether the pool accepts the job or refuses it; and in every step of a worker the queue
  -- stays, or the worker starts the oldest job, the queue is the rest, and `run_job` does what
  -- executing that job does.
  pub dispatch_unit-refines :
      (during : Scheduler B → Scheduler B)
      (notify_one : List (Worker DispatchUnit) → List (Worker DispatchUnit)) (unit : DispatchUnit)
      (s : Scheduler B) (p p' : ThreadPool DispatchUnit)
      → is_empty unit.tasks ≡ false
      → IsLinked s p
      → WorkerStep p p'
      → IsLinked
          (dispatch_unit (enqueue notify_one unit p).1 (some unit) s)
          (enqueue notify_one unit p).0
        × Follows during s p p'
  dispatch_unit-refines during notify_one unit s p p' filled linked step = (
    dispatch_unit-IsLinked notify_one unit s p filled linked,
    WorkerStep-Follows during s p p' linked step,
  )
