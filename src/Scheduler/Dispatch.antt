-- ===== src/Scheduler/Dispatch.antt =====
-- The dispatcher thread: `Scheduler::dispatchLoop`, `selectReadyUnit` and
-- `computeMinWaitDuration`. `strategies_mutex_` is a `std::mutex`, which its owner must not lock
-- again; from one step to the next it is free. `enqueued` is what `ThreadPool::enqueue` answers.
pub mod Lock
pub mod Refusal
pub mod Conservation
pub mod Sleep
use gip.Prelude.{
  ℕ, ◌+◌, ◌*◌, ltb, Bool, true, false, ◌&&◌, Option, none, some, List, [], ◌∷◌, ◌++◌, is_empty,
  nat_beq, increment, decrement, if◌then◌else◌,
}
use gip.Prelude.Int.{ℤ, pos, min_ℤ, pos_part}
use gip.Prelude.Dict.{Dict}
use gip.Models.{
  Task, DispatchUnit, ScheduleStrategy, failure, RuntimeSnapshot, Outcome, done, self_deadlock,
  ◌>>=◌, request_id,
}
use gip.Strategy
use gip.Strategy.{Strategy}
use gip.Scheduler.State.{
  Scheduler, runtime_snapshot, queued_task_count, forget_task, set_operation, cell_of, set_error,
}

unfoldable pub min_wait_from : ℕ → ℤ → Dict ScheduleStrategy Strategy → ℤ
min_wait_from now min_dur [] = min_dur
min_wait_from now min_dur ((kind, strat) ∷ rest) =
    min_wait_from now (min_ℤ min_dur (Strategy.next_ready_in now strat)) rest

module _ {B : Type 0} where
  -- In milliseconds, from 24 hours down.
  unfoldable pub compute_min_wait_duration : ℕ → Scheduler B → ℤ
  compute_min_wait_duration now s = min_wait_from now (pos 86400000) s.strategies

  -- The constructor of a `std::unique_lock` or `std::lock_guard`.
  unfoldable pub lock_strategies : Scheduler B → Outcome (Scheduler B)
  lock_strategies s =
      if s.strategies_mutex then self_deadlock else done (record s { strategies_mutex = true })

  unfoldable pub unlock_strategies : Scheduler B → Scheduler B
  unlock_strategies s = record s { strategies_mutex = false }

  -- `buildSelectionContext`: `runtimeSnapshot` locks `strategies_mutex_`, and gives it back.
  unfoldable pub snapshot_in : ℕ → Scheduler B → Outcome RuntimeSnapshot
  snapshot_in now s = do locked ← lock_strategies s; done (runtime_snapshot now locked)

  -- The loop of `selectReadyUnit`; no strategy reads the context.
  unfoldable pub select_from :
      ℕ
      → Scheduler B
      → Dict ScheduleStrategy Strategy
      → Outcome (Dict ScheduleStrategy Strategy × Option DispatchUnit)
  select_from now s [] = done ([], none)
  select_from now s ((kind, strat) ∷ rest) = do
    context ← snapshot_in now s
    let (strat', unit) = Strategy.select now strat
    elim unit [
      | some u ↦
          if is_empty u.tasks
          then (do (rest', later) ← select_from now s rest; done ((kind, strat') ∷ rest', later))
          else done ((kind, strat') ∷ rest, some u)
      | none ↦ do (rest', later) ← select_from now s rest; done ((kind, strat') ∷ rest', later)
    ]

  unfoldable pub select_ready_unit : ℕ → Scheduler B → Outcome (Scheduler B × Option DispatchUnit)
  select_ready_unit now s = do
    (strategies', unit) ← select_from now s s.strategies
    done (record s { strategies = strategies' }, unit)

  -- A task of a unit that the thread pool has refused.
  unfoldable pub refuse_task : Task → Scheduler B → Scheduler B
  refuse_task t s =
      let s' = set_error t "failed to dispatch task to worker pool" s in
      forget_task (request_id t) (
        set_operation (request_id t) failure (cell_of t s').response
          (cell_of t s').response.error_message s')

  unfoldable pub refuse_tasks : List Task → Scheduler B → Scheduler B
  refuse_tasks [] s = s
  refuse_tasks (t ∷ ts) s = refuse_tasks ts (refuse_task t s)

  -- A unit that is enqueued waits behind the jobs of the thread pool.
  unfoldable pub dispatch_unit : Bool → Option DispatchUnit → Scheduler B → Scheduler B
  dispatch_unit enqueued none s = s
  dispatch_unit enqueued (some unit) s =
      let counted = record s { inflight_task_count = increment s.inflight_task_count } in
      if is_empty unit.tasks
      then s
      else if enqueued
      then record counted { thread_pool = s.thread_pool ++ unit ∷ [] }
      else refuse_tasks unit.tasks
          (record counted { inflight_task_count = decrement counted.inflight_task_count })

  -- A round of the loop from the end of its wait on; the flag says that the loop ends. In the code
  -- the wait leaves `strategies_mutex_` locked.
  unfoldable pub after_wait : Bool → ℕ → Scheduler B → Outcome (Scheduler B × Bool)
  after_wait enqueued now s =
      if s.stop_requested && nat_beq (queued_task_count s.strategies) 0
      then done (unlock_strategies s, true)
      else (do
        (selected, unit) ← select_ready_unit now s
        done (dispatch_unit enqueued unit (unlock_strategies selected), false))

  -- One round of the loop. It locks `strategies_mutex_`; its wait, `dispatch_wait`, changes nothing.
  unfoldable pub dispatch_round : Bool → ℕ → Scheduler B → Outcome (Scheduler B × Bool)
  dispatch_round enqueued now s = do locked ← lock_strategies s; after_wait enqueued now locked

module _ {B : Type 0} where
  -- The predicate of the wait.
  unfoldable pub wakes : Scheduler B → Bool
  wakes s = s.stop_requested

  -- `strategies_cv_.wait_for(lock, duration, predicate)`, and the time at which it returns: each test
  -- of the predicate comes with its time and the state at that time, the first at the start of the
  -- wait and the others after a notification or with no reason.
  unfoldable pub wait_for : ℕ → List (ℕ × Scheduler B) → ℕ
  wait_for deadline [] = deadline
  wait_for deadline ((at, s) ∷ rest) =
      let later = wait_for deadline rest in
      if ltb at deadline then if wakes s then at else later else deadline

  -- The wait of the loop, which starts at `now`; a duration is in milliseconds.
  unfoldable pub dispatch_wait : ℕ → List (ℕ × Scheduler B) → Scheduler B → ℕ
  dispatch_wait now tests s =
      wait_for (now + pos_part (compute_min_wait_duration now s) * 1000000) tests

  -- The exchange of `Scheduler::stop`; the flag says that the call goes on to notify the dispatcher,
  -- to join it and to stop the pool.
  unfoldable pub stop : Scheduler B → Scheduler B × Bool
  stop s = if s.stop_requested then (s, false) else (record s { stop_requested = true }, true)
