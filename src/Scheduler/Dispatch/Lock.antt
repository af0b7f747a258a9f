-- ===== src/Scheduler/Dispatch/Lock.antt =====
-- What the dispatcher's round does with the mutex that it locks.
use gip.Prelude.{ℕ, ◌≡◌, refl, Bool, false, ◌&&◌, ◌∷◌, nat_beq}
use gip.Prelude.Dict.{Dict}
use gip.Models.{ScheduleStrategy, self_deadlock}
use gip.Strategy.{Strategy}
use gip.Scheduler.State.{Scheduler, queued_task_count}
use gip.Scheduler.Dispatch.{
  lock_strategies, snapshot_in, select_from, select_ready_unit, after_wait, dispatch_round,
}

-- From a state with the mutex free and at least one strategy, a round of `dispatchLoop` that does
-- not end the loop locks the mutex that it has locked at its start, and never goes on: not even when
-- a task is waiting, and whatever the thread pool would answer.
pub dispatch_round_deadlocks :
    {B : Type 0} (enqueued : Bool) (now : ℕ) (s : Scheduler B) (kind : ScheduleStrategy)
    (strat : Strategy) (rest : Dict ScheduleStrategy Strategy)
    → s.strategies_mutex ≡ false
    → s.strategies ≡ (kind, strat) ∷ rest
    → (s.stop_requested && nat_beq (queued_task_count s.strategies) 0) ≡ false
    → dispatch_round enqueued now s ≡ self_deadlock
unfolding dispatch_round lock_strategies after_wait select_ready_unit select_from snapshot_in
dispatch_round_deadlocks enqueued now s kind strat rest free e open_ =
    rw free (rw open_ (rw e refl))
