-- ===== src/Scheduler/Admission.antt =====
-- `Scheduler::admit` and `Scheduler::submitTask`.
pub mod Entry
pub mod Acceptance
use gip.Prelude.{ℕ, Bool, true, false, ◌&&◌, Option, none, some, ltb, leb, if◌then◌else◌}
use gip.Prelude.Dict.{insert}
use gip.Models.{
  Task, RequestInfo, ScheduleStrategy, schedule_strategy_eq, failure, new_cell, request_id,
  model_name,
}
use gip.Policy.{SchedulingContext}
use gip.Strategy
use gip.Strategy.{Strategy}
use gip.Scheduler.State.{
  Scheduler, build_admission_context, find_strategy, track_task, forget_task, set_operation,
  cell_of, put_cell, set_error,
}
use gip.Scheduler.Stats.{admit_model_stat}

-- The queue limit of the model's configuration, against all that the strategy holds; the task is
-- refused only if the configuration also says to drop.
unfoldable pub must_drop : SchedulingContext → Strategy → Bool
must_drop context strat = elim context.model_meta.conf [
  | none ↦ false
  | some conf ↦
      ltb 0 conf.max_queue_size
      && leb conf.max_queue_size (Strategy.pending_task_count strat)
      && conf.drop_if_queue_full
]

module _ {B : Type 0} where
  -- The branch of a full queue.
  unfoldable pub drop_task : Task → Scheduler B → Scheduler B
  drop_task t s =
      let s' = set_error t "scheduler queue is full" s in
      set_operation (request_id t) failure (cell_of t s').response
        (cell_of t s').response.error_message s'

  -- From `trackTask` on.
  unfoldable pub enter_strategy :
      Task → SchedulingContext → ScheduleStrategy → Strategy → Scheduler B → Scheduler B × Bool
  enter_strategy t context key strat s =
      let tracked = track_task t s in
      let (strat', accepted) = Strategy.admit (some t) context strat in
      let entered = record tracked { strategies = insert key strat' tracked.strategies } in
      if accepted
      then (admit_model_stat (model_name t) entered, true)
      else (forget_task (request_id t) entered, false)

  -- `task->strategy = policy_selector_->selectStrategy(context)`
  unfoldable pub choose_strategy : Task → SchedulingContext → Scheduler B → Scheduler B
  choose_strategy t context s =
      put_cell t (record (cell_of t s) { strategy = s.policy_selector context }) s

  unfoldable pub route :
      Task
      → SchedulingContext
      → Option (ScheduleStrategy × Strategy)
      → Scheduler B
      → Scheduler B × Bool
  route t context none s = (s, false)
  route t context (some (key, strat)) s =
      if must_drop context strat
      then (drop_task t s, false)
      else enter_strategy t context key strat s

  unfoldable pub admit : ℕ → Option Task → Scheduler B → Scheduler B × Bool
  admit now none s = (s, false)
  admit now (some t) s =
      let context = build_admission_context now (model_name t) s in
      if s.stop_requested
      then (s, false)
      else route t context (find_strategy (s.policy_selector context) s.strategies)
          (choose_strategy t context s)

  -- `address` is where the new task is stored, `built` the clock that its constructor reads.
  unfoldable pub submit_task : ℕ → ℕ → ℕ → RequestInfo → Scheduler B → Scheduler B × Bool
  submit_task address built now request s =
      let t : Task = record { address = address; request = request; enqueued_at = built } in
      admit now (some t) (put_cell t new_cell s)
