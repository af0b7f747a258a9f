-- ===== src/Scheduler/Cancellation.antt =====
-- `Scheduler::cancelTask`, which holds no lock from one call to the next: `between` is what the
-- other threads do in each of its gaps.
pub mod Search
pub mod Verdict
pub mod Race
use gip.Prelude.{
  String, Bool, true, false, ◌||◌, none, some, [], ◌∷◌, ◌==◌, string_eq, if◌then◌else◌,
}
use gip.Prelude.Dict.{Dict}
use gip.Models.{
  Task, TaskCells, ScheduleStrategy, operation_state_eq, success, failure, canceled,
  cancel_requested,
}
use gip.Operations.{get_operation}
use gip.Strategy
use gip.Strategy.{Strategy}
use gip.Scheduler.State.{
  Scheduler, tracked_task, set_operation, finalize_canceled_task, cell_of, put_cell,
}

-- The loop over the strategies.
unfoldable pub revoke_all :
    String
    → Dict ScheduleStrategy Strategy
    → TaskCells
    → Dict ScheduleStrategy Strategy × TaskCells × Bool
revoke_all id [] cells = ([], cells, false)
revoke_all id ((kind, strat) ∷ rest) cells =
    let (strat', cells', here) = Strategy.revoke id strat cells in
    let (rest', cells'', there) = revoke_all id rest cells' in
    if here then ((kind, strat') ∷ rest, cells', true) else ((kind, strat') ∷ rest', cells'', there)

-- Where other threads may act: before the call, for a caller that has looked at the operation; after
-- the look at the operation; before the flag of the task is set; before the strategies are locked;
-- and after these are unlocked, with the task revoked or not.
pub data Gap : Type 0 where
  before_call : Gap
  before_lookup : Gap
  before_flag : Gap
  before_search : Gap
  after_hit : Gap
  after_miss : Gap

abbrev pub Others : Type 0 → Type 0
Others B = Gap → Scheduler B → Scheduler B

module _ {B : Type 0} where
  -- `task->cancel_requested->store(true)`
  abbrev pub set_flag : Task → Scheduler B → Scheduler B
  set_flag t s = put_cell t (record (cell_of t s) { cancel_requested = true }) s

  -- From the task that is tracked on.
  unfoldable pub cancel_tracked : Others B → String → Task → Scheduler B → Scheduler B × Bool
  cancel_tracked between id t s =
      let flagged = between before_search (set_flag t (between before_flag s)) in
      let (strategies', cells', revoked) = revoke_all id flagged.strategies flagged.cells in
      let searched = record flagged { strategies = strategies'; cells = cells' } in
      if revoked
      then (
        finalize_canceled_task t (some "request canceled before execution")
            (between after_hit searched),
        true,
      )
      else let later = between after_miss searched in
        (
          set_operation id cancel_requested (cell_of t later).response
              (some "cancel requested; waiting for in-flight execution to finish") later,
          true,
        )

  unfoldable pub cancel_task : Others B → String → Scheduler B → Scheduler B × Bool
  cancel_task between id s = elim (get_operation id s.op_repository) [
    | none ↦ (s, false)
    | some op_info ↦
        if op_info.state == canceled
        then (s, true)
        else if op_info.state == success || op_info.state == failure
        then (s, false)
        else let looked = between before_lookup s in
          elim (tracked_task id looked) [
            | none ↦ (looked, false)
            | some t ↦ cancel_tracked between id t looked
          ]
  ]
