-- ===== src/Scheduler/Stats.antt =====
-- The per-model counters of `Scheduler`: `admitModelStat` and `recordModelResult`.
use gip.Prelude.{String, ltb, string_eq, if◌then◌else◌, increment, ◌-◌}
use gip.Prelude.Dict.{get_or, insert}
use gip.Models.{OperationState, success, failure, canceled}
use gip.Scheduler.State.{Scheduler, PerModelStats, no_stats}

unfoldable pub count_admitted : PerModelStats → PerModelStats
count_admitted s = record s {
  total_admitted = increment s.total_admitted;
  current_inflight = increment s.current_inflight;
}

abbrev count_final : OperationState → PerModelStats → PerModelStats
count_final success s = record s { total_succeeded = increment s.total_succeeded }
count_final failure s = record s { total_failed = increment s.total_failed }
count_final canceled s = record s { total_canceled = increment s.total_canceled }
count_final _ s = s

unfoldable pub count_result : OperationState → PerModelStats → PerModelStats
count_result final_state s =
    count_final final_state (
      if ltb 0 s.current_inflight
      then record s { current_inflight = s.current_inflight - 1 }
      else s)

module _ {B : Type 0} where
  unfoldable pub admit_model_stat : String → Scheduler B → Scheduler B
  unfolding count_admitted
  admit_model_stat name s = record s {
    model_stats = insert name (count_admitted (get_or name no_stats s.model_stats)) s.model_stats;
  }

  unfoldable pub record_model_result : String → OperationState → Scheduler B → Scheduler B
  unfolding count_result
  record_model_result name final_state s = record s {
    model_stats =
        insert name (count_result final_state (get_or name no_stats s.model_stats)) s.model_stats;
  }
