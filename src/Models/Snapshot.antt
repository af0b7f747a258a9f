-- ===== src/Models/Snapshot.antt =====
-- `SchedulerRuntimeSnapshot` of include/common/models/InternalModels.hpp.
use gip.Prelude.{ℕ, String, Bool}
use gip.Prelude.Dict.{Dict}

pub record ModelStats : Type 0 where
  pub model_name : String
  pub total_admitted : ℕ
  pub total_succeeded : ℕ
  pub total_failed : ℕ
  pub total_canceled : ℕ
  pub current_inflight : ℕ

pub record BatchWindowState : Type 0 where
  pub model_name : String
  pub pending_count : ℕ
  pub oldest_wait_ms : ℕ
  pub max_batch_size : ℕ
  pub batch_timeout_ms : ℕ

pub record RuntimeSnapshot : Type 0 where
  pub worker_count : ℕ
  pub inflight_task_count : ℕ
  pub queued_task_count : ℕ
  pub stop_requested : Bool
  pub model_stats : Dict String ModelStats
  pub batch_windows : Dict String BatchWindowState
