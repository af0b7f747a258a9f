-- ===== src/Policy.antt =====
-- `SchedulingContext` and `DefaultPolicySelector` (include/scheduler/PolicySelector.hpp).
use gip.Prelude.{◌&&◌, none, some, ◌≡◌, ◌↔◌, ltb, ◌<◌, if◌then◌else◌, arith}
use gip.Models.{
  ModelConf, ModelMeta, ScheduleStrategy, fifo, priority, max_throughput, RuntimeSnapshot,
}

pub record SchedulingContext : Type 0 where
  pub model_meta : ModelMeta
  pub runtime_snapshot : RuntimeSnapshot

-- `IPolicySelector::selectStrategy`
abbrev pub PolicySelector : Type 0
PolicySelector = SchedulingContext → ScheduleStrategy

-- The `switch` on the strategy that the model's configuration prefers.
by_preference : ScheduleStrategy → ModelConf → RuntimeSnapshot → ScheduleStrategy
by_preference max_throughput conf snapshot =
    if ltb 1 conf.max_batch_size && ltb snapshot.inflight_task_count snapshot.worker_count
    then max_throughput
    else fifo
by_preference priority conf snapshot = priority
by_preference fifo conf snapshot = fifo

unfoldable pub select_strategy : PolicySelector
unfolding by_preference
select_strategy context = elim context.model_meta.conf [
  | none ↦ fifo
  | some conf ↦ by_preference conf.schedule_strategy conf context.runtime_snapshot
]

-- For a model that is known, the default policy batches a request exactly when the configuration
-- prefers throughput and takes more than one request in a batch, and a worker is free.
pub select_strategy-batches :
    (context : SchedulingContext) (conf : ModelConf)
    → context.model_meta.conf ≡ some conf
    → (select_strategy context ≡ max_throughput) ↔ (
        (conf.schedule_strategy ≡ max_throughput)
        × (1 < conf.max_batch_size)
        × (context.runtime_snapshot.inflight_task_count < context.runtime_snapshot.worker_count))
unfolding select_strategy
select_strategy-batches context conf e = ground arith
