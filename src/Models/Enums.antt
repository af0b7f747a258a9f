-- ===== src/Models/Enums.antt =====
-- The enumerations of include/common/ModelDef.hpp; `tag_of_` is the value of `static_cast<int>`.
use gip.Prelude.{ℕ, ◌≡◌, ◌↔◌, Bool, true, arith, Eq, nat_beq}

pub data BackendType : Type 0 where
  onnx_runtime tensor_rt open_vino custom : BackendType

pub data ModelState : Type 0 where
  registered loaded enabled failed : ModelState

pub data OperationState : Type 0 where
  pending ongoing cancel_requested canceled success failure : OperationState

pub data OperationType : Type 0 where
  load_model unload_model submit_inference cancel_inference : OperationType

pub data ScheduleStrategy : Type 0 where
  fifo priority max_throughput : ScheduleStrategy

abbrev pub tag_of_backend : BackendType → ℕ
tag_of_backend onnx_runtime = 0
tag_of_backend tensor_rt = 1
tag_of_backend open_vino = 2
tag_of_backend custom = 3

abbrev pub same_backend : BackendType → BackendType → Bool
same_backend a b = nat_beq (tag_of_backend a) (tag_of_backend b)

pub same_backend_iff : (a b : BackendType) → (same_backend a b ≡ true) ↔ (a ≡ b)
same_backend_iff a b = ground arith

abbrev pub tag_of_operation : OperationState → ℕ
tag_of_operation pending = 0
tag_of_operation ongoing = 1
tag_of_operation cancel_requested = 2
tag_of_operation canceled = 3
tag_of_operation success = 4
tag_of_operation failure = 5

abbrev pub same_operation : OperationState → OperationState → Bool
same_operation a b = nat_beq (tag_of_operation a) (tag_of_operation b)

pub same_operation_iff : (a b : OperationState) → (same_operation a b ≡ true) ↔ (a ≡ b)
same_operation_iff a b = ground arith

abbrev pub tag_of_model : ModelState → ℕ
tag_of_model registered = 0
tag_of_model loaded = 1
tag_of_model enabled = 2
tag_of_model failed = 3

abbrev pub same_model : ModelState → ModelState → Bool
same_model a b = nat_beq (tag_of_model a) (tag_of_model b)

pub same_model_iff : (a b : ModelState) → (same_model a b ≡ true) ↔ (a ≡ b)
same_model_iff a b = ground arith

abbrev pub tag_of_strategy : ScheduleStrategy → ℕ
tag_of_strategy fifo = 0
tag_of_strategy priority = 1
tag_of_strategy max_throughput = 2

abbrev pub same_strategy : ScheduleStrategy → ScheduleStrategy → Bool
same_strategy a b = nat_beq (tag_of_strategy a) (tag_of_strategy b)

pub same_strategy_iff : (a b : ScheduleStrategy) → (same_strategy a b ≡ true) ↔ (a ≡ b)
same_strategy_iff a b = ground arith

instance abbrev pub backend_type_eq : Eq BackendType
backend_type_eq = record { beq = same_backend; beq_iff = same_backend_iff }

instance abbrev pub operation_state_eq : Eq OperationState
operation_state_eq = record { beq = same_operation; beq_iff = same_operation_iff }

instance abbrev pub model_state_eq : Eq ModelState
model_state_eq = record { beq = same_model; beq_iff = same_model_iff }

instance abbrev pub schedule_strategy_eq : Eq ScheduleStrategy
schedule_strategy_eq = record { beq = same_strategy; beq_iff = same_strategy_iff }
