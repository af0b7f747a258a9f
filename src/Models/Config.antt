-- ===== src/Models/Config.antt =====
-- `ModelConf` of include/common/models/ConfigModels.hpp and `ModelMeta` of
-- include/common/models/InternalModels.hpp. An `int64_t` dimension and an `int` are integers;
-- the unsigned fields are numbers below their width, which the code only compares and copies.
use gip.Prelude.{ℕ, String, Bool, true, false, Option, List, []}
use gip.Prelude.Int.{ℤ, pos}
use gip.Models.Enums.{ModelState, ScheduleStrategy, fifo}

abbrev pub TensorShape : Type 0
TensorShape = List ℤ

pub record ModelConf : Type 0 where
  pub model_name : String
  pub model_version : String
  pub model_path : String
  pub backend_type : String
  pub engine_path : String
  pub input_names : List String
  pub output_names : List String
  pub input_shapes : List TensorShape
  pub output_shapes : List TensorShape
  pub auto_warmup : Bool
  pub max_batch_size : ℕ
  pub batch_timeout_ms : ℕ
  pub intra_op_num_threads : ℤ
  pub inter_op_num_threads : ℤ
  pub schedule_strategy : ScheduleStrategy
  pub max_inflight_requests : ℕ
  pub max_queue_size : ℕ
  pub max_queue_delay_ms : ℕ
  pub allow_request_cancellation : Bool
  pub drop_if_queue_full : Bool

-- `ModelConf{}`: the members' default initialisers.
abbrev pub default_conf : ModelConf
default_conf = record {
  model_name = "";
  model_version = "";
  model_path = "";
  backend_type = "";
  engine_path = "";
  input_names = [];
  output_names = [];
  input_shapes = [];
  output_shapes = [];
  auto_warmup = true;
  max_batch_size = 1;
  batch_timeout_ms = 20;
  intra_op_num_threads = pos 0;
  inter_op_num_threads = pos 0;
  schedule_strategy = fifo;
  max_inflight_requests = 1;
  max_queue_size = 128;
  max_queue_delay_ms = 0;
  allow_request_cancellation = true;
  drop_if_queue_full = false;
}

pub record ModelMeta : Type 0 where
  pub model_name : String
  pub conf : Option ModelConf
  pub state : ModelState
