-- ===== src/Models/Request.antt =====
-- `RequestInfo`, `ResponseInfo` and `OperationInfo` of include/common/models/InternalModels.hpp.
-- A `float` is its bit pattern: the platform copies tensor values and never computes with them.
use gip.Prelude.{ℕ, String, Option, none, List, []}
use gip.Models.Enums.{OperationState, OperationType}
use gip.Models.Config.{TensorShape}

abbrev pub Float32 : Type 0
Float32 = ℕ

pub record RequestInfo : Type 0 where
  pub model_name : String
  pub model_version : Option String
  pub request_id : String
  pub timestamp : String
  pub input_shapes : List TensorShape
  pub input_tensor_values : List Float32
  pub payload : Option String  -- `data` in the source

pub record ResponseInfo : Type 0 where
  pub request_id : String
  pub timestamp : String
  pub output_shapes : List TensorShape
  pub output_tensor_values : List Float32
  pub error_code : Option ℕ
  pub error_message : Option String
  pub payload : Option String  -- `data` in the source

-- `ResponseInfo{}`
abbrev pub empty_response : ResponseInfo
empty_response = record {
  request_id = "";
  timestamp = "";
  output_shapes = [];
  output_tensor_values = [];
  error_code = none;
  error_message = none;
  payload = none;
}

pub record OperationInfo : Type 0 where
  pub id : String
  pub type : OperationType
  pub state : OperationState
  pub message : Option String
  pub response : ResponseInfo
