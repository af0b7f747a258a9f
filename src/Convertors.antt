-- ===== src/Convertors.antt =====
-- The conversions of src/common/Convertors.cpp but those of backend types, which stand with the
-- backends.
pub mod RoundTrip
use gip.Prelude.{String, Option, none, some, [], Bool, true}
use gip.Prelude.Int.{ℤ, pos}
use gip.Models.{
  ModelState, registered, loaded, enabled, failed, OperationState, pending, ongoing,
  cancel_requested, canceled, success, failure, OperationType, load_model, unload_model,
  submit_inference, cancel_inference, ModelConf, default_conf, RequestInfo, ResponseInfo,
  OperationInfo,
}
use gip.Json.{JsonLibrary, Read, got, ◌>>=◌, member, value_or, optional_member}

unfoldable pub model_state_to_string : ModelState → String
model_state_to_string registered = "REGISTERED"
model_state_to_string loaded = "LOADED"
model_state_to_string enabled = "ENABLED"
model_state_to_string failed = "FAILED"

unfoldable pub operation_state_to_string : OperationState → String
operation_state_to_string pending = "PENDING"
operation_state_to_string ongoing = "ONGOING"
operation_state_to_string cancel_requested = "CANCEL_REQUESTED"
operation_state_to_string canceled = "CANCELED"
operation_state_to_string success = "SUCCESS"
operation_state_to_string failure = "FAILURE"

unfoldable pub operation_type_to_string : OperationType → String
operation_type_to_string load_model = "LOAD_MODEL"
operation_type_to_string unload_model = "UNLOAD_MODEL"
operation_type_to_string submit_inference = "SUBMIT_INFERENCE"
operation_type_to_string cancel_inference = "CANCEL_INFERENCE"

module _ {J O : Type 0} (json : JsonLibrary J O) where
  -- `from_json` into a `ModelConf{}`; an exception leaves no configuration behind.
  unfoldable pub conf_from_json : J → Read ModelConf
  conf_from_json j = do
    model_name ← member json json.get_string "model_name" j
    model_version ← member json json.get_string "model_version" j
    model_path ← member json json.get_string "model_path" j
    backend_type ← member json json.get_string "backend_type" j
    engine_path ← member json json.get_string "engine_path" j
    input_names ← member json json.get_strings "input_names" j
    output_names ← member json json.get_strings "output_names" j
    input_shapes ← member json json.get_shapes "input_shapes" j
    output_shapes ← member json json.get_shapes "output_shapes" j
    auto_warmup ← value_or json json.get_bool "auto_warmup" true j
    max_batch_size ← value_or json json.get_size "max_batch_size" 1 j
    intra_op_num_threads ← value_or json json.get_int "intra_op_num_threads" (pos 0) j
    inter_op_num_threads ← value_or json json.get_int "inter_op_num_threads" (pos 0) j
    got (record default_conf {
      model_name = model_name;
      model_version = model_version;
      model_path = model_path;
      backend_type = backend_type;
      engine_path = engine_path;
      input_names = input_names;
      output_names = output_names;
      input_shapes = input_shapes;
      output_shapes = output_shapes;
      auto_warmup = auto_warmup;
      max_batch_size = max_batch_size;
      intra_op_num_threads = intra_op_num_threads;
      inter_op_num_threads = inter_op_num_threads;
    })

  unfoldable pub conf_to_json : ModelConf → O
  conf_to_json conf =
      let o₁ = json.set "model_name" (json.of_string conf.model_name) json.empty in
      let o₂ = json.set "model_version" (json.of_string conf.model_version) o₁ in
      let o₃ = json.set "model_path" (json.of_string conf.model_path) o₂ in
      let o₄ = json.set "backend_type" (json.of_string conf.backend_type) o₃ in
      let o₅ = json.set "engine_path" (json.of_string conf.engine_path) o₄ in
      let o₆ = json.set "input_names" (json.of_strings conf.input_names) o₅ in
      let o₇ = json.set "output_names" (json.of_strings conf.output_names) o₆ in
      let o₈ = json.set "input_shapes" (json.of_shapes conf.input_shapes) o₇ in
      let o₉ = json.set "output_shapes" (json.of_shapes conf.output_shapes) o₈ in
      let o₁₀ = json.set "auto_warmup" (json.of_bool conf.auto_warmup) o₉ in
      let o₁₁ = json.set "max_batch_size" (json.of_size conf.max_batch_size) o₁₀ in
      let o₁₂ = json.set "intra_op_num_threads" (json.of_int conf.intra_op_num_threads) o₁₁ in
      json.set "inter_op_num_threads" (json.of_int conf.inter_op_num_threads) o₁₂

  -- `from_json` into a `RequestInfo{}`.
  unfoldable pub request_from_json : J → Read RequestInfo
  request_from_json j = do
    model_name ← member json json.get_string "model_name" j
    model_version ← optional_member json json.get_string "model_version" j
    request_id ← value_or json json.get_string "request_id" "" j
    timestamp ← value_or json json.get_string "timestamp" "" j
    input_shapes ← value_or json json.get_shapes "input_shapes" [] j
    input_tensor_values ← value_or json json.get_floats "input_tensor_values" [] j
    payload ← optional_member json json.get_string "data" j
    got (record {
      model_name = model_name;
      model_version = model_version;
      request_id = request_id;
      timestamp = timestamp;
      input_shapes = input_shapes;
      input_tensor_values = input_tensor_values;
      payload = payload;
    })

  -- `if (value.has_value()) j[key] = value.value();`
  abbrev pub set_optional {ℓ} : {A : Type ℓ} → (A → J) → String → Option A → O → O
  set_optional of_value key none o = o
  set_optional of_value key (some value) o = json.set key (of_value value) o

  unfoldable pub response_to_json : ResponseInfo → O
  response_to_json response =
      let o₁ = json.set "request_id" (json.of_string response.request_id) json.empty in
      let o₂ = json.set "timestamp" (json.of_string response.timestamp) o₁ in
      let o₃ = json.set "output_shapes" (json.of_shapes response.output_shapes) o₂ in
      let o₄ = json.set "output_tensor_values" (json.of_floats response.output_tensor_values) o₃ in
      let o₅ = set_optional json.of_size "error_code" response.error_code o₄ in
      let o₆ = set_optional json.of_string "error_message" response.error_message o₅ in
      set_optional json.of_string "data" response.payload o₆

  unfoldable pub operation_to_json : OperationInfo → O
  operation_to_json operation =
      let o₁ = json.set "id" (json.of_string operation.id) json.empty in
      let o₂ = json.set "type" (json.of_string (operation_type_to_string operation.type)) o₁ in
      let o₃ = json.set "state" (json.of_string (operation_state_to_string operation.state)) o₂ in
      let o₄ = set_optional json.of_string "message" operation.message o₃ in
      json.set "response" (json.of_object (response_to_json operation.response)) o₄
