-- ===== src/InferService.antt =====
-- `InferService` (include/server/InferService.hpp, src/server/InferService.cpp). The objects that it
-- shares with the scheduler are parts of the scheduler's state. A call ends with an answer, or a
-- `std::exception`; `load_model` and `unload_model` may end otherwise too (`Outcome`).
pub mod Results
pub mod Preparation
pub mod Submission
pub mod Cancellation
use Prim.Native.String.{◌++◌ as str_append}
use gip.Prelude.{
  ℕ, String, Bool, true, false, Option, none, some, ◌==◌, ◌||◌, string_eq, if◌then◌else◌,
}
use gip.Models.{
  ModelConf, ModelMeta, ModelState, enabled, model_state_eq, OperationInfo, OperationState, pending,
  success, failure, canceled, cancel_requested, operation_state_eq, submit_inference, RequestInfo,
  empty_response, Outcome, done, ◌>>=◌,
}
use gip.Json
use gip.Json.{JsonLibrary, Read, got}
use gip.Convertors.{model_state_to_string, operation_to_json, response_to_json}
use gip.Operations.{add_operation, get_operation, update_operation, remove_operation}
use gip.Backends.{IBackend}
use gip.ModelManager
use gip.ModelManager.{ModelManager, resolve_model}
use gip.Scheduler.State.{Scheduler}
use gip.Scheduler.Admission.{submit_task}
use gip.Scheduler.Cancellation.{Others, before_call, cancel_task}

-- The members of `Pistache::Http::Code` that the service and its API answer.
pub data Code : Type 0 where
  ok : Code
  accepted : Code
  no_content : Code
  bad_request : Code
  not_found : Code
  conflict : Code
  internal_server_error : Code
  service_unavailable : Code

abbrev pub Response : Type 0
Response = Code × String

-- An answer, or an exception that leaves the function.
abbrev pub Answer : Type 0
Answer = Read Response

-- `{code, value.dump()}`
abbrev pub dumped : {J O : Type 0} → JsonLibrary J O → Code → J → Answer
dumped json code value = Json.◌>>=◌ (json.dump value) (λ text. got (code, text))

-- `ticks` is the count of the steady clock, as `std::to_string` prints it.
unfoldable pub generate_operation_id : String → String
generate_operation_id ticks = str_append "op-" ticks

module _ {B : Type 0} where
  abbrev pub with_manager : ModelManager B → Scheduler B → Scheduler B
  with_manager m s = record s { model_manager = m }

  -- `{Code::Ok, good}` if the manager has answered `true`, and `{Code::Bad_Request, bad}` if not.
  abbrev pub by_manager :
      String → String → ModelManager B × Bool → Scheduler B → Scheduler B × Answer
  by_manager good bad (m, true) s = (with_manager m s, got (ok, good))
  by_manager good bad (m, false) s = (with_manager m s, got (bad_request, bad))

  unfoldable pub register_model :
      (String → Option ModelConf) → String → Scheduler B → Scheduler B × Answer
  register_model load_conf name s =
      by_manager "Model registered successfully" "Failed to register model"
        (ModelManager.register_model load_conf name s.model_manager) s

  unfoldable pub unregister_model : String → Scheduler B → Scheduler B × Answer
  unregister_model name s =
      by_manager "Model unregistered successfully" "Failed to unregister model"
        (ModelManager.unregister_model name s.model_manager) s

  unfoldable pub enable_model : String → Scheduler B → Scheduler B × Answer
  enable_model name s =
      by_manager "Model enabled successfully" "Failed to enable model"
        (ModelManager.enable_model name s.model_manager) s

  unfoldable pub disable_model : String → Scheduler B → Scheduler B × Answer
  disable_model name s =
      by_manager "Model disabled successfully" "Failed to disable model"
        (ModelManager.disable_model name s.model_manager) s

  unfoldable pub delete_operation : String → Scheduler B → Scheduler B
  unfolding remove_operation
  delete_operation id s = record s { op_repository = remove_operation id s.op_repository }

module _ {B : Type 0} ⦃i : IBackend B⦄ where
  unfoldable pub load_model : String → Scheduler B → Outcome (Scheduler B × Answer)
  load_model name s = do
    r ← ModelManager.load_model name s.model_manager
    done (by_manager "Model loaded successfully" "Failed to load model" r s)

  unfoldable pub unload_model : String → Scheduler B → Outcome (Scheduler B × Answer)
  unload_model name s = do
    r ← ModelManager.unload_model name s.model_manager
    done (by_manager "Model unloaded successfully" "Failed to unload model" r s)

-- The operation of a new submission.
abbrev pub submitted : String → OperationInfo
submitted id = record {
  id = id;
  type = submit_inference;
  state = pending;
  message = none;
  response = empty_response;
}

module _ {J O : Type 0} (json : JsonLibrary J O) where
  -- `{code, nlohmann::json(op_info).dump()}`
  abbrev pub dumped_operation : Code → OperationInfo → Answer
  dumped_operation code op_info = dumped json code (json.of_object (operation_to_json json op_info))

  -- The chain of tests on the state of the operation.
  unfoldable pub result_of : OperationInfo → Answer
  result_of op_info =
      if op_info.state == success
      then dumped json ok (json.of_object (response_to_json json op_info.response))
      else if op_info.state == canceled
      then got (conflict, "inference was canceled")
      else if op_info.state == cancel_requested
      then got (accepted, "Cancellation is in progress")
      else if op_info.state == failure
      then got (bad_request, "inference failed, no result available")
      else got (accepted, "Inference is still in progress")

module _ {J O : Type 0} (json : JsonLibrary J O) {B : Type 0} where
  unfoldable pub get_model_state : String → Scheduler B → Answer
  get_model_state name s =
      let meta = resolve_model name s.model_manager in
      elim meta.conf [
        | none ↦ got (not_found, "Model not found")
        | some conf ↦
            let o₁ = json.set "model_name" (json.of_string meta.model_name) json.empty in
            let o₂ = json.set "state" (json.of_string (model_state_to_string meta.state)) o₁ in
            let o₃ = json.set "backend_type" (json.of_string conf.backend_type) o₂ in
            dumped json ok (json.of_object o₃)
      ]

  -- The branches on what `submitTask` has answered.
  unfoldable pub after_submit : OperationInfo → Scheduler B × Bool → Scheduler B × Answer
  unfolding update_operation
  after_submit op_info (s, true) = (s, dumped_operation json accepted op_info)
  after_submit op_info (s, false) = (
    record s {
      op_repository =
          update_operation op_info.id
            (record op_info {
              state = failure;
              message = some "Failed to submit inference request";
            })
            s.op_repository;
    },
    got (service_unavailable, "Failed to submit inference request"),
  )

  -- `address` is where the task is stored, and `built` and `now` are the clocks that its
  -- constructor and the scheduler read.
  unfoldable pub submit_inference_request :
      String → ℕ → ℕ → ℕ → RequestInfo → Scheduler B → Scheduler B × Answer
  unfolding add_operation
  submit_inference_request ticks address built now request_info s =
      let meta = resolve_model request_info.model_name s.model_manager in
      elim meta.conf [
        | none ↦ (s, got (not_found, "Model not found"))
        | some conf ↦
            if meta.state == enabled
            then (let id = generate_operation_id ticks in
                let request = record request_info { request_id = id } in
                let added = record s {
                  op_repository = add_operation (submitted id) s.op_repository;
                } in
                after_submit (submitted id) (submit_task address built now request added))
            else (s, got (bad_request, "Model is not enabled"))
      ]

  unfoldable pub get_operation_status : String → Scheduler B → Answer
  get_operation_status id s = elim (get_operation id s.op_repository) [
    | none ↦ got (not_found, "Operation not found")
    | some op_info ↦ dumped_operation json ok op_info
  ]

  unfoldable pub get_operation_result : String → Scheduler B → Answer
  get_operation_result id s = elim (get_operation id s.op_repository) [
    | none ↦ got (not_found, "Operation not found")
    | some op_info ↦ result_of json op_info
  ]

  -- What follows the call of `cancelTask`.
  unfoldable pub after_cancel : String → Scheduler B × Bool → Scheduler B × Answer
  after_cancel id (s, false) = (s, got (conflict, "Operation could not be canceled"))
  after_cancel id (s, true) = elim (get_operation id s.op_repository) [
    | none ↦ (s, got (ok, "Operation canceled"))
    | some canceled_info ↦ (
      s,
      (if canceled_info.state == canceled
          then dumped_operation json ok canceled_info
          else if canceled_info.state == cancel_requested
          then dumped_operation json accepted canceled_info
          else dumped_operation json ok canceled_info),
    )
  ]

  -- `between` is what other threads do after the first look at the operation and inside of
  -- `cancelTask`, and `later` what they do between its return and the second look.
  unfoldable pub cancel_inference :
      Others B → (Scheduler B → Scheduler B) → String → Scheduler B → Scheduler B × Answer
  cancel_inference between later id s = elim (get_operation id s.op_repository) [
    | none ↦ (s, got (not_found, "Operation not found"))
    | some op_info ↦
        if op_info.state == canceled
        then (s, dumped_operation json ok op_info)
        else if op_info.state == success || op_info.state == failure
        then (s, got (conflict, "Operation already finished and cannot be canceled"))
        else let (s', was_canceled) = cancel_task between id (between before_call s) in
          after_cancel id (later s', was_canceled)
  ]
