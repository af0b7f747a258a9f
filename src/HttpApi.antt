-- ===== src/HttpApi.antt =====
-- `InferServiceApiImpl` (src/server/http/InferServiceApiImpl.cpp): the routes of the HTTP interface
-- and their handlers. Pistache is a library of its own: a `Request` is what the handlers read of
-- one, and an answer is what they pass to `response.send`.
pub mod Routes
pub mod Reads
use Prim.Native.String.{◌++◌ as str_append}
use gip.Prelude.{ℕ, String, Bool, true, false, Option, none, some, ◌==◌, string_eq, if◌then◌else◌}
use gip.Models.{ModelConf, RequestInfo, Outcome, done}
use gip.Json.{JsonLibrary, Read, got, exception, member, ◌>>=◌}
use gip.Convertors.{request_from_json}
use gip.Backends.{IBackend}
use gip.Scheduler.Cancellation.{Others}
use gip.Scheduler.State.{Scheduler}
use gip.InferService
use gip.InferService.{
  Code, bad_request, no_content, internal_server_error, Response, Answer, get_model_state,
  get_operation_status, get_operation_result, submit_inference_request, cancel_inference,
}

-- `Pistache::Rest::Request`: its body, and its query and path parameters by name; `param` throws
-- for a name that the route does not have, which is `none`.
pub record Request : Type 0 where
  pub body : String
  pub query : String → Option String
  pub param : String → Option String

unfoldable pub get_query_field : Request → String → Option String
get_query_field request field = request.query field

unfoldable pub get_path_param : Request → String → Option String
get_path_param request field = request.param field

module _ {J O : Type 0} (json : JsonLibrary J O) where
  -- The member of an object, if it is a string.
  abbrev pub string_member : String → J → Read (Option String)
  string_member field j = do
    value ← json.at field j
    if json.is_string value then (do text ← json.get_string value; got (some text)) else got none

  unfoldable pub get_body_field : Request → String → Read (Option String)
  get_body_field request field =
      if request.body == "" then got none else elim (json.parse_or_discard request.body) [
        | none ↦ got none
        | some j ↦ if json.contains field j then string_member field j else got none
      ]

-- `if (!field.has_value() || field->empty()) { response.send(Bad_Request, missing); return; }`
abbrev pub on_field :
    {B : Type 0}
    → String
    → Option String
    → Scheduler B
    → (String → Outcome (Scheduler B × Answer))
    → Outcome (Scheduler B × Answer)
on_field missing none s next = done (s, got (bad_request, missing))
on_field missing (some value) s next =
    if value == "" then done (s, got (bad_request, missing)) else next value

-- The same on a field of the body, whose reading may throw.
abbrev pub on_body_field :
    {B : Type 0}
    → String
    → Read (Option String)
    → Scheduler B
    → (String → Outcome (Scheduler B × Answer))
    → Outcome (Scheduler B × Answer)
on_body_field missing (got field) s next = on_field missing field s next
on_body_field missing (exception e) s next = done (s, exception e)

-- The `try` around `request.param(":operation_id")`, and the test for the empty string.
abbrev pub on_operation_id :
    {B : Type 0}
    → Request
    → Scheduler B
    → (String → Outcome (Scheduler B × Answer))
    → Outcome (Scheduler B × Answer)
on_operation_id request s next = elim (request.param ":operation_id") [
  | none ↦ done (s, got (bad_request, "Missing or invalid operation_id parameter"))
  | some id ↦
      if id == "" then done (s, got (bad_request, "Missing request_id parameter")) else next id
]

module _ {J O : Type 0} (json : JsonLibrary J O) {B : Type 0} where
  unfoldable pub model_register_handler :
      (String → Option ModelConf) → Request → Scheduler B → Outcome (Scheduler B × Answer)
  model_register_handler load_conf request s =
      on_body_field "Missing model_name in request body" (get_body_field json request "model_name")
        s (λ name. done (InferService.register_model load_conf name s))

  unfoldable pub model_unregister_handler : Request → Scheduler B → Outcome (Scheduler B × Answer)
  model_unregister_handler request s =
      on_body_field "Missing model_name in request body" (get_body_field json request "model_name")
        s (λ name. done (InferService.unregister_model name s))

  unfoldable pub model_enable_handler : Request → Scheduler B → Outcome (Scheduler B × Answer)
  model_enable_handler request s =
      on_body_field "Missing model_name in request body" (get_body_field json request "model_name")
        s (λ name. done (InferService.enable_model name s))

  unfoldable pub model_disable_handler : Request → Scheduler B → Outcome (Scheduler B × Answer)
  model_disable_handler request s =
      on_body_field "Missing model_name in request body" (get_body_field json request "model_name")
        s (λ name. done (InferService.disable_model name s))

  unfoldable pub model_load_check_handler : Request → Scheduler B → Outcome (Scheduler B × Answer)
  model_load_check_handler request s =
      on_field "Missing or invalid operation_id parameter" (get_path_param request ":operation_id")
        s (λ id. done (s, get_operation_status json id s))

  unfoldable pub model_unload_check_handler : Request → Scheduler B → Outcome (Scheduler B × Answer)
  model_unload_check_handler request s =
      on_field "Missing or invalid operation_id parameter" (get_path_param request ":operation_id")
        s (λ id. done (s, get_operation_status json id s))

  unfoldable pub model_state_handler : Request → Scheduler B → Outcome (Scheduler B × Answer)
  model_state_handler request s =
      on_field "Missing model_name query parameter" (get_query_field request "model_name") s
        (λ name. done (s, get_model_state json name s))

  unfoldable pub inference_state_handler : Request → Scheduler B → Outcome (Scheduler B × Answer)
  inference_state_handler request s =
      on_field "Missing operation_id query parameter" (get_query_field request "operation_id") s
        (λ id. done (s, get_operation_status json id s))

  -- The second `try`: an exception of the service becomes an answer.
  abbrev pub answer_error : Scheduler B × Answer → Scheduler B × Answer
  answer_error (s, got r) = (s, got r)
  answer_error (s, exception e) =
      (s, got (internal_server_error, str_append "Error submitting inference request: " e))

  abbrev pub submit_parsed :
      (RequestInfo → Scheduler B → Scheduler B × Answer)
      → Read RequestInfo
      → Scheduler B
      → Outcome (Scheduler B × Answer)
  submit_parsed submit (exception e) s =
      done (s, got (bad_request, str_append "Invalid JSON format: " e))
  submit_parsed submit (got request_info) s = done (answer_error (submit request_info s))

  -- `submit` is `submit_inference_request` at the clocks and the address of the call.
  unfoldable pub inference_submit_handler :
      (RequestInfo → Scheduler B → Scheduler B × Answer)
      → Request
      → Scheduler B
      → Outcome (Scheduler B × Answer)
  inference_submit_handler submit request s =
      submit_parsed submit (do j ← json.parse request.body; request_from_json json j) s

  unfoldable pub inference_submit_check_handler :
      Request → Scheduler B → Outcome (Scheduler B × Answer)
  inference_submit_check_handler request s =
      on_operation_id request s (λ id. done (s, get_operation_status json id s))

  unfoldable pub inference_submit_result_handler :
      Request → Scheduler B → Outcome (Scheduler B × Answer)
  inference_submit_result_handler request s =
      on_operation_id request s (λ id. done (s, get_operation_result json id s))

  -- `between` and `later` are what other threads do during the call.
  unfoldable pub inference_cancel_handler :
      Others B
      → (Scheduler B → Scheduler B)
      → Request
      → Scheduler B
      → Outcome (Scheduler B × Answer)
  inference_cancel_handler between later request s =
      on_operation_id request s (λ id. done (cancel_inference json between later id s))

module _ {J O : Type 0} (json : JsonLibrary J O) {B : Type 0} ⦃i : IBackend B⦄ where
  unfoldable pub model_load_handler : Request → Scheduler B → Outcome (Scheduler B × Answer)
  model_load_handler request s =
      on_body_field "Missing model_name in request body" (get_body_field json request "model_name")
        s (λ name. InferService.load_model name s)

  unfoldable pub model_unload_handler : Request → Scheduler B → Outcome (Scheduler B × Answer)
  model_unload_handler request s =
      on_body_field "Missing model_name in request body" (get_body_field json request "model_name")
        s (λ name. InferService.unload_model name s)

module _ {B : Type 0} where
  unfoldable pub default_handler : Request → Scheduler B → Outcome (Scheduler B × Answer)
  default_handler request s = done (s, got (internal_server_error, "not supported"))

  unfoldable pub model_load_delete_handler : Request → Scheduler B → Outcome (Scheduler B × Answer)
  model_load_delete_handler request s =
      on_field "Missing or invalid operation_id parameter" (get_path_param request ":operation_id")
        s (λ id. done (InferService.delete_operation id s, got (no_content, "")))

  unfoldable pub model_unload_delete_handler :
      Request → Scheduler B → Outcome (Scheduler B × Answer)
  model_unload_delete_handler request s =
      on_field "Missing or invalid operation_id parameter" (get_path_param request ":operation_id")
        s (λ id. done (InferService.delete_operation id s, got (no_content, "")))

  unfoldable pub inference_submit_delete_handler :
      Request → Scheduler B → Outcome (Scheduler B × Answer)
  inference_submit_delete_handler request s =
      on_operation_id request s
        (λ id. done (InferService.delete_operation id s, got (no_content, "")))
