-- ===== src/Platform/Handlers.antt =====
-- What the HTTP handlers keep true of the scheduler.
use gip.Prelude.{String, refl, Option, string_eq}
use gip.Models.{ModelConf, done}
use gip.Json
use gip.Json.{JsonLibrary, Read, got, exception}
use gip.Convertors.{request_from_json}
use gip.Backends.{IBackend}
use gip.Scheduler.State.{Scheduler}
use gip.Scheduler.Cancellation.{Others}
use gip.InferService
use gip.InferService.{Answer, by_manager, submit_inference_request, delete_operation}
use gip.HttpApi.{
  Request, get_body_field, get_path_param, model_register_handler, model_unregister_handler,
  model_load_handler, model_load_delete_handler, model_unload_handler, model_unload_delete_handler,
  model_enable_handler, model_disable_handler, inference_submit_handler,
  inference_submit_delete_handler, inference_cancel_handler,
}
use gip.HttpApi.Routes.{
  Handler, model_register, model_unregister, model_load, model_load_check, model_load_delete,
  model_unload, model_unload_check, model_unload_delete, model_enable, model_disable, model_state,
  inference_state, inference_submit, inference_submit_check, inference_submit_result,
  inference_submit_delete, inference_cancel, handle, route_of,
}
use gip.HttpApi.Reads.{handle-OnlyReads}
use gip.Platform.Commands.{
  Leaves, KeepsTrue, IsKept, on_field-Leaves, on_body_field-Leaves, on_operation_id-Leaves,
  register-Leaves, unregister-Leaves, enable-Leaves, disable-Leaves, load-Leaves, unload-Leaves,
  parsed-Leaves, reads-Leaves, Moment, surroundings,
}

module _ {J O B : Type 0} (json : JsonLibrary J O) ⦃i : IBackend B⦄
    (load_conf : String → Option ModelConf) (P : Scheduler B → Type 0)
    {IsHarmless : Others B → Type 0} (k : IsKept json P IsHarmless) where
  pub handle-Leaves :
      (at : Moment B) (h : Handler) (request : Request) (s : Scheduler B)
      → IsHarmless at.between
      → KeepsTrue P at.later
      → P s
      → Leaves P (handle json (surroundings json load_conf at) h request s)
  unfolding handle model_register_handler model_unregister_handler model_load_handler
      model_load_delete_handler model_unload_handler model_unload_delete_handler
      model_enable_handler model_disable_handler inference_submit_handler
      inference_submit_delete_handler inference_cancel_handler get_path_param route_of
  handle-Leaves at model_register request s b l sound =
      on_body_field-Leaves P s (λ name. done (InferService.register_model load_conf name s)) sound
        (λ name. register-Leaves json load_conf P k name s sound)
        "Missing model_name in request body" (get_body_field json request "model_name")
  handle-Leaves at model_unregister request s b l sound =
      on_body_field-Leaves P s (λ name. done (InferService.unregister_model name s)) sound
        (λ name. unregister-Leaves json load_conf P k name s sound)
        "Missing model_name in request body" (get_body_field json request "model_name")
  handle-Leaves at model_enable request s b l sound =
      on_body_field-Leaves P s (λ name. done (InferService.enable_model name s)) sound
        (λ name. enable-Leaves json load_conf P k name s sound) "Missing model_name in request body"
        (get_body_field json request "model_name")
  handle-Leaves at model_disable request s b l sound =
      on_body_field-Leaves P s (λ name. done (InferService.disable_model name s)) sound
        (λ name. disable-Leaves json load_conf P k name s sound)
        "Missing model_name in request body" (get_body_field json request "model_name")
  handle-Leaves at model_load request s b l sound =
      on_body_field-Leaves P s (λ name. InferService.load_model name s) sound
        (λ name. load-Leaves json load_conf P k name s sound) "Missing model_name in request body"
        (get_body_field json request "model_name")
  handle-Leaves at model_unload request s b l sound =
      on_body_field-Leaves P s (λ name. InferService.unload_model name s) sound
        (λ name. unload-Leaves json load_conf P k name s sound) "Missing model_name in request body"
        (get_body_field json request "model_name")
  handle-Leaves at model_load_delete request s b l sound =
      on_field-Leaves P s (λ id. done (delete_operation id s, got (InferService.no_content, "")))
        sound (λ id. k.deleted id s sound) "Missing or invalid operation_id parameter"
        (request.param ":operation_id")
  handle-Leaves at model_unload_delete request s b l sound =
      on_field-Leaves P s (λ id. done (delete_operation id s, got (InferService.no_content, "")))
        sound (λ id. k.deleted id s sound) "Missing or invalid operation_id parameter"
        (request.param ":operation_id")
  handle-Leaves at inference_submit_delete request s b l sound =
      on_operation_id-Leaves P s
        (λ id. done (delete_operation id s, got (InferService.no_content, ""))) sound
        (λ id. k.deleted id s sound) request
  handle-Leaves at inference_cancel request s b l sound =
      on_operation_id-Leaves P s
        (λ id. done (InferService.cancel_inference json at.between at.later id s)) sound
        (λ id. k.canceled at.between at.later id s b l sound) request
  handle-Leaves at inference_submit request s b l sound =
      parsed-Leaves json load_conf P k (surroundings json load_conf at).submit s
        (λ r. k.submitted at r s sound) sound
        (Json.◌>>=◌ (json.parse request.body) (λ j. request_from_json json j))
  handle-Leaves at model_load_check request s b l sound =
      reads-Leaves json load_conf P k at model_load_check request s sound (
        handle-OnlyReads json (surroundings json load_conf at) model_load_check refl (λ e. cc)
          request s)
  handle-Leaves at model_unload_check request s b l sound =
      reads-Leaves json load_conf P k at model_unload_check request s sound (
        handle-OnlyReads json (surroundings json load_conf at) model_unload_check refl (λ e. cc)
          request s)
  handle-Leaves at model_state request s b l sound =
      reads-Leaves json load_conf P k at model_state request s sound (
        handle-OnlyReads json (surroundings json load_conf at) model_state refl (λ e. cc) request s)
  handle-Leaves at inference_state request s b l sound =
      reads-Leaves json load_conf P k at inference_state request s sound (
        handle-OnlyReads json (surroundings json load_conf at) inference_state refl (λ e. cc)
          request s)
  handle-Leaves at inference_submit_check request s b l sound =
      reads-Leaves json load_conf P k at inference_submit_check request s sound (
        handle-OnlyReads json (surroundings json load_conf at) inference_submit_check refl (λ e. cc)
          request s)
  handle-Leaves at inference_submit_result request s b l sound =
      reads-Leaves json load_conf P k at inference_submit_result request s sound (
        handle-OnlyReads json (surroundings json load_conf at) inference_submit_result refl
          (λ e. cc) request s)
