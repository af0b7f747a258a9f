-- ===== src/HttpApi/Routes.antt =====
-- The table that `setupRoutes` gives to the router, and the call of the handler of a route. The
-- router itself is Pistache's.
use Prim.Native.String.{◌++◌ as str_append}
use gip.Prelude.{String, Option}
use gip.Models.{ModelConf, RequestInfo, Outcome}
use gip.Json.{JsonLibrary}
use gip.Backends.{IBackend}
use gip.Scheduler.Cancellation.{Others}
use gip.Scheduler.State.{Scheduler}
use gip.InferService.{Answer}
use gip.HttpApi
use gip.HttpApi.{Request}

pub data Method : Type 0 where
  get : Method
  post : Method
  delete : Method

pub data Handler : Type 0 where
  model_register : Handler
  model_unregister : Handler
  model_load : Handler
  model_load_check : Handler
  model_load_delete : Handler
  model_unload : Handler
  model_unload_check : Handler
  model_unload_delete : Handler
  model_enable : Handler
  model_disable : Handler
  model_state : Handler
  inference_state : Handler
  inference_submit : Handler
  inference_submit_check : Handler
  inference_submit_result : Handler
  inference_submit_delete : Handler
  inference_cancel : Handler

pub record Route : Type 0 where
  pub method : Method
  pub path : String
  pub handler : Handler

abbrev route : Method → String → Handler → Route
route method path handler = record {
  method = method;
  path = str_append "/api/infer/v1" path;
  handler = handler;
}

-- The entry of each handler.
unfoldable pub route_of : Handler → Route
route_of model_register = route post "/model/register" model_register
route_of model_unregister = route post "/model/unregister" model_unregister
route_of model_load = route post "/model/load" model_load
route_of model_load_check = route get "/model/load/:operation_id" model_load_check
route_of model_load_delete = route delete "/model/load/:operation_id" model_load_delete
route_of model_unload = route post "/model/unload" model_unload
route_of model_unload_check = route get "/model/unload/:operation_id" model_unload_check
route_of model_unload_delete = route delete "/model/unload/:operation_id" model_unload_delete
route_of model_enable = route post "/model/enable" model_enable
route_of model_disable = route post "/model/disable" model_disable
route_of model_state = route get "/model/state" model_state
route_of inference_state = route get "/inference/state" inference_state
route_of inference_submit = route post "/inference/submit" inference_submit
route_of inference_submit_check = route get "/inference/submit/:operation_id" inference_submit_check
route_of inference_submit_result =
    route get "/inference/submit/:operation_id/result" inference_submit_result
route_of inference_submit_delete =
    route delete "/inference/submit/:operation_id" inference_submit_delete
route_of inference_cancel = route get "/inference/cancel/:operation_id" inference_cancel

-- What a call finds outside of the state: the configuration files, the submission at the clocks and
-- the address of the call, and what other threads do during a cancellation.
pub record Surroundings (B : Type 0) : Type 0 where
  pub load_conf : String → Option ModelConf
  pub submit : RequestInfo → Scheduler B → Scheduler B × Answer
  pub between : Others B
  pub later : Scheduler B → Scheduler B

module _ {J O : Type 0} (json : JsonLibrary J O) {B : Type 0} ⦃i : IBackend B⦄
    (around : Surroundings B) where
  unfoldable pub handle : Handler → Request → Scheduler B → Outcome (Scheduler B × Answer)
  handle model_register = HttpApi.model_register_handler json around.load_conf
  handle model_unregister = HttpApi.model_unregister_handler json
  handle model_load = HttpApi.model_load_handler json
  handle model_load_check = HttpApi.model_load_check_handler json
  handle model_load_delete = HttpApi.model_load_delete_handler
  handle model_unload = HttpApi.model_unload_handler json
  handle model_unload_check = HttpApi.model_unload_check_handler json
  handle model_unload_delete = HttpApi.model_unload_delete_handler
  handle model_enable = HttpApi.model_enable_handler json
  handle model_disable = HttpApi.model_disable_handler json
  handle model_state = HttpApi.model_state_handler json
  handle inference_state = HttpApi.inference_state_handler json
  handle inference_submit = HttpApi.inference_submit_handler json around.submit
  handle inference_submit_check = HttpApi.inference_submit_check_handler json
  handle inference_submit_result = HttpApi.inference_submit_result_handler json
  handle inference_submit_delete = HttpApi.inference_submit_delete_handler
  handle inference_cancel = HttpApi.inference_cancel_handler json around.between around.later
