-- ===== src/Tests/Service.antt =====
-- The configuration files, the service and its HTTP interface.
use gip.Prelude.{
  ℕ, String, Bool, ◌≡◌, refl, true, false, Option, none, some, [], ◌∷◌, All, string_eq,
}
use gip.Prelude.Dict.{lookup, insert, contains}
use gip.Models.{RequestInfo, fifo, registered, done, request_id}
use gip.Json.{got}
use gip.Convertors.{conf_from_json, conf_to_json}
use gip.Convertors.RoundTrip.{kept_in_json, conf_from_json-to_json}
use gip.ConfigLoad.{load, read_conf}
use gip.ConfigLoad.Defaults.{here, step, loaded_models_route}
use gip.Backends.Onnx.{OnnxBackend, onnx_backend}
use gip.ModelManager.{ModelManager, register_model}
use gip.ModelManager.Lifecycle.{apply, register}
use gip.Policy.{select_strategy}
use gip.Strategy.{strategy_fifo}
use gip.Scheduler.State.{Scheduler, build_admission_context}
use gip.Scheduler.Admission.{must_drop, submit_task}
use gip.Scheduler.Execution.{execute}
use gip.InferService.{
  not_found, submit_inference_request, cancel_inference, get_operation_status, delete_operation,
}
use gip.InferService.Submission.{SubmitResult, submit_inference_request-Result}
use gip.InferService.Cancellation.{CancelAnswer, cancel_inference-Answer}
use gip.InferService.Results.{IsSettled, unit_with, execute-IsSettled, delete_operation-IsUndone}
use gip.HttpApi.{Request}
use gip.HttpApi.Routes.{Surroundings, handle, route_of, inference_submit_result}
use gip.HttpApi.Reads.{OnlyReads, handle-OnlyReads}
use gip.InferenceScenario.{new_scenario, precheck, run, stop_process}
use gip.InferenceScenario.Outcomes.{stopped}
use gip.InferenceScenario.Runs.{stop_comes_late}
use gip.Tests.Fixtures.{echo_ort, resnet_conf, request_for, first_task, second_task, idle, busy}
use gip.Tests.Library.{Value, object, library, library-IsLawful}
use gip.Tests.Scheduling.{always-Responds, idle_models, busy-IsKeyed, calm}

-- Every text is the configuration of the model.
abbrev pub parser : String → Option Value
parser text = some (object (conf_to_json (library (λ t. none)) resnet_conf))

conf_from_json-to_json_example :
    conf_from_json (library parser) (object (conf_to_json (library parser) resnet_conf))
    ≡ got (kept_in_json resnet_conf)
conf_from_json-to_json_example =
    conf_from_json-to_json (library parser) (library-IsLawful parser) resnet_conf

abbrev pub some_file : String → Option String
some_file path = some "{}"

abbrev empty_manager : ModelManager (OnnxBackend ℕ)
empty_manager = record { conf_path_prefix = "conf/"; registry = []; backends = [] }

-- The manager that has registered the model from its file.
abbrev with_resnet : ModelManager (OnnxBackend ℕ)
with_resnet = record empty_manager {
  registry =
      (
        "resnet",
        record {
          model_name = "resnet";
          conf = some (kept_in_json resnet_conf);
          state = registered;
        },
      )
      ∷ [];
}

register_resnet :
    apply (load (library parser) some_file) register "resnet" empty_manager
    ≡ done (with_resnet, true)
unfolding apply register_model load read_conf conf_from_json conf_to_json contains insert lookup
register_resnet = refl

abbrev from_files : Scheduler (OnnxBackend ℕ)
from_files = record idle { model_manager = with_resnet }

loaded_models_route_example :
    (select_strategy (build_admission_context 0 "resnet" from_files) ≡ fifo)
    × (must_drop (build_admission_context 0 "resnet" from_files) (strategy_fifo []) ≡ false)
loaded_models_route_example =
    loaded_models_route (library parser) some_file empty_manager 0 "resnet" (strategy_fifo [])
      from_files refl (step register "resnet" empty_manager with_resnet true here register_resnet)

submit_inference_request-Result_example :
    SubmitResult
      (library parser)
      "7"
      3
      0
      0
      (request_for "")
      idle
      (submit_inference_request (library parser) "7" 3 0 0 (request_for "") idle)
submit_inference_request-Result_example =
    submit_inference_request-Result (library parser) "7" 3 0 0 (request_for "") idle

cancel_inference-Answer_example :
    CancelAnswer
      (library parser)
      calm
      (λ s. s)
      "a"
      busy
      (cancel_inference (library parser) calm (λ s. s) "a" busy)
cancel_inference-Answer_example =
    cancel_inference-Answer (library parser) calm (λ s. s) "a" busy busy-IsKeyed

execute-IsSettled_example :
    All
      (λ t.
        IsSettled
          (library parser)
          (request_id t)
          (execute (λ s. s) (unit_with "resnet" fifo (first_task ∷ second_task ∷ [])) busy).0)
      (first_task ∷ second_task ∷ [])
execute-IsSettled_example =
    execute-IsSettled (library parser) (λ s. s) always-Responds
      (unit_with "resnet" fifo (first_task ∷ second_task ∷ [])) busy idle_models (λ s h. h)
      (λ j s h. h)

abbrev without_operation : Scheduler (OnnxBackend ℕ)
without_operation = delete_operation "a" busy

delete_operation-IsUndone_example :
    (get_operation_status (library parser) "a" without_operation
      ≡ got (not_found, "Operation not found"))
    × (cancel_inference (library parser) calm (λ s. s) "a" without_operation
        ≡ (without_operation, got (not_found, "Operation not found")))
    × IsSettled
        (library parser)
        "a"
        (execute (λ s. s) (unit_with "resnet" fifo (first_task ∷ [])) without_operation).0
delete_operation-IsUndone_example =
    delete_operation-IsUndone (library parser) (λ s. s) always-Responds first_task [] "resnet" fifo
      calm (λ s. s) busy idle_models (λ s h. h) (λ j s h. h)

abbrev around : Surroundings (OnnxBackend ℕ)
around = record {
  load_conf = load (library parser) some_file;
  submit = submit_inference_request (library parser) "7" 3 0 0;
  between = calm;
  later = λ s. s;
}

-- No body, and no parameters.
abbrev bare : Request
bare = record { body = ""; query = λ field. none; param = λ field. none }

-- The request for the result of the first operation.
abbrev asking : Request
asking = record bare { param = λ field. some "a" }

handle-OnlyReads_example :
    OnlyReads busy (handle (library parser) around inference_submit_result asking busy)
unfolding route_of
handle-OnlyReads_example =
    handle-OnlyReads (library parser) around inference_submit_result refl (λ e. cc) asking busy

-- A signal that is never set.
abbrev no_stop : ℕ → Bool
no_stop k = false

abbrev submit_now : RequestInfo → Scheduler (OnnxBackend ℕ) → Scheduler (OnnxBackend ℕ) × Bool
submit_now request s = submit_task 3 0 0 request s

abbrev take_all : RequestInfo → Scheduler (OnnxBackend ℕ) → Scheduler (OnnxBackend ℕ) × Bool
take_all request s = (busy, true)

stop_comes_late_example :
    run
      (library parser)
      take_all
      5
      (stop_process 3)
      (new_scenario true false (request_for "b"))
      idle
    ≡ some (busy, stopped)
unfolding precheck new_scenario
stop_comes_late_example =
    stop_comes_late (library parser) take_all true false (request_for "b") idle busy refl refl refl
