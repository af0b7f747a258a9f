-- ===== src/Tests/Run.antt =====
-- A new platform that registers, loads and enables a model, takes a request for it, and executes it.
use gip.Prelude.{ℕ, ◌≡◌, refl, true, false, none, some, [], ◌∷◌, string_eq}
use gip.Prelude.Dict.{lookup, insert, get_or}
use gip.Models.{
  OperationInfo, failure, empty_response, set_cell, new_cell, DispatchUnit, Task, done, Outcome,
  ModelState, registered, loaded, enabled, fifo, max_throughput, onnx_runtime,
}
use gip.Json.{got}
use gip.Convertors.{conf_to_json, conf_from_json, request_from_json}
use gip.ConfigLoad.{load}
use gip.Backends.{register_backend, backend_type_from_string, get_backend}
use gip.Backends.Onnx
use gip.ModelManager
use gip.ModelManager.{resolve_model}
use gip.Operations.{add_operation}
use gip.Policy.{select_strategy}
use gip.Fifo
use gip.Strategy
use gip.Scheduler.Admission
use gip.Scheduler.Admission.{submit_task, route, must_drop, enter_strategy, choose_strategy}
use gip.Backends.Onnx.{OnnxBackend, onnx_backend}
use gip.Convertors.RoundTrip.{kept_in_json}
use gip.Strategy.{strategy_fifo, strategy_batch}
use gip.Scheduler.Stats.{count_admitted, admit_model_stat, record_model_result}
use gip.InferService.{submitted}
use gip.InferService.Preparation.{task_for}
use gip.Scheduler.State.{
  Scheduler, tracked_task, no_stats, new_scheduler, find_strategy, build_admission_context,
  track_task, set_operation, forget_task,
}
use gip.Scheduler.Cancellation.Search.{all_waiting}
use gip.Scheduler.Dispatch.{
  after_wait, unlock_strategies, lock_strategies, select_ready_unit, select_from, snapshot_in,
  dispatch_unit,
}
use gip.Prelude.Int.{pos}
use gip.Batch.Revocation.{pending_tasks}
use gip.Strategy.Revocation.{waiting}
use gip.Scheduler.Execution.{
  run_job, execute, execute_tasks, execute_task, run_model, run_backend, after_infer, conclude,
  report_failure,
}
use gip.InferService
use gip.InferService.{Answer, submit_inference_request, register_model, load_model, enable_model}
use gip.HttpApi.{
  Request, get_body_field, model_register_handler, model_load_handler, model_enable_handler,
  inference_submit_handler,
}
use gip.HttpApi.Routes.{Handler, model_register, model_load, model_enable, inference_submit, handle}
use gip.Platform.{new_platform}
use gip.Platform.Commands.{Moment, surroundings}
use gip.Operations.{get_operation}
use gip.Scheduler.Execution.Conclusion.{operation_of}
use gip.Tests.Fixtures.{echo_ort, request_for, resnet_conf}
use gip.Tests.Library.{library}
use gip.Tests.Service.{parser, some_file}

abbrev pub fresh : Scheduler (OnnxBackend ℕ)
fresh = new_platform [] "configs" 4

abbrev pub moment : Moment (OnnxBackend ℕ)
moment = record {
  ticks = "7";
  address = 1;
  built = 0;
  now = 0;
  between = λ gap s. s;
  later = λ s. s;
}

-- The body names the model.
abbrev pub naming : Request
naming = record { body = "{}"; query = λ field. none; param = λ field. none }

-- What a call returns, if it does.
abbrev returned : Outcome (Scheduler (OnnxBackend ℕ) × Answer) → Scheduler (OnnxBackend ℕ) × Answer
returned (done r) = r
returned _ = (fresh, got (InferService.internal_server_error, ""))

abbrev pub call : Handler → Scheduler (OnnxBackend ℕ) → Outcome (Scheduler (OnnxBackend ℕ) × Answer)
call h s =
    handle (library parser) (surroundings (library parser) (load (library parser) some_file) moment)
      h naming s

abbrev pub answer : Handler → Scheduler (OnnxBackend ℕ) → Answer
answer h s = (returned (call h s)).1

abbrev pub with_model : ModelState → OnnxBackend ℕ → Scheduler (OnnxBackend ℕ)
with_model st held = record fresh {
  model_manager = record {
    conf_path_prefix = "configs/models/";
    registry =
        (
          "resnet",
          record { model_name = "resnet"; conf = some (kept_in_json resnet_conf); state = st },
        )
        ∷ [];
    backends = (onnx_runtime, held) ∷ [];
  };
}

abbrev pub session : OnnxBackend ℕ
session = ("resnet", record { model_conf = kept_in_json resnet_conf; session = 7 }) ∷ []

abbrev pub ready : Scheduler (OnnxBackend ℕ)
ready = with_model enabled session

abbrev pub task : Task
task = task_for "op-7" 1 0 (record (request_for "") {
  model_version = some "";
  input_shapes = (pos 1 ∷ pos 2 ∷ []) ∷ [];
  input_tensor_values = [];
})

abbrev pub accepted : Scheduler (OnnxBackend ℕ)
accepted = record ready {
  op_repository = ("op-7", submitted "op-7") ∷ [];
  tracked_tasks = ("op-7", task) ∷ [];
  strategies = (fifo, strategy_fifo (task ∷ [])) ∷ (max_throughput, strategy_batch []) ∷ [];
  model_stats = ("resnet", count_admitted no_stats) ∷ [];
  cells = set_cell task new_cell (set_cell task new_cell (λ address. new_cell));
}

pub registers :
    call model_register fresh ≡ done (with_model registered [], answer model_register fresh)
unfolding handle model_register_handler get_body_field conf_to_json register_model
    ModelManager.register_model new_platform new_scheduler load conf_from_json insert
    register_backend
registers = refl

pub loads :
    call model_load (with_model registered [])
    ≡ done (with_model loaded session, answer model_load (with_model registered []))
unfolding handle model_load_handler get_body_field conf_to_json load_model ModelManager.load_model
    lookup backend_type_from_string get_backend Onnx.load Onnx.warmup insert
loads = refl

pub enables :
    call model_enable (with_model loaded session)
    ≡ done (ready, answer model_enable (with_model loaded session))
unfolding handle model_enable_handler get_body_field conf_to_json enable_model
    ModelManager.enable_model lookup insert
enables = refl

pub submits : call inference_submit ready ≡ done (accepted, answer inference_submit ready)
unfolding handle inference_submit_handler request_from_json conf_to_json submit_inference_request
    resolve_model lookup InferService.after_submit submit_task Admission.admit new_platform
    new_scheduler route find_strategy select_strategy build_admission_context must_drop
    Strategy.pending_task_count Fifo.pending_task_count enter_strategy Strategy.admit Fifo.admit
    insert track_task add_operation admit_model_stat count_admitted
    InferService.generate_operation_id get_or choose_strategy
submits = refl

abbrev pub unit : DispatchUnit
unit = record { model_name = "resnet"; strategy = fifo; tasks = task ∷ [] }

abbrev pub queued : Scheduler (OnnxBackend ℕ)
queued = record accepted {
  inflight_task_count = 1;
  strategies = (fifo, strategy_fifo []) ∷ (max_throughput, strategy_batch []) ∷ [];
  thread_pool = unit ∷ [];
}

-- By a dispatcher that has given the mutex back.
pub sends : after_wait true 0 accepted ≡ done (queued, false)
unfolding after_wait unlock_strategies lock_strategies new_platform new_scheduler select_ready_unit
    select_from snapshot_in Strategy.select Fifo.select dispatch_unit
sends = refl

-- The tensor of the request does not fit the model.
abbrev pub failed : OperationInfo
failed =
    operation_of "op-7" failure
      (record empty_response {
        request_id = "op-7";
        error_message = some "input tensor size does not match input shape";
      })
      (some "input tensor size does not match input shape")

abbrev pub finished : Scheduler (OnnxBackend ℕ)
finished = (run_job (λ s. s) queued).0

-- The state after the job.
pub ended :
    (all_waiting finished.strategies ≡ [])
    × (finished.thread_pool ≡ [])
    × (get_operation "op-7" finished.op_repository ≡ some failed)
unfolding get_operation all_waiting waiting pending_tasks run_job execute execute_tasks execute_task
    run_model run_backend after_infer conclude report_failure record_model_result set_operation
    forget_task resolve_model backend_type_from_string get_backend lookup insert Onnx.infer
    Onnx.tensor_element_count new_platform new_scheduler
ended = (refl, refl, refl)

pub tracks : tracked_task "op-7" accepted ≡ some task
unfolding tracked_task lookup
tracks = refl
