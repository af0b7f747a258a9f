-- ===== src/Tests/Fixtures.antt =====
-- A small platform for the examples: one model on ONNX Runtime, and a few requests.
use gip.Prelude.{ℕ, String, none, some, [], ◌∷◌, inl, Option}
use gip.Prelude.Int.{pos}
use gip.Models.{
  ModelConf, ModelMeta, default_conf, ModelState, enabled, max_throughput, onnx_runtime,
  RequestInfo, Task, ongoing, pending, OperationState, OperationInfo, submit_inference,
  empty_response,
}
use gip.Backends.Onnx.{Ort, OnnxBackend}
use gip.ModelManager.{ModelManager}
use gip.Scheduler.State.{Scheduler, new_scheduler}

-- It opens every model as session 7, and answers every run with one empty tensor.
instance abbrev pub echo_ort : Ort ℕ
echo_ort = record {
  create_session = λ path options. inl 7;
  run_session = λ session input_names shape values output_names.
      inl (record { shape = inl shape; values = inl values } ∷ []);
}

abbrev pub resnet_conf : ModelConf
resnet_conf = record default_conf {
  model_name = "resnet";
  model_path = "resnet.onnx";
  backend_type = "ONNXRuntime";
  input_names = "x" ∷ [];
  output_names = "y" ∷ [];
  input_shapes = (pos 1 ∷ pos 2 ∷ []) ∷ [];
  max_batch_size = 2;
  schedule_strategy = max_throughput;
}

abbrev pub conf_files : String → Option ModelConf
conf_files path = some resnet_conf

abbrev pub resnet : ModelState → ModelMeta
resnet st = record { model_name = "resnet"; conf = some resnet_conf; state = st }

abbrev pub sessions : OnnxBackend ℕ
sessions = ("resnet", record { model_conf = resnet_conf; session = 7 }) ∷ []

abbrev pub manager : ModelState → OnnxBackend ℕ → ModelManager (OnnxBackend ℕ)
manager st held = record {
  conf_path_prefix = "conf/";
  registry = ("resnet", resnet st) ∷ [];
  backends = (onnx_runtime, held) ∷ [];
}

abbrev pub request_for : String → RequestInfo
request_for id = record {
  model_name = "resnet";
  model_version = none;
  request_id = id;
  timestamp = "";
  input_shapes = [];
  input_tensor_values = 5 ∷ 6 ∷ [];
  payload = none;
}

abbrev pub task_of : ℕ → String → ℕ → Task
task_of address id built = record {
  address = address;
  request = request_for id;
  enqueued_at = built;
}

abbrev pub first_task : Task
first_task = task_of 1 "a" 0

abbrev pub second_task : Task
second_task = task_of 2 "b" 1000000

abbrev pub operation_in : String → OperationState → OperationInfo
operation_in id st = record {
  id = id;
  type = submit_inference;
  state = st;
  message = none;
  response = empty_response;
}

-- Four workers.
abbrev pub idle : Scheduler (OnnxBackend ℕ)
idle = new_scheduler (manager enabled sessions) (("a", operation_in "a" pending) ∷ []) 4

-- The first task is with a worker.
abbrev pub busy : Scheduler (OnnxBackend ℕ)
busy = record idle {
  op_repository = ("a", operation_in "a" ongoing) ∷ [];
  inflight_task_count = 1;
  tracked_tasks = ("a", first_task) ∷ [];
}
