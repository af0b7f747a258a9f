-- ===== src/Platform.antt =====
-- `InferencePlatform` (src/core/Inference.cpp): the objects of the platform, put together.
pub mod Models
pub mod Commands
pub mod Handlers
pub mod Soundness
pub mod Places
pub mod Runs
pub mod Pool
use Prim.Native.String.{◌++◌ as str_append}
use gip.Prelude.{ℕ, String, none, []}
use gip.Models.{onnx_runtime}
use gip.Backends.{BackendManager, register_backend}
use gip.ModelManager.{ModelManager}
use gip.Scheduler.State.{Scheduler, new_scheduler}

module _ {B : Type 0} (onnx : B) where
  abbrev pub first_backends : BackendManager B
  first_backends = (register_backend onnx onnx_runtime none []).0

  abbrev pub first_manager : String → ModelManager B
  first_manager config_path = record {
    conf_path_prefix = str_append config_path "/models/";
    registry = [];
    backends = first_backends;
  }

  -- `onnx` is the new `ONNXRuntimeBackend`, and `hardware` is `hardware_concurrency()`.
  unfoldable pub new_platform : String → ℕ → Scheduler B
  new_platform config_path hardware = new_scheduler (first_manager config_path) [] hardware
