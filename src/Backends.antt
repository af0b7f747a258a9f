-- ===== src/Backends.antt =====
-- `IBackend` (include/backends/IBackend.hpp), `BackendManager` (src/backends/BackendManager.cpp)
-- and the conversion of backend types (src/common/Convertors.cpp).
pub mod Onnx
use Prim.Native.String.{◌++◌ as str_append}
use gip.Prelude.{String, Bool, true, false, Option, none, some, ◌==◌, string_eq, if◌then◌else◌}
use gip.Prelude.Dict.{Dict, lookup, insert, contains}
use gip.Models.{
  BackendType, onnx_runtime, tensor_rt, open_vino, custom, backend_type_eq, ModelConf, RequestInfo,
  ResponseInfo, Outcome, done, throws,
}

-- The virtual methods of `IBackend`, over the type of a backend object. A call that changes the
-- object returns the new one; a call that throws leaves it as it was. `infer` changes its response
-- argument only, as `ONNXRuntimeBackend`, the one implementation, does.
pub record IBackend (B : Type 0) : Type 0 where
  pub load : ModelConf → B → Outcome (B × Bool)
  pub unload : String → B → Outcome (B × Bool)
  pub warmup : String → B → Outcome (B × Bool)
  pub infer : RequestInfo → ResponseInfo → B → Outcome (ResponseInfo × Bool)

abbrev pub BackendManager : Type 0 → Type 0
BackendManager B = Dict BackendType B

unfoldable pub backend_type_to_string : BackendType → String
backend_type_to_string onnx_runtime = "ONNXRuntime"
backend_type_to_string tensor_rt = "TensorRT"
backend_type_to_string open_vino = "OpenVINO"
backend_type_to_string custom = "Custom"

unfoldable pub backend_type_from_string : String → Outcome BackendType
backend_type_from_string str =
    if str == "ONNXRuntime"
    then done onnx_runtime
    else if str == "TensorRT"
    then done tensor_rt
    else if str == "OpenVINO"
    then done open_vino
    else if str == "Custom"
    then done custom
    else throws (str_append "Invalid backend type: " str)

-- `onnx` is a new `ONNXRuntimeBackend`, which the call builds when it is given no backend.
unfoldable pub register_backend :
    {B : Type 0} → B → BackendType → Option B → BackendManager B → BackendManager B × Bool
unfolding contains
register_backend onnx type backend backends =
    if contains type backends then (backends, true) else elim backend [
      | some b ↦ (insert type b backends, true)
      | none ↦ if type == onnx_runtime then (insert type onnx backends, true) else (backends, false)
    ]

unfoldable pub get_backend : {B : Type 0} → BackendType → BackendManager B → Option B
get_backend type backends = lookup type backends
