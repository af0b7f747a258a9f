-- ===== src/Backends/Onnx.antt =====
-- `ONNXRuntimeBackend` (include/backends/ONNXRuntimeBackend.hpp,
-- src/backends/ONNXRuntimeBackend.cpp). ONNX Runtime itself is a parameter: `Ort`.
pub mod Copy
pub mod Answers
pub mod Count
use Prim.Native.Nat.{◌*◌}
use gip.Prelude.{
  ℕ, String, Bool, true, false, map, has_value, Option, none, some, List, [], ◌∷◌, ◌++◌, length,
  is_empty, ltb, nat_beq, string_eq, if◌then◌else◌, u64, ◌⊎◌, inl, inr,
}
use gip.Prelude.Int.{ℤ, pos, negsuc}
use gip.Prelude.Dict.{Dict, lookup, insert, erase, contains}
use gip.Models.{ModelConf, TensorShape, Float32, RequestInfo, ResponseInfo, Outcome, done, throws}
use gip.Backends.{IBackend}

-- The thread counts are set only where the configuration gives a positive number.
pub record SessionOptions : Type 0 where
  pub intra_op_num_threads : Option ℤ
  pub inter_op_num_threads : Option ℤ

-- What the backend reads of an output: `GetTensorTypeAndShapeInfo` with `GetShape`, and
-- `GetElementCount` with `GetTensorData`. `inr` is an `Ort::Exception` with its message.
pub record OutputTensor : Type 0 where
  pub shape : TensorShape ⊎ String
  pub values : List Float32 ⊎ String

-- What the backend calls of ONNX Runtime, over its type of sessions; `run_session` stands for the
-- making of the input tensor and for `Run`.
pub record Ort (S : Type 0) : Type 0 where
  pub create_session : String → SessionOptions → S ⊎ String
  pub run_session :
      S → List String → TensorShape → List Float32 → List String → List OutputTensor ⊎ String

pub record OrtSession (S : Type 0) : Type 0 where
  pub model_conf : ModelConf
  pub session : S

abbrev pub OnnxBackend : Type 0 → Type 0
OnnxBackend S = Dict String (OrtSession S)

is_positive : ℤ → Bool
is_positive (pos n) = ltb 0 n
is_positive (negsuc n) = false

unfoldable pub build_session_options : ModelConf → SessionOptions
unfolding is_positive
build_session_options conf = record {
  intra_op_num_threads =
      if is_positive conf.intra_op_num_threads then some conf.intra_op_num_threads else none;
  inter_op_num_threads =
      if is_positive conf.inter_op_num_threads then some conf.inter_op_num_threads else none;
}

-- One step of the product: a dimension that is not positive makes it 0, and it wraps as `size_t`.
abbrev pub times_dim : ℕ → ℤ → ℕ
times_dim acc (pos dim) = if ltb 0 dim then u64 (acc * dim) else 0
times_dim acc (negsuc dim) = 0

abbrev pub accumulate : ℕ → TensorShape → ℕ
accumulate acc [] = acc
accumulate acc (dim ∷ dims) = accumulate (times_dim acc dim) dims

unfoldable pub tensor_element_count : TensorShape → ℕ
tensor_element_count [] = 0
tensor_element_count (dim ∷ dims) = accumulate 1 (dim ∷ dims)

-- The copy of one output after the others, up to an exception: what the response holds then, and
-- the message of the exception.
unfoldable pub copy_outputs : List OutputTensor → ResponseInfo → ResponseInfo × Option String
copy_outputs [] response = (response, none)
copy_outputs (output ∷ rest) response = elim output.shape [
  | inr message ↦ (response, some message)
  | inl shape ↦
      let shaped = record response { output_shapes = response.output_shapes ++ shape ∷ [] } in
      elim output.values [
        | inr message ↦ (shaped, some message)
        | inl values ↦
            copy_outputs rest
              (record shaped { output_tensor_values = shaped.output_tensor_values ++ values })
      ]
]

-- The end of the `try` block: the message of an exception is stored.
abbrev pub after_copy : ResponseInfo × Option String → ResponseInfo × Bool
after_copy (response, none) = (response, true)
after_copy (response, some message) = (record response { error_message = some message }, false)

abbrev pub refuse : ResponseInfo → String → ResponseInfo × Bool
refuse response message = (record response { error_message = some message }, false)

module _ {S : Type 0} ⦃ort : Ort S⦄ where
  unfoldable pub find_session : String → OnnxBackend S → Option (OrtSession S)
  find_session model_name sessions = lookup model_name sessions

  -- The constructor of `ORTSession`, whose lists of names point to those of the configuration.
  abbrev pub open_session : ModelConf → OrtSession S ⊎ String
  open_session conf = elim (ort.create_session conf.model_path (build_session_options conf)) [
    | inl session ↦ inl (record { model_conf = conf; session = session })
    | inr message ↦ inr message
  ]

  unfoldable pub load : ModelConf → OnnxBackend S → Outcome (OnnxBackend S × Bool)
  unfolding contains
  load conf sessions =
      if contains conf.model_name sessions
      then done (sessions, false)
      else elim (open_session conf) [
        | inl session ↦ done (insert conf.model_name session sessions, true)
        | inr message ↦ throws message
      ]

  unfoldable pub unload : String → OnnxBackend S → OnnxBackend S × Bool
  unfolding contains
  unload model_name sessions = (erase model_name sessions, contains model_name sessions)

  unfoldable pub warmup : String → OnnxBackend S → Bool
  unfolding find_session
  warmup model_name sessions = has_value (find_session model_name sessions)

  -- The call of ONNX Runtime, with the input checked.
  unfoldable pub run : OrtSession S → TensorShape → RequestInfo → ResponseInfo → ResponseInfo × Bool
  run session shape request response =
      elim (ort.run_session session.session session.model_conf.input_names shape
        request.input_tensor_values session.model_conf.output_names) [
          | inl outputs ↦ after_copy (
              copy_outputs outputs
                (record response { output_shapes = []; output_tensor_values = [] }))
          | inr message ↦ (record response { error_message = some message }, false)
        ]

  -- The checks of one input shape against the request.
  abbrev infer_shape : OrtSession S → TensorShape → RequestInfo → ResponseInfo → ResponseInfo × Bool
  infer_shape session shape request response =
      if nat_beq (tensor_element_count shape) 0
      then refuse response "input shape is invalid"
      else if nat_beq (length request.input_tensor_values) (tensor_element_count shape)
      then run session shape request response
      else refuse response "input tensor size does not match input shape"

  -- `input_shapes.size() != 1 || inputNames().size() != 1`, past the test for emptiness.
  abbrev infer_shapes :
      OrtSession S
      → List TensorShape
      → List String
      → RequestInfo
      → ResponseInfo
      → ResponseInfo × Bool
  infer_shapes session [] names request response =
      refuse response "model input metadata is incomplete"
  infer_shapes session (shape ∷ shapes) [] request response =
      refuse response "model input metadata is incomplete"
  infer_shapes session (shape ∷ []) (name ∷ []) request response =
      infer_shape session shape request response
  infer_shapes session (shape ∷ shapes) (name ∷ names) request response =
      refuse response "current ORT backend only supports single-input models"

  unfoldable pub infer : RequestInfo → ResponseInfo → OnnxBackend S → ResponseInfo × Bool
  unfolding find_session
  infer request response₀ sessions =
      let response = record response₀ {
        request_id = request.request_id;
        timestamp = request.timestamp;
      } in
      elim (find_session request.model_name sessions) [
        | none ↦ refuse response "model session not found"
        | some session ↦
            infer_shapes session
              (if is_empty request.input_shapes
                then session.model_conf.input_shapes
                else request.input_shapes)
              session.model_conf.input_names request response
      ]

  -- The virtual methods.
  instance abbrev pub onnx_backend : IBackend (OnnxBackend S)
  onnx_backend = record {
    load = load;
    unload = λ name sessions. done (unload name sessions);
    warmup = λ name sessions. done (sessions, warmup name sessions);
    infer = λ request response sessions. done (infer request response sessions);
  }
