-- ===== src/Backends/Onnx/Answers.antt =====
-- What `ONNXRuntimeBackend::infer` answers, for every ONNX Runtime.
use gip.Prelude.{
  String, ◌≡◌, refl, ap, Option, none, ◌≢◌, ◌⊎◌, inl, inr, Bool, true, false, some, List, [], ◌∷◌,
  length, is_empty, nat_beq, Bool-cases, Option-cases, if◌then◌else◌, arith,
}
use gip.Models.{TensorShape, RequestInfo, ResponseInfo}
use gip.Backends.Onnx.{
  Ort, OrtSession, OnnxBackend, OutputTensor, find_session, tensor_element_count, run, after_copy,
  copy_outputs, infer_shape, infer_shapes, infer,
}
use gip.Backends.Onnx.Copy.{
  Contents, readable, shapes_of, values_of, IsCopied, IsCutShort, copy_outputs_lem,
}

-- The response names the request and gives a reason; its output is as it was.
pub record IsRefused (request : RequestInfo) (before after : ResponseInfo) : Type 0 where
  pub reason : String
  pub answer : after ≡ record before {
    request_id = request.request_id;
    timestamp = request.timestamp;
    error_message = some reason;
  }

refused :
    (request : RequestInfo) (before : ResponseInfo) (reason : String)
    → IsRefused request before (record before {
      request_id = request.request_id;
      timestamp = request.timestamp;
      error_message = some reason;
    })
refused request before reason = record { reason = reason; answer = refl }

module _ {S : Type 0} ⦃ort : Ort S⦄ where
  -- The request is for a session of one input, has exactly the values that the shape of the input
  -- asks for, and the response holds what ONNX Runtime returned for them.
  pub record IsAnswered (request : RequestInfo) (before : ResponseInfo) (sessions : OnnxBackend S)
      (after : ResponseInfo) : Type 0 where
    pub session : OrtSession S
    pub shape : TensorShape
    pub name : String
    pub contents : List Contents
    pub open_session : find_session request.model_name sessions ≡ some session
    pub one_shape :
        (if is_empty request.input_shapes
          then session.model_conf.input_shapes
          else request.input_shapes)
        ≡ shape ∷ []
    pub one_name : session.model_conf.input_names ≡ name ∷ []
    pub sized : length request.input_tensor_values ≡ tensor_element_count shape
    pub nonempty : tensor_element_count shape ≢ 0
    pub ran :
        ort.run_session session.session
          (name ∷ [])
          shape
          request.input_tensor_values
          session.model_conf.output_names
        ≡ inl (readable contents)
    pub answer : after ≡ record before {
      request_id = request.request_id;
      timestamp = request.timestamp;
      output_shapes = shapes_of contents;
      output_tensor_values = values_of contents;
    }

  -- ONNX Runtime has run, and an exception ends the copy of its outputs at one of them: the response
  -- names the request, gives the reason, and holds the outputs before that one and at most its shape.
  pub record IsPartial (request : RequestInfo) (before : ResponseInfo) (sessions : OnnxBackend S)
      (after : ResponseInfo) : Type 0 where
    pub session : OrtSession S
    pub shape : TensorShape
    pub outputs : List OutputTensor
    pub copied : ResponseInfo
    pub reason : String
    pub open_session : find_session request.model_name sessions ≡ some session
    pub ran :
        ort.run_session session.session session.model_conf.input_names shape
          request.input_tensor_values session.model_conf.output_names
        ≡ inl outputs
    pub cut_short :
        IsCutShort outputs
          (record before {
            request_id = request.request_id;
            timestamp = request.timestamp;
            output_shapes = [];
            output_tensor_values = [];
          })
          (copied, some reason)
    pub answer : after ≡ record copied { error_message = some reason }

  abbrev pub InferResult : RequestInfo → ResponseInfo → OnnxBackend S → ResponseInfo × Bool → Type 0
  InferResult request before sessions r =
      ((r.1 ≡ true) × IsAnswered request before sessions r.0)
      ⊎ ((r.1 ≡ false) × (IsRefused request before r.0 ⊎ IsPartial request before sessions r.0))

  module _ (request : RequestInfo) (before : ResponseInfo) (sessions : OnnxBackend S) where
    abbrev named : ResponseInfo
    named = record before { request_id = request.request_id; timestamp = request.timestamp }

    module _ (session : OrtSession S)
        (found : find_session request.model_name sessions ≡ some session) where
      abbrev shapes : List TensorShape
      shapes =
          if is_empty request.input_shapes
          then session.model_conf.input_shapes
          else request.input_shapes

      run-Result :
          (shape : TensorShape) (name : String)
          → shapes ≡ shape ∷ []
          → session.model_conf.input_names ≡ name ∷ []
          → length request.input_tensor_values ≡ tensor_element_count shape
          → tensor_element_count shape ≢ 0
          → InferResult request before sessions (run session shape request named)
      unfolding run
      run-Result shape name e n sized nonempty = from _ refl
        where
          Ran : List OutputTensor ⊎ String → Type 0
          Ran o =
              ort.run_session session.session session.model_conf.input_names shape
                request.input_tensor_values session.model_conf.output_names
              ≡ o

          cleared : ResponseInfo
          cleared = record named { output_shapes = []; output_tensor_values = [] }

          copied :
              (outputs : List OutputTensor) (q : ResponseInfo × Option String)
              → Ran (inl outputs)
              → IsCopied outputs cleared q ⊎ IsCutShort outputs cleared q
              → InferResult request before sessions (after_copy q)
          copied outputs (after, none) q (inl k) = inl (
            refl,
            record {
              session = session;
              shape = shape;
              name = name;
              contents = k.contents;
              open_session = found;
              one_shape = e;
              one_name = n;
              sized = sized;
              nonempty = nonempty;
              ran = rw (← n, ← k.all_read) q;
              answer = ap (λ p. p.0) k.result;
            },
          )
          copied outputs (after, none) q (inr k) = absurd (none_cut k)
            where
              none_cut : IsCutShort outputs cleared (after, none) → ⊥
              none_cut c = elim c.result [ inl (e', is) ↦ cc | inr (sh, e', f, is) ↦ cc ]
          copied outputs (after, some reason) q (inl k) = cc
          copied outputs (after, some reason) q (inr k) = inr (
            refl,
            inr (record {
              session = session;
              shape = shape;
              outputs = outputs;
              copied = after;
              reason = reason;
              open_session = found;
              ran = q;
              cut_short = k;
              answer = refl;
            }),
          )

          from :
              (o : List OutputTensor ⊎ String)
              → Ran o
              → InferResult request before sessions (elim o [
                | inl outputs ↦ after_copy (copy_outputs outputs cleared)
                | inr message ↦ (record named { error_message = some message }, false)
              ])
          from (inr message) q = inr (refl, inl (refused request before message))
          from (inl outputs) q = copied outputs _ q (copy_outputs_lem outputs cleared)

      shape-Result :
          (shape : TensorShape) (name : String)
          → shapes ≡ shape ∷ []
          → session.model_conf.input_names ≡ name ∷ []
          → InferResult request before sessions (infer_shape session shape request named)
      shape-Result shape name e n = elim (Bool-cases (nat_beq (tensor_element_count shape) 0)) [
        | inl invalid ↦
            simp invalid (inr (refl, inl (refused request before "input shape is invalid")))
        | inr valid ↦
            elim (Bool-cases
              (nat_beq (length request.input_tensor_values) (tensor_element_count shape))) [
                | inr wrong ↦
                    simp (valid, wrong)
                      (inr (
                        refl,
                        inl (refused request before "input tensor size does not match input shape"),
                      ))
                | inl right ↦
                    simp (valid, right)
                      (run-Result shape name e n (ground (arith, right)) (ground (arith, valid)))
              ]
      ]

      lists-Result :
          (ss : List TensorShape) (ns : List String)
          → shapes ≡ ss
          → session.model_conf.input_names ≡ ns
          → InferResult request before sessions (infer_shapes session ss ns request named)
      lists-Result [] ns e n =
          inr (refl, inl (refused request before "model input metadata is incomplete"))
      lists-Result (shape ∷ rest) [] e n =
          inr (refl, inl (refused request before "model input metadata is incomplete"))
      lists-Result (shape ∷ []) (name ∷ []) e n = shape-Result shape name e n
      lists-Result (shape ∷ []) (name ∷ other ∷ names) e n = inr (
        refl,
        inl (refused request before "current ORT backend only supports single-input models"),
      )
      lists-Result (shape ∷ other ∷ rest) (name ∷ names) e n = inr (
        refl,
        inl (refused request before "current ORT backend only supports single-input models"),
      )

    -- `infer` answers `true` or `false`. If it answers `true`, the model has an open session of one
    -- input, the request brings as many values as the shape of that input asks for, at least one,
    -- and the response holds what ONNX Runtime returned on them. If it answers `false`, the response
    -- gives a reason, with its outputs as they were, or, if an exception ends the copy of what ONNX
    -- Runtime returned, with those that it has read until then. In each case the response names the
    -- request.
    pub infer-InferResult : InferResult request before sessions (infer request before sessions)
    unfolding infer
    infer-InferResult = elim (Option-cases (find_session request.model_name sessions)) [
      | inl e ↦ rw (e, infer) (inr (refl, inl (refused request before "model session not found")))
      | inr (session, e) ↦
          rw (e, infer)
            (lists-Result session e (shapes session e) session.model_conf.input_names refl refl)
    ]
