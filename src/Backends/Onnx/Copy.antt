-- ===== src/Backends/Onnx/Copy.antt =====
-- The copy of the outputs of ONNX Runtime into a response.
use mathlib.Core.List.{append_assoc, append-nil}
use gip.Prelude.{String, ◌≡◌, refl, ap, ◌∙◌, ◌⊎◌, inl, inr, Option, none, some, List, [], ◌∷◌, ◌++◌}
use gip.Models.{TensorShape, Float32, ResponseInfo}
use gip.Backends.Onnx.{OutputTensor, copy_outputs}

-- An output that is read with no exception.
abbrev pub Contents : Type 0
Contents = TensorShape × List Float32

abbrev pub readable : List Contents → List OutputTensor
readable [] = []
readable (c ∷ cs) = record { shape = inl c.0; values = inl c.1 } ∷ readable cs

abbrev pub shapes_of : List Contents → List TensorShape
shapes_of [] = []
shapes_of (c ∷ cs) = c.0 ∷ shapes_of cs

abbrev pub values_of : List Contents → List Float32
values_of [] = []
values_of (c ∷ cs) = c.1 ++ values_of cs

-- The response with more outputs behind those that it has.
abbrev pub extended : List TensorShape → List Float32 → ResponseInfo → ResponseInfo
extended shapes values response = record response {
  output_shapes = response.output_shapes ++ shapes;
  output_tensor_values = response.output_tensor_values ++ values;
}

-- All outputs are read, and stand behind those of the response.
pub record IsCopied (outputs : List OutputTensor) (before : ResponseInfo)
    (r : ResponseInfo × Option String) : Type 0 where
  pub contents : List Contents
  pub all_read : outputs ≡ readable contents
  pub result : r ≡ (extended (shapes_of contents) (values_of contents) before, none)

-- An exception ends the copy at one output, of which the response has at most the shape; it has the
-- outputs before that.
pub record IsCutShort (outputs : List OutputTensor) (before : ResponseInfo)
    (r : ResponseInfo × Option String) : Type 0 where
  pub contents : List Contents
  pub failed : OutputTensor
  pub rest : List OutputTensor
  pub reason : String
  pub split : outputs ≡ readable contents ++ failed ∷ rest
  pub result :
      ((failed.shape ≡ inr reason)
        × (r ≡ (extended (shapes_of contents) (values_of contents) before, some reason)))
      ⊎ ((shape : TensorShape) × (failed.shape ≡ inl shape)
          × (failed.values ≡ inr reason)
          × (r ≡ (
            extended (shapes_of contents ++ shape ∷ []) (values_of contents) before,
            some reason,
          )))

extended_one :
    (c : Contents) (shapes : List TensorShape) (values : List Float32) (response : ResponseInfo)
    → extended shapes values (extended (c.0 ∷ []) c.1 response)
      ≡ extended (c.0 ∷ shapes) (c.1 ++ values) response
extended_one c shapes values response =
    rw
      (
        append_assoc response.output_shapes (c.0 ∷ []) shapes,
        append_assoc response.output_tensor_values c.1 values,
      )
      refl

abbrev CopyResult : List OutputTensor → ResponseInfo → ResponseInfo × Option String → Type 0
CopyResult outputs before r = IsCopied outputs before r ⊎ IsCutShort outputs before r

copied_more :
    (c : Contents) (rest : List OutputTensor) (before : ResponseInfo)
    (r : ResponseInfo × Option String)
    → CopyResult rest (extended (c.0 ∷ []) c.1 before) r
    → CopyResult (record { shape = inl c.0; values = inl c.1 } ∷ rest) before r
copied_more c rest before r (inl k) = inl (record {
  contents = c ∷ k.contents;
  all_read = ap (λ o. record { shape = inl c.0; values = inl c.1 } ∷ o) k.all_read;
  result =
      k.result
      ∙ ap (λ x. (x, none)) (extended_one c (shapes_of k.contents) (values_of k.contents) before);
})
copied_more c rest before r (inr k) = inr (record {
  contents = c ∷ k.contents;
  failed = k.failed;
  rest = k.rest;
  reason = k.reason;
  split = ap (λ o. record { shape = inl c.0; values = inl c.1 } ∷ o) k.split;
  result = elim k.result [
    | inl (e, is) ↦ inl (
      e,
      is
          ∙ ap (λ x. (x, some k.reason))
              (extended_one c (shapes_of k.contents) (values_of k.contents) before),
    )
    | inr (shape, e, f, is) ↦ inr (
      shape,
      e,
      f,
      is
          ∙ ap (λ x. (x, some k.reason))
              (extended_one c (shapes_of k.contents ++ shape ∷ []) (values_of k.contents) before),
    )
  ];
})

copy_first :
    (shape : TensorShape ⊎ String) (values : List Float32 ⊎ String) (rest : List OutputTensor)
    (before : ResponseInfo)
    → ((b : ResponseInfo) → CopyResult rest b (copy_outputs rest b))
    → CopyResult
        (record { shape = shape; values = values } ∷ rest)
        before
        (copy_outputs (record { shape = shape; values = values } ∷ rest) before)
unfolding copy_outputs
copy_first (inl shape) (inl values) rest before h =
    copied_more (shape, values) rest before _ (h (extended (shape ∷ []) values before))
copy_first (inl shape) (inr message) rest before h = inr (record {
  contents = [];
  failed = record { shape = inl shape; values = inr message };
  rest = rest;
  reason = message;
  split = refl;
  result = inr (shape, refl, refl, rw (append-nil before.output_tensor_values) refl);
})
copy_first (inr message) values rest before h = inr (record {
  contents = [];
  failed = record { shape = inr message; values = values };
  rest = rest;
  reason = message;
  split = refl;
  result =
      inl (refl, rw (append-nil before.output_shapes, append-nil before.output_tensor_values) refl);
})

-- The copy reads all outputs, or it is cut short by an exception.
pub copy_outputs_lem :
    (outputs : List OutputTensor) (before : ResponseInfo)
    → CopyResult outputs before (copy_outputs outputs before)
unfolding copy_outputs
copy_outputs_lem [] before = inl (record {
  contents = [];
  all_read = refl;
  result = rw (append-nil before.output_shapes, append-nil before.output_tensor_values) refl;
})
copy_outputs_lem (output ∷ rest) before =
    copy_first output.shape output.values rest before (copy_outputs_lem rest)
