-- ===== src/Backends/Onnx/Count.antt =====
-- The element count of a tensor, against the product of its dimensions.
use native.Mathlib.Nat.{mul-add-mod_self_left, div-add-mod, mod-lt, mul_assoc, zero-lt-suc, add-mul}
use gip.Prelude.{
  ℕ, ◌+◌, ◌*◌, ◌/◌, ◌%◌, ◌<◌, ◌≡◌, sym, ap, ◌∙◌, Bool-cases, inl, inr, ltb, [], ◌∷◌, u64, arith,
}
use gip.Prelude.Int.{ℤ, pos, negsuc}
use gip.Models.{TensorShape}
use gip.Backends.Onnx.{accumulate, tensor_element_count}

-- The product of the dimensions, where a negative one counts as 0.
abbrev pub exact_count : TensorShape → ℕ
exact_count [] = 1
exact_count (pos dim ∷ dims) = dim * exact_count dims
exact_count (negsuc dim ∷ dims) = 0

mod-mul : (n a b : ℕ) → a % n * b % n ≡ a * b % n
mod-mul n a b =
    sym (mul-add-mod_self_left n (a / n * b) (a % n * b))
    ∙ ap (λ x. x % n)
        (ap (λ x. x + a % n * b) (sym (mul_assoc n (a / n) b))
          ∙ sym (add-mul (n * (a / n)) (a % n) b)
          ∙ ap (λ x. x * b) (div-add-mod a n))

accumulate_wraps :
    (a : ℕ) (shape : TensorShape) → accumulate (u64 a) shape ≡ u64 (a * exact_count shape)
accumulate_wraps a [] = ap u64 (omega arith)
accumulate_wraps a (pos dim ∷ dims) = elim (Bool-cases (ltb 0 dim)) [
  | inl h ↦ rw h (
      ap (λ x. accumulate x dims) (mod-mul 18446744073709551616 a dim)
      ∙ accumulate_wraps (a * dim) dims
      ∙ ap u64 (mul_assoc a dim (exact_count dims)))
  | inr h ↦
      let none_left : dim ≡ 0 = ground arith in
      let nothing : 0 * exact_count dims ≡ a * (0 * exact_count dims) = omega arith in
      rw h (rw none_left (accumulate_wraps 0 dims ∙ ap u64 nothing))
]
accumulate_wraps a (negsuc dim ∷ dims) =
    let nothing : 0 * exact_count dims ≡ a * 0 = omega arith in
    accumulate_wraps 0 dims ∙ ap u64 nothing

-- The element count of a tensor with dimensions is a 64-bit word, and the product of the
-- dimensions, where a negative one counts as 0, modulo 2^64.
pub tensor_element_count-wraps :
    (dim : ℤ) (dims : TensorShape)
    → (tensor_element_count (dim ∷ dims) < 18446744073709551616)
      × (tensor_element_count (dim ∷ dims) ≡ exact_count (dim ∷ dims) % 18446744073709551616)
unfolding tensor_element_count
tensor_element_count-wraps dim dims =
    let wraps : accumulate 1 (dim ∷ dims) ≡ u64 (exact_count (dim ∷ dims)) =
      accumulate_wraps 1 (dim ∷ dims) ∙ ap u64 (omega arith) in
    (rw wraps (mod-lt _ (zero-lt-suc 18446744073709551615)), wraps)
