-- ===== src/Models/Faults.antt =====
-- What a C++ function can do besides returning: throw, dereference a null pointer, or lock a
-- `std::mutex` that its own thread already holds.
use gip.Prelude.{String}

pub data Outcome {ℓ} (A : Type ℓ) : Type ℓ where
  done : A → Outcome A
  throws : String → Outcome A
  null_dereference : Outcome A
  self_deadlock : Outcome A

infixl 5 ◌>>=◌
abbrev pub ◌>>=◌ {ℓ κ} : {A : Type ℓ} {B : Type κ} → Outcome A → (A → Outcome B) → Outcome B
done a >>= f = f a
throws m >>= f = throws m
null_dereference >>= f = null_dereference
self_deadlock >>= f = self_deadlock
