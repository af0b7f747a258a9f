-- ===== src/Prelude/Words.antt =====
-- Unsigned machine words: a number with its wrap-around written out.
use Prim.Native.Nat.{ℕ, ◌+◌, ◌-◌, ◌%◌}
use gip.Prelude.Int.{ℤ, pos_part, neg_part}

-- `uint64_t` and `size_t`
abbrev pub u64 : ℕ → ℕ
u64 n = n % 18446744073709551616

-- `static_cast<uint32_t>` of a signed count
abbrev pub u32_of : ℤ → ℕ
u32_of n = (pos_part n % 4294967296 + 4294967296 - neg_part n % 4294967296) % 4294967296

abbrev pub increment : ℕ → ℕ
increment n = u64 (n + 1)

-- `--n` and `fetch_sub(1)`: 0 wraps to the largest value.
abbrev pub decrement : ℕ → ℕ
decrement n = u64 (n + 18446744073709551615)
