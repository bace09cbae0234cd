-- ===== src/Base/Int.antt =====
-- The value of a C `int` that a call returns.
use Prim.Native.Nat.{ℕ, ◌%◌, ◌^◌}

-- `negsuc n` is -(n + 1).
pub data ℤ : Type 0 where
  pos : ℕ → ℤ
  negsuc : ℕ → ℤ

abbrev pub minus_one : ℤ
minus_one = negsuc 0

-- The conversion to `unsigned int`.
abbrev pub uint32 : ℕ → ℕ
uint32 n = n % 2 ^ 32
