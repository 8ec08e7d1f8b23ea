-- ===== src/Base/Int.antt =====
-- Signed integers over the native numbers, and the conversion of a 64-bit pattern to `int64_t`.
use Prim.Native.Nat.{ℕ, ◌-◌, ◌%◌, ◌^◌, ◌<◌, compare, Ordering}
use mathlib.Core.Path.{◌≡◌}
use native.Mathlib.Omega.{arith}

-- `negsuc n` is -(n + 1).
pub data ℤ : Type 0 where
  pos : ℕ → ℤ
  negsuc : ℕ → ℤ

-- The value of the low 64 bits as a two's complement number.
unfoldable pub to_int64 : ℕ → ℤ
to_int64 n = elim (compare (n % 2 ^ 64) (2 ^ 63)) [
  | Ordering.lt ↦ pos (n % 2 ^ 64)
  | _ ↦ negsuc (2 ^ 64 - 1 - n % 2 ^ 64)
]

-- The bits of an `int64_t`, as `uint64_t`.
unfoldable pub to_uint64 : ℤ → ℕ
to_uint64 (pos n) = n % 2 ^ 64
to_uint64 (negsuc n) = 2 ^ 64 - 1 - n % 2 ^ 64

-- The numbers that an `int64_t` holds.
abbrev pub IsInt64 : ℤ → Type 0
IsInt64 (pos n) = n < 2 ^ 63
IsInt64 (negsuc n) = n < 2 ^ 63

pub to_int64-IsInt64 : (n : ℕ) → IsInt64 (to_int64 n)
unfolding to_int64
to_int64-IsInt64 n = ground arith

-- A signed number survives the way through the unsigned type.
pub to_int64-to_uint64 : (z : ℤ) → IsInt64 z → to_int64 (to_uint64 z) ≡ z
unfolding to_int64 to_uint64
to_int64-to_uint64 (pos n) h = ground arith
to_int64-to_uint64 (negsuc n) h = ground arith
