-- ===== src/Base/Ints.antt =====
-- Signed 64-bit values, with the conversions between `i64` and `u64` that the program makes.
use Prim.Native.Nat.{ℕ, suc, ◌-◌, ◌%◌, ◌^◌}
use mathlib.Core.Option.{Option, none, some}
use veracruz.Base.Tests.{ltb, ◌==◌, if◌then◌else◌}

-- `negsuc n` is -(n + 1).
pub data ℤ : Type 0 where
  pos : ℕ → ℤ
  negsuc : ℕ → ℤ

-- `n as i64`
unfoldable pub as_i64 : ℕ → ℤ
as_i64 n = let m = n % 2 ^ 64 in if ltb m (2 ^ 63) then pos m else negsuc (2 ^ 64 - 1 - m)

-- `u64::try_from(delta.abs())`, where the least value has no absolute value in `i64`.
unfoldable pub abs_u64 : ℤ → Option ℕ
abs_u64 (pos n) = some n
abs_u64 (negsuc n) = if suc n == 2 ^ 63 then none else some (suc n)
