-- ===== src/Transport/Numbers.antt =====
-- `u64::to_be_bytes` and `u64::from_be_bytes` of the Rust standard library.
use veracruz.Base.{
  ℕ, zero, suc, ◌+◌, ◌*◌, ◌/◌, ◌%◌, ◌^◌, ◌<◌, ◌≡◌, refl, [], ◌∷◌, ◌++◌, length, arith,
  length-append,
}
use veracruz.Vfs.Impl.{Bytes}

-- The lowest `width` bytes of a number, the highest of them first.
unfoldable pub be_bytes : ℕ → ℕ → Bytes
be_bytes zero n = []
be_bytes (suc width) n = be_bytes width (n / 256) ++ (n % 256 ∷ [])

-- The number that `high` and the bytes after it stand for.
unfoldable pub be_value : ℕ → Bytes → ℕ
be_value high [] = high
be_value high (b ∷ bs) = be_value (high * 256 + b) bs

unfoldable pub to_be_bytes : ℕ → Bytes
unfolding be_bytes
to_be_bytes n = be_bytes 8 n

unfoldable pub from_be_bytes : Bytes → ℕ
unfolding be_value
from_be_bytes bytes = be_value 0 bytes

be_value-append :
    (high : ℕ) (bs cs : Bytes) → be_value high (bs ++ cs) ≡ be_value (be_value high bs) cs
unfolding be_value
be_value-append high [] cs = refl
be_value-append high (b ∷ bs) cs = be_value-append (high * 256 + b) bs cs

be_value-be_bytes : (width n : ℕ) → n < 256 ^ width → be_value 0 (be_bytes width n) ≡ n
unfolding be_value be_bytes
be_value-be_bytes zero n h = omega arith
be_value-be_bytes (suc width) n h =
    let high = be_value-be_bytes width (n / 256) (omega arith) in
    rw (be_value-append 0 (be_bytes width (n / 256)) (n % 256 ∷ []), high) (omega arith)

length-be_bytes : (width n : ℕ) → length (be_bytes width n) ≡ width
unfolding be_bytes
length-be_bytes zero n = refl
length-be_bytes (suc width) n = omega (
  arith,
  length-append (be_bytes width (n / 256)) (n % 256 ∷ []),
  length-be_bytes width (n / 256),
)

pub length-to_be_bytes : (n : ℕ) → length (to_be_bytes n) ≡ 8
unfolding to_be_bytes
length-to_be_bytes n = length-be_bytes 8 n

pub from_be_bytes-to_be_bytes : (n : ℕ) → n < 2 ^ 64 → from_be_bytes (to_be_bytes n) ≡ n
unfolding to_be_bytes from_be_bytes
from_be_bytes-to_be_bytes n h = be_value-be_bytes 8 n h
