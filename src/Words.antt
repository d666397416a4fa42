-- ===== src/Words.antt =====
-- Rust's fixed-width integers: checked and saturating arithmetic, big-endian bytes, slices.
pub mod Bytes
use cross_chain_contracts.Common.{
  ℕ, zero, suc, ◌+◌, ◌-◌, ◌*◌, ◌/◌, ◌%◌, ◌^◌, ◌<◌, ◌≡◌, ltb, leb, ◌==◌, if◌then◌else◌, ◌&&◌, List,
  [], ◌∷◌, ◌++◌, length, take, drop, Option, none, some, get_elem?, All, min,
}
use cross_chain_contracts.Errors.{Result, ok, panic}

abbrev pub IsByte : ℕ → Type 0
IsByte b = b < 256

abbrev pub IsU16 : ℕ → Type 0
IsU16 v = v < 2 ^ 16

abbrev pub IsU32 : ℕ → Type 0
IsU32 v = v < 2 ^ 32

abbrev pub IsU64 : ℕ → Type 0
IsU64 v = v < 2 ^ 64

-- `[u8; n]`
abbrev pub IsArray : ℕ → List ℕ → Type 0
IsArray n bs = (length bs ≡ n) × All IsByte bs

-- `a + b`, `a - b`, `a * b`, `a / b`, `a % b` and `a.pow(n)` on u64 with overflow checks.
unfoldable pub add_u64 : ℕ → ℕ → Result ℕ
add_u64 a b = if ltb (a + b) (2 ^ 64) then ok (a + b) else panic

unfoldable pub sub_u64 : ℕ → ℕ → Result ℕ
sub_u64 a b = if leb b a then ok (a - b) else panic

unfoldable pub mul_u64 : ℕ → ℕ → Result ℕ
mul_u64 a b = if ltb (a * b) (2 ^ 64) then ok (a * b) else panic

unfoldable pub div_u64 : ℕ → ℕ → Result ℕ
div_u64 a b = if b == 0 then panic else ok (a / b)

unfoldable pub rem_u64 : ℕ → ℕ → Result ℕ
rem_u64 a b = if b == 0 then panic else ok (a % b)

unfoldable pub pow_u64 : ℕ → ℕ → Result ℕ
pow_u64 a n = if ltb (a ^ n) (2 ^ 64) then ok (a ^ n) else panic

-- `checked_add` at width `w` bits, `checked_mul`, `checked_sub`, `checked_div`.
unfoldable pub checked_add : ℕ → ℕ → ℕ → Option ℕ
checked_add w a b = if ltb (a + b) (2 ^ w) then some (a + b) else none

unfoldable pub checked_mul : ℕ → ℕ → ℕ → Option ℕ
checked_mul w a b = if ltb (a * b) (2 ^ w) then some (a * b) else none

unfoldable pub checked_sub : ℕ → ℕ → Option ℕ
checked_sub a b = if leb b a then some (a - b) else none

unfoldable pub checked_div : ℕ → ℕ → Option ℕ
checked_div a b = if b == 0 then none else some (a / b)

unfoldable pub saturating_add_u64 : ℕ → ℕ → ℕ
saturating_add_u64 a b = min (a + b) (2 ^ 64 - 1)

unfoldable pub saturating_mul_u64 : ℕ → ℕ → ℕ
saturating_mul_u64 a b = min (a * b) (2 ^ 64 - 1)

-- `i64`: `negsuc n` is -(n + 1).
pub data ℤ : Type 0 where
  pos : ℕ → ℤ
  negsuc : ℕ → ℤ

-- `u64::try_from(t).unwrap()` of an i64
unfoldable pub to_u64_unwrap : ℤ → Result ℕ
to_u64_unwrap (pos n) = ok n
to_u64_unwrap (negsuc n) = panic

-- The `n` bytes of `v.to_be_bytes()`.
unfoldable pub to_be_bytes : ℕ → ℕ → List ℕ
to_be_bytes zero v = []
to_be_bytes (suc n) v = to_be_bytes n (v / 256) ++ v % 256 ∷ []

unfoldable pub from_be_bytes_acc : ℕ → List ℕ → ℕ
from_be_bytes_acc acc [] = acc
from_be_bytes_acc acc (b ∷ bs) = from_be_bytes_acc (acc * 256 + b) bs

-- `u64::from_be_bytes`, `u32::from_be_bytes`
unfoldable pub from_be_bytes : List ℕ → ℕ
from_be_bytes bs = from_be_bytes_acc 0 bs

module _ {ℓ} {A : Type ℓ} where
  -- `&xs[a..b]`
  unfoldable pub slice : List A → ℕ → ℕ → Result (List A)
  slice xs a b = if leb a b && leb b (length xs) then ok (take (b - a) (drop a xs)) else panic

  -- `&xs[a..]`
  unfoldable pub slice_from : List A → ℕ → Result (List A)
  slice_from xs a = if leb a (length xs) then ok (drop a xs) else panic

  abbrev or_panic : Option A → Result A
  or_panic none = panic
  or_panic (some a) = ok a

  -- `xs[i]`
  unfoldable pub index : List A → ℕ → Result A
  index xs i = or_panic (get_elem? xs i)
