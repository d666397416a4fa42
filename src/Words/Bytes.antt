-- ===== src/Words/Bytes.antt =====
-- Big-endian bytes and their slices.
use cross_chain_contracts.Common.{
  ℕ, zero, suc, ◌+◌, ◌-◌, ◌*◌, ◌/◌, ◌%◌, ◌^◌, ◌<◌, ◌≤◌, ◌≡◌, refl, sym, ap, ◌∙◌, List, [], ◌∷◌,
  ◌++◌, length, arith, All, length-append, append_assoc, take-append, drop-append, append-nil, leb,
  true, subst, le→leb, All-append,
}
use mathlib.Core.Path.{ap₂}
use cross_chain_contracts.Errors.{ok}
use cross_chain_contracts.Words.{
  to_be_bytes, from_be_bytes, from_be_bytes_acc, slice, slice_from, IsByte, IsArray,
}

pub length-to_be_bytes : (n v : ℕ) → length (to_be_bytes n v) ≡ n
unfolding to_be_bytes
length-to_be_bytes zero v = refl
length-to_be_bytes (suc n) v = omega (
  arith,
  length-append {0} (to_be_bytes n (v / 256)) (v % 256 ∷ []),
  length-to_be_bytes n (v / 256),
)

pub to_be_bytes-IsByte : (n v : ℕ) → All IsByte (to_be_bytes n v)
unfolding to_be_bytes
to_be_bytes-IsByte zero v = tt
to_be_bytes-IsByte (suc n) v =
    All-append IsByte (to_be_bytes n (v / 256)) (v % 256 ∷ []) (to_be_bytes-IsByte n (v / 256))
      (omega arith)

pub to_be_bytes-IsArray : (n v : ℕ) → IsArray n (to_be_bytes n v)
to_be_bytes-IsArray n v = (length-to_be_bytes n v, to_be_bytes-IsByte n v)

from_be_bytes_acc-append :
    (acc : ℕ) (xs ys : List ℕ)
    → from_be_bytes_acc acc (xs ++ ys) ≡ from_be_bytes_acc (from_be_bytes_acc acc xs) ys
unfolding from_be_bytes_acc
from_be_bytes_acc-append acc [] ys = refl
from_be_bytes_acc-append acc (x ∷ xs) ys = from_be_bytes_acc-append (acc * 256 + x) xs ys

pow_suc : (n : ℕ) → 256 ^ suc n ≡ 256 * 256 ^ n
pow_suc n = omega arith

pub from_be_bytes-to_be_bytes : (n v : ℕ) → v < 256 ^ n → from_be_bytes (to_be_bytes n v) ≡ v
unfolding from_be_bytes from_be_bytes_acc to_be_bytes
from_be_bytes-to_be_bytes zero v h = omega arith
from_be_bytes-to_be_bytes (suc n) v h =
    from_be_bytes_acc-append 0 (to_be_bytes n (v / 256)) (v % 256 ∷ [])
    ∙ rw (from_be_bytes-to_be_bytes n (v / 256) (omega (arith, pow_suc n))) (omega arith)

to_be_bytes-from_acc :
    (k acc : ℕ) (bs : List ℕ)
    → All IsByte bs
    → to_be_bytes (length bs + k) (from_be_bytes_acc acc bs) ≡ to_be_bytes k acc ++ bs
unfolding from_be_bytes_acc
to_be_bytes-from_acc k acc [] h =
    ap (λ (m : ℕ). to_be_bytes m acc) (omega arith) ∙ sym (append-nil (to_be_bytes k acc))
to_be_bytes-from_acc k acc (b ∷ bs) h =
    ap (λ (m : ℕ). to_be_bytes m (from_be_bytes_acc (acc * 256 + b) bs)) (omega arith)
    ∙ to_be_bytes-from_acc (suc k) (acc * 256 + b) bs h.1
    ∙ unfold to_be_bytes in
      ap₂ (λ (q : ℕ) (r : ℕ). (to_be_bytes k q ++ r ∷ []) ++ bs) (omega arith) (omega arith)
      ∙ append_assoc (to_be_bytes k acc) (b ∷ []) bs

pub to_be_bytes-from_be_bytes :
    (n : ℕ) (bs : List ℕ) → IsArray n bs → to_be_bytes n (from_be_bytes bs) ≡ bs
unfolding from_be_bytes to_be_bytes
to_be_bytes-from_be_bytes n bs h =
    let e : n ≡ length bs + 0 = omega arith in
    ap (λ (m : ℕ). to_be_bytes m (from_be_bytes_acc 0 bs)) e ∙ to_be_bytes-from_acc 0 0 bs h.1

pow_cons : (b : ℕ) (bs : List ℕ) → 256 ^ length (b ∷ bs) ≡ 256 * 256 ^ length bs
pow_cons b bs = pow_suc (length bs)

mul_mono : (a b p : ℕ) → a ≤ b → a * p ≤ b * p
mul_mono a b p h = grind arith

from_be_bytes_acc-lt :
    (acc : ℕ) (bs : List ℕ) → All IsByte bs → from_be_bytes_acc acc bs < (acc + 1) * 256 ^ length bs
unfolding from_be_bytes_acc
from_be_bytes_acc-lt acc [] h = omega arith
from_be_bytes_acc-lt acc (b ∷ bs) h =
    let read : from_be_bytes_acc acc (b ∷ bs) ≡ from_be_bytes_acc (acc * 256 + b) bs = refl in
    omega (
      arith,
      read,
      from_be_bytes_acc-lt (acc * 256 + b) bs h.1,
      ap (λ (p : ℕ). (acc + 1) * p) (pow_cons b bs),
      mul_mono (acc * 256 + b + 1) ((acc + 1) * 256) (256 ^ length bs) (omega arith),
    )

pub from_be_bytes-lt : (n : ℕ) (bs : List ℕ) → IsArray n bs → from_be_bytes bs < 256 ^ n
unfolding from_be_bytes
from_be_bytes-lt n bs h =
    subst (λ (k : ℕ). from_be_bytes_acc 0 bs < 256 ^ k) h.0
      (omega (arith, from_be_bytes_acc-lt 0 bs h.1))

-- The part between two parts of known length.
pub slice-append {ℓ} :
    {A : Type ℓ} (xs ys zs : List A) (a b : ℕ)
    → a ≡ length xs
    → b ≡ length xs + length ys
    → slice (xs ++ (ys ++ zs)) a b ≡ ok ys
unfolding slice
slice-append xs ys zs a b ha hb =
    let n : b - a ≡ length ys = omega arith in
    let in_range : leb b (length (xs ++ (ys ++ zs))) ≡ true =
      le→leb _ _ (omega (arith, length-append xs (ys ++ zs), length-append ys zs)) in
    rw (le→leb a b (omega arith), in_range, n, ha, drop-append xs (ys ++ zs), take-append ys zs)

pub slice_from-append {ℓ} :
    {A : Type ℓ} (xs ys : List A) (a : ℕ) → a ≡ length xs → slice_from (xs ++ ys) a ≡ ok ys
unfolding slice_from
slice_from-append xs ys a h =
    let in_range : leb a (length (xs ++ ys)) ≡ true =
      le→leb _ _ (omega (arith, length-append xs ys)) in
    rw (in_range, h, drop-append xs ys)
