-- ===== src/Fees/PreFee/Inverse.antt =====
-- `calculate_pre_fee_amount` of instructions/quote_send.rs against the transfer fee.
use cross_chain_contracts.Common.{
  ◌⊎◌, ℕ, ◌+◌, ◌-◌, ◌*◌, ◌/◌, ◌^◌, ◌≤◌, ◌<◌, ◌≡◌, ap, arith, some, ltb, leb, ◌==◌, if◌then◌else◌,
  true, le→leb, lt→ltb, Bool-cases, inl, inr,
}
use cross_chain_contracts.Words.{IsU64, checked_add, checked_sub, checked_mul, checked_div}
use cross_chain_contracts.Platform.Cpi.{TransferFee}
use cross_chain_contracts.Fees.PreFee.{try_to_u64, ceil_div, inverted_fee, calculate_pre_fee_amount}
use cross_chain_contracts.Platform.Laws.{IsFee, post_fee}
use native.Mathlib.Decide.{dec_lt}
use native.Mathlib.Nat.{lt-mul-div-succ, mul-div-le}

-- The quotient rounded up.
abbrev ceil : ℕ → ℕ → ℕ
ceil n d = (n + d - 1) / d

ceil_lem : (n d : ℕ) → 0 < d → (n ≤ d * ceil n d) × (d * ceil n d < n + d)
ceil_lem n d h = omega (arith, lt-mul-div-succ (n + d - 1) h, mul-div-le (n + d - 1) d)

ceil_div_lem : (n d : ℕ) → 0 < d → n + d < 2 ^ 128 → ceil_div n d ≡ some (ceil n d)
unfolding ceil_div checked_add checked_sub checked_div
ceil_div_lem n d h fits = ground arith

mul_lt_cancel : (d m n : ℕ) → d * m < d * n → m < n
mul_lt_cancel d m n h = grind arith

-- The amount of which `x` is left where `d` of each ten thousand are left.
abbrev raw : ℕ → ℕ → ℕ
raw d x = ceil (x * 10_000) d

-- `b` basis points of fee leave `d` of each ten thousand.
module _ (b d x : ℕ) (parts : b + d ≡ 10_000) (some_left : 0 < d) where
  split_parts : (a : ℕ) → a * b + d * a ≡ a * 10_000
  split_parts a = omega (arith, ap (λ (t : ℕ). a * t) parts)

  -- `raw` leaves at least `x` after the uncapped fee, and no smaller amount does.
  raw_enough : x + (raw d x * b + 9_999) / 10_000 ≤ raw d x
  raw_enough = omega (arith, ceil_lem (x * 10_000) d some_left, split_parts (raw d x))

  raw_least : (a : ℕ) → x + (a * b + 9_999) / 10_000 ≤ a → raw d x ≤ a
  raw_least a h =
      let below : d * raw d x < d * (a + 1) =
        omega (arith, ceil_lem (x * 10_000) d some_left, split_parts a) in
      omega (arith, mul_lt_cancel d (raw d x) (a + 1) below)

-- The last arm, where the fee is neither 0 nor everything.
module _ (fee : TransferFee) (x : ℕ) (f : IsFee fee) (fits : IsU64 x)
    (partial : fee.transfer_fee_basis_points < 10_000) where
  abbrev left : ℕ
  left = 10_000 - fee.transfer_fee_basis_points

  enough : x + (raw left x * fee.transfer_fee_basis_points + 9_999) / 10_000 ≤ raw left x
  enough = raw_enough fee.transfer_fee_basis_points left x (omega arith) (omega arith)

  inverted_fee_lem : inverted_fee fee x ≡ (
      if leb fee.maximum_fee (raw left x - x)
      then checked_add 64 x fee.maximum_fee
      else try_to_u64 (raw left x))
  unfolding inverted_fee checked_mul checked_sub
  inverted_fee_lem =
      let n : leb fee.transfer_fee_basis_points 10_000 ≡ true = le→leb _ _ (omega arith) in
      let m : ltb (x * 10_000) (2 ^ 128) ≡ true = lt→ltb _ _ (omega arith) in
      let c = ceil_div_lem (x * 10_000) left (omega arith) (omega arith) in
      let k : leb x (raw left x) ≡ true = le→leb _ _ (omega (arith, enough)) in rw (m, n, c, k)

  inverted_fee_enough : (p : ℕ) → inverted_fee fee x ≡ some p → x ≤ post_fee fee p
  unfolding checked_add
  inverted_fee_enough p h = ground (arith, inverted_fee_lem, enough, h)

  -- An amount that leaves `x` covers the capped fee, or is no smaller than `raw`.
  least : (a : ℕ) → 0 < x → x ≤ post_fee fee a → (x + fee.maximum_fee ≤ a) ⊎ (raw left x ≤ a)
  least a pos h =
      elim (Bool-cases
        (leb fee.maximum_fee ((a * fee.transfer_fee_basis_points + 9_999) / 10_000))) [
          | inl capped ↦ inl (ground arith)
          | inr uncapped ↦ inr (
              raw_least fee.transfer_fee_basis_points left x (omega arith) (omega arith) a
                (ground arith))
        ]

  inverted_fee_least :
      (a : ℕ)
      → IsU64 a
      → 0 < x
      → x ≤ post_fee fee a
      → (p : ℕ) × (inverted_fee fee x ≡ some p) × (p ≤ a)
  unfolding checked_add
  inverted_fee_least a fits_a pos h = elim (Bool-cases (leb fee.maximum_fee (raw left x - x))) [
    | inl capped ↦ (
      x + fee.maximum_fee,
      rw (inverted_fee_lem, capped) (ground (arith, least a pos h, enough)),
      ground (arith, least a pos h, enough),
    )
    | inr uncapped ↦ (
      raw left x,
      rw (inverted_fee_lem, uncapped) (ground (arith, least a pos h, enough)),
      ground (arith, least a pos h, enough),
    )
  ]

-- Whatever amount `calculate_pre_fee_amount` answers for a fee of at most 100% and a u64 amount
-- wanted, at least the amount wanted arrives of it.
pub pre_fee_enough :
    (fee : TransferFee) (wanted p : ℕ)
    → IsFee fee
    → IsU64 wanted
    → calculate_pre_fee_amount fee wanted ≡ some p
    → wanted ≤ post_fee fee p
unfolding calculate_pre_fee_amount checked_add
pre_fee_enough fee wanted p f fits h = elim (dec_lt fee.transfer_fee_basis_points 10_000) [
  | yes partial ↦ ground (arith, inverted_fee_enough fee wanted f fits partial p)
  | no whole ↦ ground (arith, f.at_most_all)
]

-- If the wanted amount arrives of some u64 amount, for a fee of at most 100%, then
-- `calculate_pre_fee_amount` answers, and with an amount that is no larger.
pub pre_fee_least :
    (fee : TransferFee) (wanted a : ℕ)
    → IsFee fee
    → IsU64 wanted
    → IsU64 a
    → wanted ≤ post_fee fee a
    → (p : ℕ) × (calculate_pre_fee_amount fee wanted ≡ some p) × (p ≤ a)
unfolding calculate_pre_fee_amount
pre_fee_least fee wanted a f fits fits_a h =
    elim (Bool-cases (fee.transfer_fee_basis_points == 0)) [
      | inl free ↦ (wanted, rw free, omega arith)
      | inr charged ↦ elim (Bool-cases (wanted == 0)) [
        | inl nothing ↦ (0, rw (charged, nothing), omega arith)
        | inr something ↦ elim (Bool-cases (fee.transfer_fee_basis_points == 10_000)) [
          | inl whole ↦ (
            fee.maximum_fee + wanted,
            rw (charged, something, whole) (unfold checked_add in ground arith),
            ground arith,
          )
          | inr partial ↦
              rw (charged, something, partial)
                (inverted_fee_least fee wanted f fits (ground arith) a fits_a (ground arith) h)
        ]
      ]
    ]
