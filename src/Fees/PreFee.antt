-- ===== src/Fees/PreFee.antt =====
-- `calculate_pre_fee_amount` of instructions/quote_send.rs: the amount to send so that a given
-- amount arrives after the token's transfer fee.
pub mod Inverse
use cross_chain_contracts.Common.{
  ℕ, ◌+◌, ◌-◌, ◌*◌, ◌/◌, ◌^◌, Bool, Option, none, some, ltb, leb, ◌==◌, if◌then◌else◌,
}
use cross_chain_contracts.Words.{checked_add, checked_sub, checked_mul, checked_div}
use cross_chain_contracts.Platform.Cpi.{TransferFee}

infixl 5 ◌>>=◌
abbrev pub ◌>>=◌ {ℓ κ} : {A : Type ℓ} {B : Type κ} → Option A → (A → Option B) → Option B
none >>= f = none
some a >>= f = f a

abbrev pub max_fee_basis_points : ℕ
max_fee_basis_points = 10_000

abbrev pub one_in_basis_points : ℕ
one_in_basis_points = max_fee_basis_points

-- `u64::try_from(v).ok()` of a u128
abbrev pub try_to_u64 : ℕ → Option ℕ
try_to_u64 v = if ltb v (2 ^ 64) then some v else none

unfoldable pub ceil_div : ℕ → ℕ → Option ℕ
ceil_div numerator denominator = do
  total ← checked_add 128 numerator denominator
  dividend ← checked_sub total 1
  checked_div dividend denominator

-- The last arm of the `match`.
unfoldable pub inverted_fee : TransferFee → ℕ → Option ℕ
unfolding ceil_div
inverted_fee fee post_fee_amount = do
  numerator ← checked_mul 128 post_fee_amount one_in_basis_points
  denominator ← checked_sub one_in_basis_points fee.transfer_fee_basis_points
  raw_pre_fee_amount ← ceil_div numerator denominator
  difference ← checked_sub raw_pre_fee_amount post_fee_amount
  (if leb fee.maximum_fee difference
      then checked_add 64 post_fee_amount fee.maximum_fee
      else try_to_u64 raw_pre_fee_amount)

unfoldable pub calculate_pre_fee_amount : TransferFee → ℕ → Option ℕ
calculate_pre_fee_amount fee post_fee_amount =
    if fee.transfer_fee_basis_points == 0
    then some post_fee_amount
    else if post_fee_amount == 0
    then some 0
    else if fee.transfer_fee_basis_points == one_in_basis_points
    then checked_add 64 fee.maximum_fee post_fee_amount
    else inverted_fee fee post_fee_amount
