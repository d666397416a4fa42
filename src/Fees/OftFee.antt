-- ===== src/Fees/OftFee.antt =====
-- `calculate_fee` of instructions/quote_send.rs: the share in basis points, rounded down.
use cross_chain_contracts.Common.{ℕ, ◌*◌, ◌/◌, ◌≤◌, ◌≡◌, arith, Option}
use cross_chain_contracts.Errors.{ok}
use cross_chain_contracts.Words.{IsU64}
use cross_chain_contracts.Fees.{calculate_fee, final_fee_bps}

-- The share of an amount that a rate in basis points is.
abbrev pub share : ℕ → ℕ → ℕ
share bps amount = amount * bps / 10_000

mul_le : (amount bps cap : ℕ) → bps ≤ cap → amount * bps ≤ amount * cap
mul_le amount bps cap h = grind arith

pub share-le : (bps amount : ℕ) → bps ≤ 10_000 → share bps amount ≤ amount
share-le bps amount h = omega (arith, mul_le amount bps 10_000 h)

-- At a rate of at most 10,000 basis points and a u64 amount the u128 product does not overflow and
-- the quotient fits a u64: the fee is the share of the amount, of the peer's rate if it has one and
-- else of the default.
pub calculate_fee_lem :
    (amount default_bps : ℕ) (fee_bps : Option ℕ)
    → IsU64 amount
    → final_fee_bps default_bps fee_bps ≤ 10_000
    → calculate_fee amount default_bps fee_bps
      ≡ ok (share (final_fee_bps default_bps fee_bps) amount)
unfolding calculate_fee
calculate_fee_lem amount default_bps fee_bps fits low =
    let bps = final_fee_bps default_bps fee_bps in
    ground (arith, mul_le amount bps 10_000 low, share-le bps amount low)
