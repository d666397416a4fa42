-- ===== src/Fees/Tests.antt =====
-- The fee arithmetic of quote_send.rs at concrete amounts.
use cross_chain_contracts.Common.{ℕ, ◌≤◌, ◌≡◌, refl, arith, none, some}
use cross_chain_contracts.Errors.{ok}
use cross_chain_contracts.Words.{checked_add, checked_sub, checked_mul, checked_div}
use cross_chain_contracts.Platform.Cpi.{TransferFee}
use cross_chain_contracts.Platform.Laws.{post_fee, IsFee}
use cross_chain_contracts.Fees.{calculate_fee}
use cross_chain_contracts.Fees.PreFee.{ceil_div, inverted_fee, calculate_pre_fee_amount}
use cross_chain_contracts.Fees.PreFee.Inverse.{pre_fee_enough, pre_fee_least}
use cross_chain_contracts.Fees.OftFee.{share, calculate_fee_lem}

-- 1%, at most 5,000
abbrev one_percent : TransferFee
one_percent = record { maximum_fee = 5_000; transfer_fee_basis_points = 100 }

one_percent-IsFee : IsFee one_percent
one_percent-IsFee = omega arith

inverts : calculate_pre_fee_amount one_percent 1_000 ≡ some 1_011
unfolding calculate_pre_fee_amount inverted_fee ceil_div checked_add checked_sub checked_mul
    checked_div
inverts = refl

inverts_capped : calculate_pre_fee_amount one_percent 995_000 ≡ some 1_000_000
unfolding calculate_pre_fee_amount inverted_fee ceil_div checked_add checked_sub checked_mul
    checked_div
inverts_capped = refl

pre_fee_enough_example : 1_000 ≤ post_fee one_percent 1_011
pre_fee_enough_example =
    pre_fee_enough one_percent 1_000 1_011 one_percent-IsFee (omega arith) inverts

pre_fee_least_example :
    (p : ℕ) × (calculate_pre_fee_amount one_percent 1_000 ≡ some p) × (p ≤ 1_012)
pre_fee_least_example =
    pre_fee_least one_percent 1_000 1_012 one_percent-IsFee (omega arith) (omega arith)
      (omega arith)

calculate_fee_lem_example : calculate_fee 995_000 30 none ≡ ok (share 30 995_000)
calculate_fee_lem_example = calculate_fee_lem 995_000 30 none (omega arith) (omega arith)
