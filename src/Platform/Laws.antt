-- ===== src/Platform/Laws.antt =====
-- What the program relies on of the programs that it calls.
use cross_chain_contracts.Common.{List, [], ◌∷◌, ◌++◌, ℕ, ◌+◌, ◌-◌, ◌*◌, ◌/◌, ◌≤◌, ◌≡◌, some, min}
use cross_chain_contracts.Words.{IsU64}
use cross_chain_contracts.Platform.{Host}
use cross_chain_contracts.Platform.Cpi.{TransferFee}

-- The fee that a token program withholds from a transfer: basis points, rounded up, and capped.
abbrev pub withheld : TransferFee → ℕ → ℕ
withheld fee amount =
    min fee.maximum_fee ((amount * fee.transfer_fee_basis_points + 9_999) / 10_000)

-- What arrives of a transfer.
abbrev pub post_fee : TransferFee → ℕ → ℕ
post_fee fee amount = amount - withheld fee amount

pub record IsFee (fee : TransferFee) : Type 0 where
  pub at_most_all : fee.transfer_fee_basis_points ≤ 10_000
  pub cap_fits : IsU64 fee.maximum_fee

-- spl-token-2022: a fee that a mint carries is at most the whole amount, and
-- `calculate_post_fee_amount` takes it off.
pub record FeeLaws (h : Host) : Type 0 where
  pub epoch_fee : (c : h.TransferFeeConfig) (epoch : ℕ) → IsFee (h.get_epoch_fee c epoch)
  pub post_fee_amount :
      (fee : TransferFee) (amount : ℕ)
      → IsFee fee
      → IsU64 amount
      → h.calculate_post_fee_amount fee amount ≡ some (post_fee fee amount)

-- The runtime: the address and the bump that `find_program_address` answers are a pair for which
-- `create_program_address` answers that address.
pub record PdaLaws (h : Host) : Type 0 where
  pub found :
      (parts : List (List ℕ)) (program : List ℕ)
      → let (address, bump) = h.find_program_address parts program in
        h.create_program_address (parts ++ (bump ∷ []) ∷ []) program ≡ some address
