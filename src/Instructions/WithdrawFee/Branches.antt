-- ===== src/Instructions/WithdrawFee/Branches.antt =====
-- What withdraw_fee.rs does on each of its branches.
use cross_chain_contracts.Common.{◌+◌, ◌-◌, ◌≤◌, ◌<◌, ◌≡◌, ◌⊎◌, inl, inr, arith, leb, Bool-cases}
use cross_chain_contracts.Errors.{ok, err, panic, oft, invalid_fee}
use cross_chain_contracts.Words.{sub_u64}
use cross_chain_contracts.Platform.{Host}
use cross_chain_contracts.Instructions.Accounts.{signer_seeds}
use cross_chain_contracts.Instructions.WithdrawFee.{
  WithdrawFeeContext, WithdrawFeeParams, check_accounts, apply, withdraw_fee,
}

-- Where the accounts pass their checks, `withdraw_fee` panics if the escrow holds less than the
-- locked value, reports `InvalidFee` if the fee is more than what the escrow holds above it, and
-- else is the transfer of the fee from the escrow to the destination, signed by the store.
pub withdraw_fee_lem :
    (h : Host) (c : WithdrawFeeContext) (params : WithdrawFeeParams) (w : h.World)
    → check_accounts h c ≡ ok tt
    → ((c.token_escrow.amount < c.oft_store.value.tvl_ld) × (withdraw_fee h c params w ≡ panic))
      ⊎ ((c.oft_store.value.tvl_ld ≤ c.token_escrow.amount)
          × (c.token_escrow.amount < c.oft_store.value.tvl_ld + params.fee_ld)
          × (withdraw_fee h c params w ≡ err (oft invalid_fee)))
      ⊎ ((c.oft_store.value.tvl_ld + params.fee_ld ≤ c.token_escrow.amount)
          × (withdraw_fee h c params w
              ≡ h.transfer_checked
                  (record {
                    from = c.token_escrow.key;
                    mint = c.token_mint.key;
                    to = c.token_dest.key;
                    authority = c.oft_store.key;
                  })
                  (signer_seeds c.token_escrow.key c.oft_store.value.bump)
                  params.fee_ld
                  c.token_mint.decimals
                  w))
unfolding withdraw_fee apply sub_u64
withdraw_fee_lem h c params w checked =
    let held = c.token_escrow.amount in
    let tvl = c.oft_store.value.tvl_ld in
    elim (Bool-cases (leb tvl held)) [
      | inr short ↦ inl (ground arith, rw (checked, short))
      | inl covered ↦ elim (Bool-cases (leb params.fee_ld (held - tvl))) [
        | inr more ↦ inr (inl (ground arith, ground arith, rw (checked, covered, more)))
        | inl fits ↦ inr (inr (ground arith, rw (checked, covered, fits)))
      ]
    ]
