-- ===== src/Instructions/WithdrawFee.antt =====
-- instructions/withdraw_fee.rs: the admin takes from the escrow what is above the locked value.
pub mod Branches
use cross_chain_contracts.Common.{ℕ, List, leb, bytes_eq}
use cross_chain_contracts.Errors.{
  Result, oft, unauthorized, invalid_fee, constraint, token_mint, token_token_program, require,
  ◌>>◌, ◌>>=◌,
}
use cross_chain_contracts.Words.{sub_u64}
use cross_chain_contracts.State.OftStore.{OftStore}
use cross_chain_contracts.Platform.{Host}
use cross_chain_contracts.Platform.Cpi.{Account, TokenAccount, Mint}
use cross_chain_contracts.Instructions.Accounts.{
  check_store, check_token, check_address, check_mint_program, signer_seeds,
}

-- `Context<WithdrawFee>`
pub record WithdrawFeeContext : Type 0 where
  pub admin : List ℕ
  pub oft_store : Account OftStore
  pub token_mint : Mint
  pub token_escrow : TokenAccount
  pub token_dest : TokenAccount
  pub token_program : List ℕ

pub record WithdrawFeeParams : Type 0 where
  pub fee_ld : ℕ

module _ (h : Host) where
  unfoldable pub check_accounts : WithdrawFeeContext → Result (Unit {0})
  check_accounts c = do
    check_store h c.oft_store
    require (bytes_eq c.oft_store.value.admin c.admin) (oft unauthorized)
    check_address c.token_mint.key c.oft_store.value.token_mint
    check_mint_program c.token_mint c.token_program
    check_address c.token_escrow.key c.oft_store.value.token_escrow
    check_token c.token_escrow c.oft_store.key c.token_mint.key c.token_program
    require (bytes_eq c.token_dest.mint c.token_mint.key) (constraint token_mint)
    require (bytes_eq c.token_dest.token_program c.token_program) (constraint token_token_program)

  unfoldable pub apply : WithdrawFeeContext → WithdrawFeeParams → h.World → Result h.World
  apply c params w = do
    fees_ld ← sub_u64 c.token_escrow.amount c.oft_store.value.tvl_ld
    require (leb params.fee_ld fees_ld) (oft invalid_fee)
    h.transfer_checked
        (record {
          from = c.token_escrow.key;
          mint = c.token_mint.key;
          to = c.token_dest.key;
          authority = c.oft_store.key;
        })
        (signer_seeds c.token_escrow.key c.oft_store.value.bump) params.fee_ld c.token_mint.decimals
        w

  -- The instruction `withdraw_fee` of lib.rs.
  unfoldable pub withdraw_fee : WithdrawFeeContext → WithdrawFeeParams → h.World → Result h.World
  withdraw_fee c params w = check_accounts c >> apply c params w
