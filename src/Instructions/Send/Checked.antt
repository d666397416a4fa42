-- ===== src/Instructions/Send/Checked.antt =====
-- What the account attributes of `Send` in instructions/send.rs establish.
use cross_chain_contracts.Common.{◌≡◌, arith, bytes_eq→eq}
use cross_chain_contracts.Errors.{ok}
use cross_chain_contracts.Platform.{Host}
use cross_chain_contracts.Instructions.Accounts.{check_token, check_address}
use cross_chain_contracts.Instructions.Send.{SendContext, SendParams, check_accounts}

module _ (h : Host) (c : SendContext) (params : SendParams) where
  pub record SendChecked : Type 0 where
    pub source_owner : c.token_source.owner ≡ c.signer
    pub source_mint : c.token_source.mint ≡ c.token_mint.key
    pub escrow_key : c.token_escrow.key ≡ c.oft_store.value.token_escrow
    pub escrow_owner : c.token_escrow.owner ≡ c.oft_store.key
    pub mint_key : c.token_mint.key ≡ c.oft_store.value.token_mint

  pub check_accounts-SendChecked : check_accounts h c params ≡ ok tt → SendChecked
  unfolding check_accounts check_address check_token
  check_accounts-SendChecked e = record {
    source_owner = ground (arith, bytes_eq→eq c.token_source.owner c.signer, e);
    source_mint = ground (arith, bytes_eq→eq c.token_source.mint c.token_mint.key, e);
    escrow_key = ground (arith, bytes_eq→eq c.token_escrow.key c.oft_store.value.token_escrow, e);
    escrow_owner = ground (arith, bytes_eq→eq c.token_escrow.owner c.oft_store.key, e);
    mint_key = ground (arith, bytes_eq→eq c.token_mint.key c.oft_store.value.token_mint, e);
  }
