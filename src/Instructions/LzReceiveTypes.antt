-- ===== src/Instructions/LzReceiveTypes.antt =====
-- instructions/lz_receive_types.rs: the accounts that the executor has to pass to `lz_receive`.
pub mod Composing
pub mod Accounts
pub mod Answers
use cross_chain_contracts.Common.{
  ℕ, Bool, true, false, Option, none, some, List, [], ◌∷◌, ◌++◌, if◌then◌else◌,
}
use cross_chain_contracts.Errors.{Result, ok, ◌>>=◌, ◌>>◌}
use cross_chain_contracts.MsgCodec as MsgCodec
use cross_chain_contracts.ComposeMsgCodec as ComposeMsgCodec
use cross_chain_contracts.State.RateLimiter.{Clock}
use cross_chain_contracts.State.OftStore.{OftStore, is_adapter, sd2ld}
use cross_chain_contracts.Platform.{Host}
use cross_chain_contracts.Platform.Cpi.{Account, Mint, LzReceiveParams, LzAccount}
use cross_chain_contracts.Fees.{get_post_fee_amount_ld}
use cross_chain_contracts.Instructions.Accounts.{check_store, check_address, peer_seeds}
use cross_chain_contracts.Instructions.Quote.{default_key}

-- `Context<LzReceiveTypes>`
pub record LzReceiveTypesContext : Type 0 where
  pub oft_store : Account OftStore
  pub token_mint : Mint

abbrev pub account : List ℕ → Bool → Bool → LzAccount
account pubkey is_signer is_writable = record {
  pubkey = pubkey;
  is_signer = is_signer;
  is_writable = is_writable;
}

module _ (h : Host) where
  abbrev pub mint_authority_or_program : Mint → List ℕ
  mint_authority_or_program m = elim m.mint_authority [ some key ↦ key | none ↦ h.program_id ]

  -- The accounts 0 to 12.
  unfoldable pub fixed_accounts : LzReceiveTypesContext → LzReceiveParams → List ℕ → List LzAccount
  fixed_accounts c params to_address =
      let (peer, _) =
        h.find_program_address (peer_seeds c.oft_store.key params.src_eid) h.program_id in
      let (event_authority, _) = h.find_program_address (h.event_seed ∷ []) h.program_id in
      let token_program = c.token_mint.token_program in
      let token_dest =
        h.get_associated_token_address_with_program_id to_address c.oft_store.value.token_mint
          token_program in
      account default_key true true
      ∷ account peer false true
      ∷ account c.oft_store.key false true
      ∷ account c.oft_store.value.token_escrow false true
      ∷ account to_address false false
      ∷ account token_dest false true
      ∷ account c.token_mint.key false true
      ∷ account (mint_authority_or_program c.token_mint) false false
      ∷ account token_program false false
      ∷ account h.associated_token_id false false
      ∷ account h.system_program_id false false
      ∷ account event_authority false false
      ∷ account h.program_id false false
      ∷ []

  unfoldable pub received_ld : Result Clock → LzReceiveTypesContext → ℕ → Result ℕ
  received_ld clock c amount_ld =
      if is_adapter c.oft_store.value.oft_type
      then get_post_fee_amount_ld h clock c.token_mint amount_ld
      else ok amount_ld

  unfoldable pub compose_accounts :
      Result Clock → LzReceiveTypesContext → LzReceiveParams → List ℕ → Result (List LzAccount)
  compose_accounts clock c params to_address = elim (MsgCodec.compose_msg params.message) [
    | none ↦ ok []
    | some message ↦ do
      amount_sd ← MsgCodec.amount_sd params.message
      amount_ld ← sd2ld c.oft_store.value amount_sd
      amount_received_ld ← received_ld clock c amount_ld
      ok (
          h.get_accounts_for_send_compose c.oft_store.value.endpoint_program c.oft_store.key
            to_address params.guid 0
            (ComposeMsgCodec.encode params.nonce params.src_eid amount_received_ld message))
  ]

  -- The instruction `lz_receive_types` of lib.rs.
  unfoldable pub lz_receive_types :
      Result Clock → LzReceiveTypesContext → LzReceiveParams → Result (List LzAccount)
  lz_receive_types clock c params = do
    check_store h c.oft_store
    check_address c.token_mint.key c.oft_store.value.token_mint
    to_address ← MsgCodec.send_to params.message
    let accounts_for_clear =
        h.get_accounts_for_clear c.oft_store.value.endpoint_program c.oft_store.key params.src_eid
          params.sender params.nonce
    accounts_for_composing ← compose_accounts clock c params to_address
    ok (fixed_accounts c params to_address ++ (accounts_for_clear ++ accounts_for_composing))
