-- ===== src/Instructions/LzReceiveTypes/Answers.antt =====
-- lz_receive_types.rs for a message that lz_receive.rs delivers.
use cross_chain_contracts.Common.{
  ℕ, ◌≡◌, inl, inr, List, [], ◌++◌, Option-cases, Bool-cases, bytes_eq_refl,
}
use cross_chain_contracts.Errors.{Result, ok, >>=-eq-ok}
use cross_chain_contracts.Words.{sub_u64}
use cross_chain_contracts.MsgCodec as MsgCodec
use cross_chain_contracts.ComposeMsgCodec as ComposeMsgCodec
use cross_chain_contracts.State.RateLimiter.{Clock}
use cross_chain_contracts.State.OftStore.{OftStore, is_adapter, sd2ld}
use cross_chain_contracts.Platform.{Host}
use cross_chain_contracts.Platform.Cpi.{LzReceiveParams, LzAccount}
use cross_chain_contracts.Fees.{get_post_fee_amount_ld}
use cross_chain_contracts.Instructions.Accounts.{check_address}
use cross_chain_contracts.Instructions.LzReceive.{
  LzReceiveContext, Received, give_tokens, transfer_from_escrow, lz_receive,
}
use cross_chain_contracts.Instructions.LzReceive.Run.{lz_receive-ReceiveRun}
use cross_chain_contracts.Instructions.LzReceive.Checked.{check_accounts-ReceiveChecked}
use cross_chain_contracts.Instructions.LzReceiveTypes.{
  LzReceiveTypesContext, fixed_accounts, received_ld, compose_accounts, lz_receive_types,
}

check_address_same : {key expected : List ℕ} → key ≡ expected → check_address key expected ≡ ok tt
unfolding check_address
check_address_same {expected = expected} same = rw (same, bytes_eq_refl expected)

module _ (h : Host) (clock : Result Clock) (c : LzReceiveContext) where
  abbrev pub types_of : LzReceiveTypesContext
  types_of = record { oft_store = c.oft_store; token_mint = c.token_mint }

  received_ld-ok :
      (amount : ℕ) (w : h.World) {s' : OftStore} {w' : h.World} {received : ℕ}
      → give_tokens h clock c amount w ≡ ok (s', w', received)
      → (listed : ℕ) × (received_ld h clock types_of amount ≡ ok listed)
  unfolding give_tokens received_ld
  received_ld-ok amount w e = elim (Bool-cases (is_adapter c.oft_store.value.oft_type)) [
    | inl kind ↦
        let (tvl, _, e1) = >>=-eq-ok (sub_u64 c.oft_store.value.tvl_ld amount) _ (rw kind at e) in
        let (moved, _, e2) = >>=-eq-ok (transfer_from_escrow h c amount w) _ e1 in
        let (post, read, _) = >>=-eq-ok (get_post_fee_amount_ld h clock c.token_mint amount) _ e2 in
        (post, rw kind read)
    | inr kind ↦ (amount, rw kind)
  ]

  compose_accounts-ok :
      (params : LzReceiveParams) (to_address : List ℕ) {amount_sd amount_ld listed : ℕ}
      → MsgCodec.amount_sd params.message ≡ ok amount_sd
      → sd2ld c.oft_store.value amount_sd ≡ ok amount_ld
      → received_ld h clock types_of amount_ld ≡ ok listed
      → (composing : List LzAccount) × (compose_accounts h clock types_of params to_address
          ≡ ok composing)
  unfolding compose_accounts
  compose_accounts-ok params to_address {listed = listed} decoded converted given =
      elim (Option-cases (MsgCodec.compose_msg params.message)) [
        | inl plain ↦ ([], rw (plain, compose_accounts))
        | inr (message, composes) ↦ (
          h.get_accounts_for_send_compose c.oft_store.value.endpoint_program c.oft_store.key
              to_address params.guid 0
              (ComposeMsgCodec.encode params.nonce params.src_eid listed message),
          rw (composes, compose_accounts, decoded, converted, given),
        )
      ]

  -- If `lz_receive` succeeds on a message, then `lz_receive_types` answers for that message, on the
  -- same store and mint at the same clock.
  pub lz_receive_types-ok :
      (params : LzReceiveParams) (w : h.World) {r : Received h}
      → lz_receive h clock c params w ≡ ok r
      → (accounts : List LzAccount) × (lz_receive_types h clock types_of params ≡ ok accounts)
  unfolding lz_receive_types
  lz_receive_types-ok params w e =
      let run = lz_receive-ReceiveRun h clock c params w e in
      let v = check_accounts-ReceiveChecked h c params w run.checked in
      let (listed, given) = received_ld-ok run.amount_ld run.after_clear run.given in
      let (composing, composes) =
        compose_accounts-ok params c.to_address run.decoded run.converted given in
      let clearing =
        h.get_accounts_for_clear c.oft_store.value.endpoint_program c.oft_store.key params.src_eid
          params.sender params.nonce in
      (
        fixed_accounts h types_of params c.to_address ++ (clearing ++ composing),
        rw (v.store_checked, check_address_same v.mint_key, v.recipient, composes),
      )
