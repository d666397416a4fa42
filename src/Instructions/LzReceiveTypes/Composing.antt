-- ===== src/Instructions/LzReceiveTypes/Composing.antt =====
-- The accounts that instructions/lz_receive_types.rs lists for a composed message.
use cross_chain_contracts.Common.{
  ℕ, ◌≡◌, ◌⊎◌, inl, inr, sym, true, false, none, some, List, [], Option-cases, Bool-cases,
}
use cross_chain_contracts.Errors.{Result, ok, >>=-eq-ok, ok-injective}
use cross_chain_contracts.MsgCodec as MsgCodec
use cross_chain_contracts.ComposeMsgCodec as ComposeMsgCodec
use cross_chain_contracts.State.RateLimiter.{Clock}
use cross_chain_contracts.State.OftStore.{is_adapter, sd2ld}
use cross_chain_contracts.Platform.{Host}
use cross_chain_contracts.Platform.Cpi.{LzReceiveParams, LzAccount}
use cross_chain_contracts.Fees.{get_post_fee_amount_ld}
use cross_chain_contracts.Instructions.LzReceiveTypes.{
  LzReceiveTypesContext, received_ld, compose_accounts,
}

module _ (h : Host) (t : LzReceiveTypesContext) (params : LzReceiveParams) where
  -- The accounts that are listed for composing: none for a plain message, and else those of the
  -- message that the composer is to be given.
  abbrev pub ListsComposing : Result Clock → List ℕ → List LzAccount → Type 0
  ListsComposing clock to_address composing =
      ((MsgCodec.compose_msg params.message ≡ none) × (composing ≡ []))
      ⊎ ((message : List ℕ) × (amount_sd : ℕ) × (amount_ld : ℕ) × (received : ℕ)
          × (MsgCodec.compose_msg params.message ≡ some message)
          × (MsgCodec.amount_sd params.message ≡ ok amount_sd)
          × (sd2ld t.oft_store.value amount_sd ≡ ok amount_ld)
          × (((is_adapter t.oft_store.value.oft_type ≡ true)
                × (get_post_fee_amount_ld h clock t.token_mint amount_ld ≡ ok received))
              ⊎ ((is_adapter t.oft_store.value.oft_type ≡ false) × (received ≡ amount_ld)))
          × (composing
              ≡ h.get_accounts_for_send_compose t.oft_store.value.endpoint_program t.oft_store.key
                  to_address params.guid 0
                  (ComposeMsgCodec.encode params.nonce params.src_eid received message)))

  received_ld_cases :
      (clock : Result Clock) (amount_ld : ℕ) {received : ℕ}
      → received_ld h clock t amount_ld ≡ ok received
      → ((is_adapter t.oft_store.value.oft_type ≡ true)
          × (get_post_fee_amount_ld h clock t.token_mint amount_ld ≡ ok received))
        ⊎ ((is_adapter t.oft_store.value.oft_type ≡ false) × (received ≡ amount_ld))
  unfolding received_ld
  received_ld_cases clock amount_ld e = elim (Bool-cases (is_adapter t.oft_store.value.oft_type)) [
    | inl kind ↦ inl (kind, rw kind at e)
    | inr kind ↦ inr (kind, sym (ok-injective (rw kind at e)))
  ]

  pub compose_accounts-ListsComposing :
      (clock : Result Clock) (to_address : List ℕ) {composing : List LzAccount}
      → compose_accounts h clock t params to_address ≡ ok composing
      → ListsComposing clock to_address composing
  unfolding compose_accounts
  compose_accounts-ListsComposing clock to_address e =
      elim (Option-cases (MsgCodec.compose_msg params.message)) [
        | inl plain ↦ inl (plain, sym (ok-injective (rw (plain, compose_accounts) at e)))
        | inr (message, composes) ↦
            let (amount_sd, decoded, e1) =
              >>=-eq-ok (MsgCodec.amount_sd params.message) _
                (rw (composes, compose_accounts) at e) in
            let (amount_ld, converted, e2) = >>=-eq-ok (sd2ld t.oft_store.value amount_sd) _ e1 in
            let (received, given, e3) = >>=-eq-ok (received_ld h clock t amount_ld) _ e2 in
            inr (
              message,
              amount_sd,
              amount_ld,
              received,
              composes,
              decoded,
              converted,
              received_ld_cases clock amount_ld given,
              sym (ok-injective e3),
            )
      ]
