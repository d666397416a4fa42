-- ===== src/Instructions/LzReceiveTypes/Accounts.antt =====
-- The accounts that lz_receive_types.rs lists, against those of lz_receive.rs.
use cross_chain_contracts.Common.{
  ℕ, ◌≡◌, ◌⊎◌, inl, inr, sym, ◌∙◌, true, false, Option, none, some, List, [], ◌∷◌, ◌++◌,
  Option-cases,
}
use cross_chain_contracts.Errors.{Result, ok, >>=-eq-ok, >>-eq-ok, ok-injective, require-eq-ok}
use cross_chain_contracts.MsgCodec as MsgCodec
use cross_chain_contracts.State.RateLimiter.{Clock}
use cross_chain_contracts.Platform.{Host}
use cross_chain_contracts.Platform.Cpi.{LzReceiveParams, LzAccount, Mint}
use cross_chain_contracts.Platform.Laws.{PdaLaws}
use cross_chain_contracts.Instructions.Quote.{default_key}
use cross_chain_contracts.Instructions.Accounts.{
  check_store, check_address, check_peer, check_seeds, peer_seeds, is_key,
}
use cross_chain_contracts.Instructions.LzReceive.{LzReceiveContext, check_accounts}
use cross_chain_contracts.Instructions.LzReceive.Checked.{
  is_key-some, check_accounts-ReceiveChecked,
}
use cross_chain_contracts.Instructions.LzReceiveTypes.Composing.{
  ListsComposing, compose_accounts-ListsComposing,
}
use cross_chain_contracts.Instructions.LzReceiveTypes.{
  LzReceiveTypesContext, account, mint_authority_or_program, fixed_accounts, compose_accounts,
  lz_receive_types,
}

module _ (h : Host) (t : LzReceiveTypesContext) (params : LzReceiveParams) where
  -- What `lz_receive_types` answers: the 13 fixed accounts, then those for `clear` and
  -- `send_compose`.
  lz_receive_types_parts :
      (clock : Result Clock) {accounts : List LzAccount}
      → lz_receive_types h clock t params ≡ ok accounts
      → (to_address : List ℕ) × (composing : List LzAccount) × (MsgCodec.send_to params.message
          ≡ ok to_address)
        × (compose_accounts h clock t params to_address ≡ ok composing)
        × (accounts
            ≡ fixed_accounts h t params to_address
              ++ (h.get_accounts_for_clear t.oft_store.value.endpoint_program t.oft_store.key
                    params.src_eid params.sender params.nonce
                  ++ composing))
  unfolding lz_receive_types
  lz_receive_types_parts clock e =
      let e1 = >>-eq-ok (check_store h t.oft_store) _ e in
      let e2 = >>-eq-ok (check_address t.token_mint.key t.oft_store.value.token_mint) _ e1 in
      let (to_address, to, e3) = >>=-eq-ok (MsgCodec.send_to params.message) _ e2 in
      let (composing, composes, e4) =
        >>=-eq-ok (compose_accounts h clock t params to_address) _ e3 in
      (to_address, composing, to, composes, sym (ok-injective e4))

  -- The peer that passes its check stands at the address that its seeds find, if its bump is
  -- theirs.
  peer_found :
      (pda : PdaLaws h) (c : LzReceiveContext)
      → (h.find_program_address (peer_seeds c.oft_store.key params.src_eid) h.program_id).1
        ≡ c.peer.value.bump
      → check_peer h c.peer c.oft_store params.src_eid ≡ ok tt
      → (h.find_program_address (peer_seeds c.oft_store.key params.src_eid) h.program_id).0
        ≡ c.peer.key
  unfolding check_peer check_seeds
  peer_found pda c bump checked =
      let parts = peer_seeds c.oft_store.key params.src_eid in
      let made = h.create_program_address (parts ++ (c.peer.value.bump ∷ []) ∷ []) h.program_id in
      let passes = is_key-some made c.peer.key (require-eq-ok (is_key made c.peer.key) _ checked) in
      let found : made ≡ some (h.find_program_address parts h.program_id).0 =
        rw (← bump) (pda.found parts h.program_id) in
      cc

  -- The mint authority that is listed, against the one that `lz_receive` accepts.
  authority_cases :
      (m : Mint) (given : Option (List ℕ))
      → ((key : List ℕ) → given ≡ some key → m.mint_authority ≡ some key)
      → let listed = mint_authority_or_program h m in
        ((m.mint_authority ≡ none) × (given ≡ none) × (listed ≡ h.program_id))
        ⊎ ((m.mint_authority ≡ some listed) × ((given ≡ none) ⊎ (given ≡ some listed)))
  authority_cases m given accepted = elim (Option-cases m.mint_authority) [
    | inl absent ↦ elim (Option-cases given) [
      | inl left_out ↦ inl (absent, left_out, rw absent)
      | inr (key, passed) ↦ let has = accepted key passed in cc
    ]
    | inr (key, has) ↦ elim (Option-cases given) [
      | inl left_out ↦ inr (rw has, inl left_out)
      | inr (key', passed) ↦ inr (rw has, inr (rw has (passed ∙ sym (accepted key' passed) ∙ has)))
    ]
  ]

  -- Where an address that is found is what its seeds and bump create, if `lz_receive_types` answers
  -- for a message, and `lz_receive` accepts a context for the same message, store and mint, with a
  -- peer whose bump is the one that its seeds find, then the answer is, in this order: a payer as a
  -- writable signer under the default key; the peer, the store, the escrow, the recipient, the
  -- destination and the mint of the context, all writable but the recipient; a mint authority; the
  -- token program of the context, the two fixed programs, the event authority and the program; and
  -- then the accounts of the endpoint for clearing, and for a composed message those for composing it
  -- to that recipient with the amount after the transfer fee of an adapter. The mint authority that is
  -- listed is that of the mint, and the context has it or none; or the mint has none, the context has
  -- none, and the program's own address is listed.
  pub lz_receive_types_lem :
      (pda : PdaLaws h) (clock : Result Clock) (c : LzReceiveContext) (w : h.World) {w' : h.World}
      {accounts : List LzAccount}
      → c.oft_store ≡ t.oft_store
      → c.token_mint ≡ t.token_mint
      → (h.find_program_address (peer_seeds c.oft_store.key params.src_eid) h.program_id).1
        ≡ c.peer.value.bump
      → check_accounts h c params w ≡ ok w'
      → lz_receive_types h clock t params ≡ ok accounts
      → (authority : List ℕ) × (composing : List LzAccount) × (accounts
          ≡ account default_key true true
            ∷ account c.peer.key false true
            ∷ account c.oft_store.key false true
            ∷ account c.token_escrow.key false true
            ∷ account c.to_address false false
            ∷ account c.token_dest.key false true
            ∷ account c.token_mint.key false true
            ∷ account authority false false
            ∷ account c.token_program false false
            ∷ account h.associated_token_id false false
            ∷ account h.system_program_id false false
            ∷ account (h.find_program_address (h.event_seed ∷ []) h.program_id).0 false false
            ∷ account h.program_id false false
            ∷ (h.get_accounts_for_clear c.oft_store.value.endpoint_program c.oft_store.key
                  params.src_eid params.sender params.nonce
                ++ composing))
        × ListsComposing h t params clock c.to_address composing
        × (((c.token_mint.mint_authority ≡ none)
              × (c.mint_authority ≡ none)
              × (authority ≡ h.program_id))
            ⊎ ((c.token_mint.mint_authority ≡ some authority)
                × ((c.mint_authority ≡ none) ⊎ (c.mint_authority ≡ some authority))))
  unfolding fixed_accounts
  lz_receive_types_lem pda clock c w store mint bump checked e =
      let (to_address, composing, to, composes, parts) = lz_receive_types_parts clock e in
      let v = check_accounts-ReceiveChecked h c params w checked in
      let same_to : to_address ≡ c.to_address = ok-injective (sym to ∙ v.recipient) in
      (
        mint_authority_or_program h c.token_mint,
        composing,
        parts
            ∙ rw (
              ← store,
              ← mint,
              v.mint_program,
              same_to,
              peer_found pda c bump v.peer_checked,
              ← v.mint_key,
              ← v.escrow_key,
              ← v.dest_key,
            ),
        compose_accounts-ListsComposing h t params clock c.to_address (rw (← same_to) composes),
        authority_cases c.token_mint c.mint_authority v.authority,
      )
