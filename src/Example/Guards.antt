-- ===== src/Example/Guards.antt =====
-- The theorems on what each instruction accepts and promises, at the accounts of the examples.
use cross_chain_contracts.Common.{
  ℕ, ◌≡◌, ◌≢◌, ◌+◌, ◌⊎◌, refl, arith, true, false, none, some, List, [], ◌∷◌, ◌++◌, length,
}
use cross_chain_contracts.Errors.{ok, err, oft, paused, unauthorized}
use cross_chain_contracts.MsgCodec as MsgCodec
use cross_chain_contracts.State.PeerConfig.Valid.{IsValidPeer}
use cross_chain_contracts.Instructions.Send as Send
use cross_chain_contracts.Instructions.Send.Message.{Handed, send-Handed}
use cross_chain_contracts.Instructions.LzReceive as LzReceive
use cross_chain_contracts.Platform.Cpi.{LzAccount}
use cross_chain_contracts.Instructions.Quote.{default_key}
use cross_chain_contracts.Instructions.LzReceiveTypes.{account, lz_receive_types}
use cross_chain_contracts.Instructions.LzReceiveTypes.Answers.{lz_receive_types-ok}
use cross_chain_contracts.Instructions.LzReceiveTypes.Composing.{ListsComposing}
use cross_chain_contracts.Instructions.LzReceiveTypes.Accounts.{lz_receive_types_lem}
use cross_chain_contracts.Instructions.Quote as Quote
use cross_chain_contracts.Instructions.Quote.Agreement.{
  quote_oft-send, quoted_message_lem, total_fees,
}
use cross_chain_contracts.Instructions.Paused.{paused_refuses}
use cross_chain_contracts.Instructions.Config.{SetOftConfigParams, set_pause}
use cross_chain_contracts.Instructions.Config.Effects.{
  ConfigEffect, role, set_oft_config-ConfigEffect, set_pause_lem,
}
use cross_chain_contracts.Instructions.Config.PeerEffects.{set_peer_config-IsValidPeer}
use cross_chain_contracts.Example.{
  host, clock, key, store_key, peer_key, escrow_key, mint_key, dest_key, token_program_key, receipt,
  State,
}
use cross_chain_contracts.Example.Keeps.{pda_laws, fee_laws, key-IsArray}
use cross_chain_contracts.Example.Accounts.{
  admin, pauser, alice, bob, store, peer, world, send_context, send_params, receive_context,
  receive_params, quote_context, quote_request, types_context, pause_context, config_context,
  peer_context,
}
use cross_chain_contracts.Example.Transfers.{
  sent, send_run, receive_run, found_context, found_checked, paused_store, paused_send_checked,
  paused_receive_checked, paused_quote_checked, quote_checked, types_run,
}
use cross_chain_contracts.Example.Settings.{
  store_checked, config_run, limit_params, limited_peer, peer_run,
}

send-Handed_example : Handed host (send_context store) send_params sent.oft_store 993_000 receipt
send-Handed_example =
    send-Handed host (send_context store) send_params clock world fee_laws (omega arith)
      (omega arith) (omega arith) (key-IsArray 12 (omega arith)) (key-IsArray 6 (omega arith))
      send_run

quote_oft-send_example :
    (result : Quote.QuoteOftResult) × (Quote.quote_oft host clock
        (quote_context store)
        quote_request
      ≡ ok result)
    × (result.oft_receipt ≡ sent.oft_receipt)
    × (total_fees result.oft_fee_details + 993_000 ≡ 1_000_000)
quote_oft-send_example =
    quote_oft-send host clock (send_context store) send_params world (quote_context store)
      quote_request fee_laws (omega arith) (omega arith) (omega arith) refl refl refl refl refl
      quote_checked send_run

quoted_message_lem_example :
    (length (Quote.quoted_message quote_request 993_000)
      ≡ length (MsgCodec.encode (key 12) 993 alice (some (1 ∷ 2 ∷ []))))
    × (MsgCodec.amount_sd (Quote.quoted_message quote_request 993_000) ≡ ok 993_000)
    × (MsgCodec.amount_sd (MsgCodec.encode (key 12) 993 alice (some (1 ∷ 2 ∷ []))) ≡ ok 993)
    × (Quote.quoted_message quote_request 993_000
        ≢ MsgCodec.encode (key 12) 993 alice (some (1 ∷ 2 ∷ [])))
quoted_message_lem_example =
    quoted_message_lem quote_request 993_000 993 1_000 alice (key-IsArray 12 (omega arith))
      (key-IsArray 6 (omega arith)) (omega arith) (omega arith) (omega arith) refl

paused_refuses_example :
    (Send.send host clock (send_context paused_store) send_params world ≡ err (oft paused))
    × (LzReceive.lz_receive host clock (receive_context paused_store) receive_params world
        ≡ err (oft paused))
    × (Quote.quote_oft host clock (quote_context paused_store) quote_request ≡ err (oft paused))
    × (Quote.quote_send host clock (quote_context paused_store) quote_request world
        ≡ err (oft paused))
paused_refuses_example =
    paused_refuses host clock world world (send_context paused_store) send_params
      (receive_context paused_store) receive_params (quote_context paused_store) quote_request refl
      refl refl paused_send_checked paused_receive_checked paused_quote_checked

set_oft_config-ConfigEffect_example :
    (store.admin ≡ admin) × ConfigEffect store (record store { default_fee_bps = 50 })
set_oft_config-ConfigEffect_example =
    set_oft_config-ConfigEffect host config_context (SetOftConfigParams.set_default_fee 50) world
      config_run

set_pause_lem_example :
    ((role true store ≡ some pauser)
      × (set_pause host pause_context true ≡ ok (record store { paused = true })))
    ⊎ ((role true store ≢ some pauser)
        × (set_pause host pause_context true ≡ err (oft unauthorized)))
set_pause_lem_example = set_pause_lem host pause_context true store_checked

peer-IsValidPeer : IsValidPeer peer
peer-IsValidPeer = record { fee_low = tt; outbound = omega arith; inbound = omega arith }

set_peer_config-IsValidPeer_example : (store.admin ≡ admin) × IsValidPeer limited_peer
set_peer_config-IsValidPeer_example =
    set_peer_config-IsValidPeer host clock peer_context limit_params (omega arith) peer-IsValidPeer
      peer_run

lz_receive_types_lem_example :
    (authority : List ℕ) × (composing : List LzAccount) × (types_run.0
      ≡ account default_key true true
        ∷ account peer_key false true
        ∷ account store_key false true
        ∷ account escrow_key false true
        ∷ account bob false false
        ∷ account dest_key false true
        ∷ account mint_key false true
        ∷ account authority false false
        ∷ account token_program_key false false
        ∷ account host.associated_token_id false false
        ∷ account host.system_program_id false false
        ∷ account (host.find_program_address (host.event_seed ∷ []) host.program_id).0 false false
        ∷ account host.program_id false false
        ∷ (host.get_accounts_for_clear store.endpoint_program store_key 30_101 receive_params.sender
              receive_params.nonce
            ++ composing))
    × ListsComposing host types_context receive_params clock bob composing
    × (((types_context.token_mint.mint_authority ≡ none)
          × (found_context.mint_authority ≡ none)
          × (authority ≡ host.program_id))
        ⊎ ((types_context.token_mint.mint_authority ≡ some authority)
            × ((found_context.mint_authority ≡ none)
                ⊎ (found_context.mint_authority ≡ some authority))))
lz_receive_types_lem_example =
    lz_receive_types_lem host types_context receive_params pda_laws clock found_context world refl
      refl refl found_checked types_run.1

lz_receive_types-ok_example :
    (accounts : List LzAccount) × (lz_receive_types host clock types_context receive_params
      ≡ ok accounts)
lz_receive_types-ok_example =
    lz_receive_types-ok host clock (receive_context store) receive_params world receive_run
