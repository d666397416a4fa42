-- ===== src/Example/Runs.antt =====
-- The theorems on the instructions and on the program, at the accounts of the examples.
use cross_chain_contracts.Common.{
  ℕ, ◌≡◌, ◌≢◌, ◌≤◌, ◌+◌, ◌-◌, ◌^◌, refl, ap, arith, bytes_eq, true, false, none, inl,
}
use cross_chain_contracts.Errors.{ok}
use cross_chain_contracts.State.OftStore.{OftType, sd2ld}
use cross_chain_contracts.State.OftStore.Identity.{SameIdentity}
use cross_chain_contracts.State.PeerConfig.Valid.{IsValidPeer}
use cross_chain_contracts.Solvency.Laws.{IsCovered, IsLoaded}
use cross_chain_contracts.Solvency.Outbound.{send-IsCovered}
use cross_chain_contracts.Solvency.Inbound.{lz_receive-IsCovered}
use cross_chain_contracts.Solvency.Fees.{withdraw_fee-IsCovered}
use cross_chain_contracts.Instructions.InitOft.Store.{init_oft-store, init_oft-IsSound}
use cross_chain_contracts.Program.{Chain, Step, Reach, set_peer}
use cross_chain_contracts.Program.Stores.{IsGoodStore}
use cross_chain_contracts.Words.{IsU64}
use cross_chain_contracts.MsgCodec as MsgCodec
use cross_chain_contracts.Instructions.Accounts.{check_seeds, check_store}
use cross_chain_contracts.Instructions.Config.{is_valid_signer, set_pause}
use cross_chain_contracts.Program.Sound.{IsSound, Reach-IsSound}
use cross_chain_contracts.Example.{host, reading, escrow_key, store_key, mint_key, clock, key}
use cross_chain_contracts.Example.Keeps.{fee_laws, token_laws, call_laws}
use cross_chain_contracts.Example.Accounts.{
  store, peer, world, send_context, send_params, receive_context, receive_params, withdraw_context,
  pause_context, store_account, admin,
}
use cross_chain_contracts.Example.Transfers.{
  sent, send_run, received, receive_run, withdrawn, withdraw_run,
}
use cross_chain_contracts.Example.Settings.{
  init_context, init_params, init_run, new_store, types_accounts,
}

keys_apart : bytes_eq (key 7) (key 7) ≢ bytes_eq (key 7) escrow_key
unfolding bytes_eq
keys_apart e = cc

keys_differ : key 7 ≢ escrow_key
keys_differ same = absurd (keys_apart (ap (bytes_eq (key 7)) same))

loaded : IsLoaded host reading (send_context store) world
loaded = record { mint = refl; distinct = keys_differ }

escrow_covers : IsCovered host reading store world
unfolding bytes_eq
escrow_covers = omega arith

send-IsCovered_example :
    (sent.oft_store.tvl_ld ≡ store.tvl_ld + 993_000)
    × IsCovered host reading sent.oft_store sent.world
send-IsCovered_example =
    send-IsCovered host reading token_laws escrow_key call_laws (send_context store) send_params
      world fee_laws refl (omega arith) (omega arith) (omega arith) loaded refl escrow_covers
      send_run

withdraw_fee-IsCovered_example :
    (store.admin ≡ withdraw_context.admin) × IsCovered host reading store withdrawn
unfolding bytes_eq
withdraw_fee-IsCovered_example =
    withdraw_fee-IsCovered host reading token_laws withdraw_context (record { fee_ld = 10_000 })
      world refl withdraw_run

lz_receive-IsCovered_example :
    (amount_sd : ℕ) × (amount_ld : ℕ) × (MsgCodec.amount_sd receive_params.message ≡ ok amount_sd)
    × (sd2ld store amount_sd ≡ ok amount_ld)
    × (received.oft_store.tvl_ld + amount_ld ≡ store.tvl_ld)
    × IsCovered host reading received.oft_store received.world
lz_receive-IsCovered_example =
    lz_receive-IsCovered host reading token_laws escrow_key call_laws clock (receive_context store)
      receive_params world refl refl escrow_covers receive_run

init_oft-store_example :
    (6 ≤ 9)
    × (store_key ≡ store_key)
    × (new_store ≡ record {
      oft_type = OftType.adapter;
      ld2sd_rate = 10 ^ (9 - 6);
      token_mint = mint_key;
      token_escrow = escrow_key;
      endpoint_program = key 10;
      bump = 255;
      tvl_ld = 0;
      admin = admin;
      default_fee_bps = 0;
      paused = false;
      pauser = none;
      unpauser = none;
    })
    × (types_accounts ≡ record { oft_store = store_key; token_mint = mint_key })
    × IsU64 new_store.ld2sd_rate
    × IsGoodStore new_store
init_oft-store_example = init_oft-store host init_context init_params world init_run

peer-IsValidPeer : IsValidPeer peer
peer-IsValidPeer = record { fee_low = tt; outbound = omega arith; inbound = omega arith }

init_oft-IsSound_example :
    IsSound host reading (record { store = new_store; peers = λ eid. peer; world = world })
init_oft-IsSound_example =
    init_oft-IsSound host reading init_context init_params world (λ eid. peer)
      (λ eid. peer-IsValidPeer) init_run

-- The program from the store of the examples, through a `send` and a pause.
abbrev start : Chain host reading
start = record { store = store; peers = λ eid. peer; world = world }

abbrev after_send : Chain host reading
after_send = record {
  store = sent.oft_store;
  peers = set_peer host reading (λ eid. peer) 30_101 sent.peer;
  world = sent.world;
}

abbrev after_pause : Chain host reading
after_pause = record after_send { store = record (sent.oft_store) { paused = true } }

start-IsSound : IsSound host reading start
start-IsSound = record {
  good = record { rate_pos = omega arith; fee_low = omega arith; native_empty = inl refl };
  covered = escrow_covers;
  peers_valid = λ eid. peer-IsValidPeer;
}

pause_after_send :
    set_pause host (record pause_context { oft_store = store_account sent.oft_store }) true
    ≡ ok (record (sent.oft_store) { paused = true })
unfolding set_pause is_valid_signer check_store check_seeds bytes_eq
pause_after_send = refl

reached : Reach host reading start after_pause
reached =
    Reach.next
      (Reach.next Reach.here
        (Step.sends (send_context store) send_params sent refl refl (omega arith) loaded send_run))
      (Step.pauses (record pause_context { oft_store = store_account sent.oft_store }) true
        (record (sent.oft_store) { paused = true }) refl pause_after_send)

Reach-IsSound_example : IsSound host reading after_pause × SameIdentity store after_pause.store
Reach-IsSound_example =
    Reach-IsSound host reading fee_laws token_laws escrow_key call_laws start-IsSound refl reached
