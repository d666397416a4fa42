-- ===== src/Example/Supplies.antt =====
-- The theorems on the supply, at a native OFT on the accounts of the examples.
use cross_chain_contracts.Common.{
  Bool, ℕ, ◌+◌, ◌≡◌, refl, ap, arith, bytes_eq, true, false, some, List, leb, ◌&&◌,
}
use cross_chain_contracts.Errors.{Result, ok, external, ok-injective}
use cross_chain_contracts.Words.{
  add_u64, sub_u64, rem_u64, div_u64, mul_u64, index, slice, slice_from, to_be_bytes, from_be_bytes,
  from_be_bytes_acc, to_u64_unwrap, saturating_add_u64, saturating_mul_u64, checked_sub,
}
use cross_chain_contracts.MsgCodec as MsgCodec
use cross_chain_contracts.State.RateLimiter.{unix_time, refill, try_consume}
use cross_chain_contracts.State.OftStore.{OftStore, OftType, ld2sd, sd2ld, remove_dust}
use cross_chain_contracts.State.PeerConfig.{get_enforced_options, combine_options}
use cross_chain_contracts.Platform.Cpi.{Mint, Burn, MintTo, TransferChecked, MessagingReceipt}
use cross_chain_contracts.Fees.{calculate_fee, compute_fee_and_adjust_amount}
use cross_chain_contracts.Instructions.Accounts.{
  check_address, check_token, check_mint_program, check_seeds, check_store, check_peer,
}
use cross_chain_contracts.Instructions.Limits.{
  consume_from, refill_into, limit_outbound, limit_inbound,
}
use cross_chain_contracts.Instructions.Send as Send
use cross_chain_contracts.Instructions.Send.{SendContext, Sent}
use cross_chain_contracts.Instructions.LzReceive as LzReceive
use cross_chain_contracts.Instructions.LzReceive.{LzReceiveContext, Received}
use cross_chain_contracts.Solvency.Supply.{SupplyLaws}
use cross_chain_contracts.Solvency.Supply.Native.{send-supply, lz_receive-supply}
use cross_chain_contracts.Example.{
  State, host, clock, store_key, mint, transfer, update, burn, mint_to,
}
use cross_chain_contracts.Example.Keeps.{if-ok, leb→le}
use cross_chain_contracts.Example.Accounts.{
  store, world, send_context, send_params, receive_context, receive_params,
}

abbrev supply : State → List ℕ → ℕ
supply w address = w.supply

and-left : (a b : Bool) → (a && b) ≡ true → a ≡ true
and-left true b e = refl
and-left false b e = cc

and-right : (a b : Bool) → (a && b) ≡ true → b ≡ true
and-right true b e = e
and-right false b e = cc

burn_supply_lem :
    (b : Burn) (amount : ℕ) (w : State) {w' : State}
    → burn b amount w ≡ ok w'
    → w'.supply + amount ≡ w.supply
unfolding burn
burn_supply_lem b amount w e =
    let (covered, same) =
      if-ok (leb amount (w.balances b.from) && leb amount w.supply) external e in
    omega (
      arith,
      leb→le amount w.supply
          (and-right (leb amount (w.balances b.from)) (leb amount w.supply) covered),
      ap (λ (x : State). x.supply) same,
    )

mint_supply_lem :
    (t : MintTo) (seeds : List (List ℕ)) (amount : ℕ) (w : State) {w' : State}
    → mint_to t seeds amount w ≡ ok w'
    → w'.supply ≡ w.supply + amount
unfolding mint_to
mint_supply_lem t seeds amount w e = omega (arith, ap (λ (x : State). x.supply) (ok-injective e))

transfer_supply_lem :
    (t : TransferChecked) (seeds : List (List ℕ)) (amount decimals : ℕ) (w : State) {w' : State}
    → transfer t seeds amount decimals w ≡ ok w'
    → (address : List ℕ) → w'.supply ≡ w.supply
unfolding transfer
transfer_supply_lem t seeds amount decimals w e address =
    let (_, same) = if-ok (leb amount (w.balances t.from)) external e in
    ap (λ (x : State). x.supply) same

same_supply : {w w' : State} → ok w ≡ ok w' → (address : List ℕ) → w'.supply ≡ w.supply
same_supply e address = omega (arith, ap (λ (x : State). x.supply) (ok-injective e))

sent_supply :
    {r r' : MessagingReceipt} {w w' : State}
    → ◌≡◌ {A = Result (MessagingReceipt × State)} (ok (r, w)) (ok (r', w'))
    → (address : List ℕ) → w'.supply ≡ w.supply
sent_supply e address =
    omega (arith, ap (λ (x : MessagingReceipt × State). x.1.supply) (ok-injective e))

supply_laws : SupplyLaws host supply
supply_laws = record {
  burn_supply = burn_supply_lem _ _ _;
  mint_supply = mint_supply_lem _ _ _ _;
  transfer_supply = transfer_supply_lem _ _ _ _ _;
  init_supply = same_supply;
  emit_supply = same_supply;
  send_supply = sent_supply;
  clear_supply = same_supply;
  compose_supply = same_supply;
}

-- The store mints and burns, and is the mint's authority.
abbrev native_store : OftStore
native_store = record store { oft_type = OftType.native; tvl_ld = 0 }

abbrev native_mint : Mint
native_mint = record mint { mint_authority = some store_key }

abbrev native_receive_context : LzReceiveContext
native_receive_context = record (receive_context native_store) {
  token_mint = native_mint;
  mint_authority = some store_key;
}

-- `send` of 1,000,000 burns 997,000, and moves the fee of 3,000 to the escrow.
send_run :
    (r : Sent host) × (Send.send host clock (send_context native_store) send_params world ≡ ok r)
unfolding Send.send Send.check_accounts check_address check_token check_mint_program check_seeds
    check_store check_peer bytes_eq Send.apply compute_fee_and_adjust_amount calculate_fee
    remove_dust ld2sd add_u64 sub_u64 rem_u64 div_u64 checked_sub limit_outbound consume_from
    refill_into unix_time refill try_consume to_u64_unwrap saturating_add_u64 saturating_mul_u64
    Send.take_tokens Send.transfer_to_escrow Send.burn_from_source transfer burn update
    Send.send_message index combine_options get_enforced_options MsgCodec.encode to_be_bytes
send_run = (_, refl)

receive_run :
    (r : Received host) × (LzReceive.lz_receive host clock native_receive_context receive_params
        world
      ≡ ok r)
unfolding LzReceive.lz_receive LzReceive.check_accounts LzReceive.check_associated_token
    check_address check_token check_mint_program check_seeds check_store check_peer bytes_eq
    LzReceive.apply LzReceive.clear_payload LzReceive.give_tokens LzReceive.mint_to_dest
    LzReceive.compose sd2ld mul_u64 sub_u64 checked_sub limit_inbound consume_from refill_into
    unix_time refill try_consume to_u64_unwrap saturating_add_u64 saturating_mul_u64 mint_to update
    to_be_bytes from_be_bytes from_be_bytes_acc slice slice_from MsgCodec.encode MsgCodec.send_to
    MsgCodec.amount_sd MsgCodec.compose_msg
receive_run = (_, refl)

send-supply_example :
    send_run.0.world.supply + send_run.0.oft_receipt.amount_received_ld ≡ 100_000_000
send-supply_example =
    send-supply host supply supply_laws clock (send_context native_store) send_params world
      (omega arith) (omega arith) (omega arith) refl send_run.1

lz_receive-supply_example :
    (amount_sd : ℕ) × (amount_ld : ℕ) × (MsgCodec.amount_sd receive_params.message ≡ ok amount_sd)
    × (sd2ld native_store amount_sd ≡ ok amount_ld)
    × (receive_run.0.world.supply ≡ 100_000_000 + amount_ld)
lz_receive-supply_example =
    lz_receive-supply host supply supply_laws clock native_receive_context receive_params world refl
      receive_run.1
