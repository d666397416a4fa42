-- ===== src/Solvency/Supply/Native.antt =====
-- The supply of the token across send.rs and lz_receive.rs of a native OFT.
use cross_chain_contracts.Common.{
  if◌then◌else◌, ℕ, ◌+◌, ◌-◌, ◌≤◌, ◌<◌, ◌≡◌, sym, ap, arith, false, List, ltb, Bool-cases,
  Option-cases, inl, inr, bytes_eq,
}
use cross_chain_contracts.Errors.{
  Result, ok, oft, invalid_sender, require, ok-injective, >>=-eq-ok, >>-eq-ok,
}
use cross_chain_contracts.Words.{IsU64, index, sub_u64, slice, slice_from}
use cross_chain_contracts.MsgCodec as MsgCodec
use cross_chain_contracts.State.RateLimiter.{Clock}
use cross_chain_contracts.State.OftStore.{OftStore, is_adapter, ld2sd, sd2ld}
use cross_chain_contracts.State.PeerConfig.{combine_options}
use cross_chain_contracts.Platform.{Host}
use cross_chain_contracts.Platform.Cpi.{MessagingReceipt, LzReceiveParams}
use cross_chain_contracts.Fees.{final_fee_bps}
use cross_chain_contracts.Fees.Adjust.{native_amounts}
use cross_chain_contracts.Instructions.Send as Send
use cross_chain_contracts.Instructions.Send.{SendContext, SendParams, Sent, send}
use cross_chain_contracts.Instructions.Send.Run.{send-SendRun}
use cross_chain_contracts.Instructions.LzReceive as LzReceive
use cross_chain_contracts.Instructions.LzReceive.{LzReceiveContext, Received, lz_receive}
use cross_chain_contracts.Instructions.LzReceive.Run.{lz_receive-ReceiveRun}
use cross_chain_contracts.Instructions.LzReceive.Checked.{check_accounts-ReceiveChecked}
use cross_chain_contracts.Solvency.Supply.{SupplyLaws, SameSupply}

module _ (h : Host) (supply : h.World → List ℕ → ℕ) (laws : SupplyLaws h supply) where
  same_world : {w w' : h.World} → w ≡ w' → SameSupply h supply w w'
  same_world e mint = ap (λ (x : h.World). supply x mint) (sym e)

  fee_transfer :
      (c : SendContext) (fee : ℕ) (w : h.World) {w' : h.World}
      → (if ltb 0 fee then Send.transfer_to_escrow h c fee w else ok w) ≡ ok w'
      → SameSupply h supply w w'
  unfolding Send.transfer_to_escrow
  fee_transfer c fee w {w'} e = elim (Bool-cases (ltb 0 fee)) [
    | inl charged ↦ laws.transfer_supply (rw charged at e)
    | inr free ↦ same_world (ok-injective (rw free at e))
  ]

  take_tokens_burns :
      (c : SendContext) (sent received fee : ℕ) (w : h.World) {w' : h.World} {s' : OftStore}
      → is_adapter c.oft_store.value.oft_type ≡ false
      → Send.take_tokens h c sent received fee w ≡ ok (s', w')
      → supply w' c.token_mint.key + (sent - fee) ≡ supply w c.token_mint.key
  unfolding Send.take_tokens Send.burn_from_source sub_u64
  take_tokens_burns c sent received fee w {w'} kind e =
      let (amount, less, e1) = >>=-eq-ok (sub_u64 sent fee) _ (rw kind at e) in
      let (w1, burns, e2) = >>=-eq-ok (Send.burn_from_source h c amount w) _ e1 in
      let (w2, moved, e3) =
        >>=-eq-ok (if ltb 0 fee then Send.transfer_to_escrow h c fee w1 else ok w1) _ e2 in
      let burnt : sent - fee ≡ amount = ground (arith, less) in
      let last : w2 ≡ w' = ground (arith, e3) in
      omega (
        arith,
        burnt,
        laws.burn_supply burns,
        fee_transfer c fee w1 moved c.token_mint.key,
        same_world last c.token_mint.key,
      )

  send_message-SameSupply :
      (c : SendContext) (params : SendParams) (s : OftStore) (received : ℕ) (w : h.World)
      {receipt : MessagingReceipt} {w' : h.World}
      → Send.send_message h c params s received w ≡ ok (receipt, w')
      → SameSupply h supply w w'
  unfolding Send.send_message
  send_message-SameSupply c params s received w e =
      let (sender, _, e1) = >>=-eq-ok (index c.remaining_accounts 1) _ e in
      let e2 = >>-eq-ok (require (bytes_eq c.oft_store.key sender) (oft invalid_sender)) _ e1 in
      let (amount_sd, _, e3) = >>=-eq-ok (ld2sd s received) _ e2 in
      let (options, _, e4) =
        >>=-eq-ok
          (combine_options h.combine_options c.peer.value.enforced_options params.compose_msg
            params.options)
          _ e3 in
      laws.send_supply e4

  -- If burning, minting and the other calls keep their laws, and `send` succeeds on a native OFT
  -- whose rate is not 0, whose fee is at most 100%, with a u64 amount, then the supply of the mint
  -- falls by exactly the amount received, so that the OFT fee stays in the supply.
  pub send-supply :
      (clock : Result Clock) (c : SendContext) (params : SendParams) (w : h.World) {r : Sent h}
      → 0 < c.oft_store.value.ld2sd_rate
      → final_fee_bps c.oft_store.value.default_fee_bps c.peer.value.fee_bps ≤ 10_000
      → IsU64 params.amount_ld
      → is_adapter c.oft_store.value.oft_type ≡ false
      → send h clock c params w ≡ ok r
      → supply r.world c.token_mint.key + r.oft_receipt.amount_received_ld
        ≡ supply w c.token_mint.key
  send-supply clock c params w {r} rate_pos low fits kind e =
      let run = send-SendRun h clock c params w e in
      let sent = r.oft_receipt.amount_sent_ld in
      let received = r.oft_receipt.amount_received_ld in
      let amounts =
        native_amounts h clock c.oft_store.value c.token_mint params.amount_ld c.peer.value.fee_bps
          rate_pos low fits kind in
      let split : sent - run.fee ≡ received = ground (arith, amounts, run.split) in
      let burnt = take_tokens_burns c sent received run.fee w kind run.taken in
      let messaged =
        send_message-SameSupply c params r.oft_store received run.after_tokens run.messaged
          c.token_mint.key in
      let emitted = laws.emit_supply run.emitted c.token_mint.key in
      omega (arith, split, burnt, messaged, emitted)

  clear_payload-SameSupply :
      (c : LzReceiveContext) (params : LzReceiveParams) (w : h.World) {w' : h.World}
      → LzReceive.clear_payload h c params w ≡ ok w'
      → SameSupply h supply w w'
  unfolding LzReceive.clear_payload
  clear_payload-SameSupply c params w e =
      let (accounts, _, e1) =
        >>=-eq-ok (slice c.remaining_accounts 0 h.clear_min_accounts_len) _ e in
      laws.clear_supply e1

  compose-SameSupply :
      (c : LzReceiveContext) (params : LzReceiveParams) (s : OftStore) (received : ℕ) (w : h.World)
      {w' : h.World}
      → LzReceive.compose h c params s received w ≡ ok w'
      → SameSupply h supply w w'
  unfolding LzReceive.compose
  compose-SameSupply c params s received w e =
      elim (Option-cases (MsgCodec.compose_msg params.message)) [
        | inl plain ↦ same_world (ok-injective (rw (plain, LzReceive.compose) at e))
        | inr (message, composed) ↦
            let (accounts, _, e1) =
              >>=-eq-ok (slice_from c.remaining_accounts h.clear_min_accounts_len) _
                (rw (composed, LzReceive.compose) at e) in
            laws.compose_supply e1
      ]

  give_tokens_mints :
      (clock : Result Clock) (c : LzReceiveContext) (amount : ℕ) (w : h.World) {w' : h.World}
      {s' : OftStore} {received : ℕ}
      → is_adapter c.oft_store.value.oft_type ≡ false
      → LzReceive.give_tokens h clock c amount w ≡ ok (s', w', received)
      → supply w' c.token_mint.key ≡ supply w c.token_mint.key + amount
  unfolding LzReceive.give_tokens LzReceive.mint_to_dest
  give_tokens_mints clock c amount w {w'} kind e = elim (Option-cases c.mint_authority) [
    | inl absent ↦ absurd (ground arith)
    | inr (authority, given) ↦
        let (w1, mints, e1) =
          >>=-eq-ok (LzReceive.mint_to_dest h c authority amount w) _ (rw (kind, given) at e) in
        let last : w1 ≡ w' = ground (arith, e1) in
        omega (arith, laws.mint_supply mints, same_world last c.token_mint.key)
  ]

  -- If burning, minting and the other calls keep their laws, and `lz_receive` succeeds on a native
  -- OFT, then the supply of the mint grows by exactly the amount that the message carries, in local
  -- decimals.
  pub lz_receive-supply :
      (clock : Result Clock) (c : LzReceiveContext) (params : LzReceiveParams) (w : h.World)
      {r : Received h}
      → is_adapter c.oft_store.value.oft_type ≡ false
      → lz_receive h clock c params w ≡ ok r
      → (amount_sd : ℕ) × (amount_ld : ℕ) × (MsgCodec.amount_sd params.message ≡ ok amount_sd)
        × (sd2ld c.oft_store.value amount_sd ≡ ok amount_ld)
        × (supply r.world c.token_mint.key ≡ supply w c.token_mint.key + amount_ld)
  lz_receive-supply clock c params w {r} kind e =
      let run = lz_receive-ReceiveRun h clock c params w e in
      let checked = check_accounts-ReceiveChecked h c params w run.checked in
      let mint : List ℕ = c.token_mint.key in
      let minted = give_tokens_mints clock c run.amount_ld run.after_clear kind run.given in
      (
        run.amount_sd,
        run.amount_ld,
        run.decoded,
        run.converted,
        omega (
          arith,
          laws.init_supply checked.initialised mint,
          clear_payload-SameSupply c params run.after_checks run.cleared mint,
          minted,
          compose-SameSupply c params r.oft_store run.amount_received_ld run.after_tokens
              run.composed mint,
          laws.emit_supply run.emitted mint,
        ),
      )
