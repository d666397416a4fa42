-- ===== src/Solvency/Outbound.antt =====
-- The escrow against the locked value `tvl_ld` across send.rs.
use cross_chain_contracts.Common.{
  ℕ, ◌+◌, ◌≤◌, ◌<◌, ◌≡◌, sym, ◌∙◌, subst, arith, true, false, List, bytes_eq,
}
use cross_chain_contracts.Errors.{ok, require, oft, invalid_sender, >>=-eq-ok}
use cross_chain_contracts.Words.{IsU64, index, add_u64}
use cross_chain_contracts.State.OftStore.{OftStore, is_adapter, ld2sd}
use cross_chain_contracts.State.PeerConfig.{combine_options}
use cross_chain_contracts.Platform.{Host}
use cross_chain_contracts.Platform.Laws.{FeeLaws}
use cross_chain_contracts.Platform.Cpi.{MessagingReceipt}
use cross_chain_contracts.Fees.{final_fee_bps, get_post_fee_amount_ld}
use cross_chain_contracts.Fees.Adjust.{compute-IsSplit}
use cross_chain_contracts.Instructions.Send as Send
use cross_chain_contracts.Instructions.Send.{SendContext, SendParams, Sent}
use cross_chain_contracts.Instructions.Send.Run.{send-SendRun}
use cross_chain_contracts.Instructions.Send.Checked.{check_accounts-SendChecked}
use cross_chain_contracts.Solvency.Laws.{Reading, NoLoss, IsCovered, IsLoaded, TokenLaws, CallLaws}

module _ (h : Host) (o : Reading h) (tokens : TokenLaws h o) (escrow : List ℕ)
    (calls : CallLaws h o escrow) where
  -- `take_tokens` of an adapter: the transfer, and the store that it leaves.
  take_tokens_adapter :
      (c : SendContext) (sent received fee : ℕ) (w : h.World) {w' : h.World} {s' : OftStore}
      → is_adapter c.oft_store.value.oft_type ≡ true
      → Send.take_tokens h c sent received fee w ≡ ok (s', w')
      → (Send.transfer_to_escrow h c sent w ≡ ok w')
        × (s'.tvl_ld ≡ c.oft_store.value.tvl_ld + received)
        × (s'.token_escrow ≡ c.oft_store.value.token_escrow)
  unfolding Send.take_tokens add_u64
  take_tokens_adapter c sent received fee w kind e = ground arith

  -- A native OFT leaves its store alone.
  take_tokens_native :
      (c : SendContext) (sent received fee : ℕ) (w : h.World) {w' : h.World} {s' : OftStore}
      → is_adapter c.oft_store.value.oft_type ≡ false
      → Send.take_tokens h c sent received fee w ≡ ok (s', w')
      → s' ≡ c.oft_store.value
  unfolding Send.take_tokens
  take_tokens_native c sent received fee w kind e = ground arith

  -- The endpoint's `send` takes nothing from any account.
  send_message-NoLoss :
      (c : SendContext) (params : SendParams) (s : OftStore) (received : ℕ) (w : h.World)
      {t : MessagingReceipt × h.World}
      → Send.send_message h c params s received w ≡ ok t
      → NoLoss h o escrow w t.1
  unfolding Send.send_message
  send_message-NoLoss c params s received w e =
      let (sender, _, e1) = >>=-eq-ok (index c.remaining_accounts 1) _ e in
      let (_, _, e2) =
        >>=-eq-ok (require (bytes_eq c.oft_store.key sender) (oft invalid_sender)) _ e1 in
      let (amount_sd, _, e3) = >>=-eq-ok (ld2sd s received) _ e2 in
      let (options, _, e4) =
        >>=-eq-ok
          (combine_options h.combine_options c.peer.value.enforced_options params.compose_msg
            params.options)
          _ e3 in
      calls.send_keeps e4

  send_transfer :
      (c : SendContext) (sent : ℕ) (w : h.World) {arrived : ℕ} {w' : h.World}
      → IsLoaded h o c w
      → get_post_fee_amount_ld h (o.clock w) c.token_mint sent ≡ ok arrived
      → Send.transfer_to_escrow h c sent w ≡ ok w'
      → o.balance w' c.token_escrow.key ≡ o.balance w c.token_escrow.key + arrived
  unfolding Send.transfer_to_escrow
  send_transfer c sent w l fee e = tokens.transfer_credits e l.mint l.distinct fee

  -- If the programs that are called keep their laws and take nothing from the escrow, `send`
  -- succeeds on an adapter whose rate is not 0, whose fee is at most 100% and whose escrow covers
  -- the locked value, the amount is a u64, the mint is the stored one and the source is not the
  -- escrow, then the locked value has grown by the amount received, and the escrow covers it.
  pub send-IsCovered :
      (c : SendContext) (params : SendParams) (w : h.World) {r : Sent h}
      → FeeLaws h
      → c.oft_store.value.token_escrow ≡ escrow
      → 0 < c.oft_store.value.ld2sd_rate
      → final_fee_bps c.oft_store.value.default_fee_bps c.peer.value.fee_bps ≤ 10_000
      → IsU64 params.amount_ld
      → IsLoaded h o c w
      → is_adapter c.oft_store.value.oft_type ≡ true
      → IsCovered h o c.oft_store.value w
      → Send.send h (o.clock w) c params w ≡ ok r
      → (r.oft_store.tvl_ld ≡ c.oft_store.value.tvl_ld + r.oft_receipt.amount_received_ld)
        × IsCovered h o r.oft_store r.world
  send-IsCovered c params w {r} fees at rate_pos low fits l kind covered e =
      let run = send-SendRun h (o.clock w) c params w e in
      let split =
        compute-IsSplit h (o.clock w) c.oft_store.value c.token_mint params.amount_ld
          c.peer.value.fee_bps rate_pos low fits fees run.split in
      let checked = check_accounts-SendChecked h c params run.checked in
      let (moved, tvl, same) =
        take_tokens_adapter c r.oft_receipt.amount_sent_ld r.oft_receipt.amount_received_ld run.fee
          w kind run.taken in
      let (arrived, fee, enough) = split.arrives kind in
      let credited = send_transfer c r.oft_receipt.amount_sent_ld w l fee moved in
      let messaged =
        send_message-NoLoss c params r.oft_store r.oft_receipt.amount_received_ld run.after_tokens
          run.messaged in
      let emitted = calls.emit_keeps run.emitted in
      let credited_escrow : o.balance run.after_tokens escrow ≡ o.balance w escrow + arrived =
        subst (λ (k : List ℕ). o.balance run.after_tokens k ≡ o.balance w k + arrived)
          (checked.escrow_key ∙ at) credited in
      let before : c.oft_store.value.tvl_ld ≤ o.balance w escrow =
        subst (λ (k : List ℕ). c.oft_store.value.tvl_ld ≤ o.balance w k) at covered in
      (
        tvl,
        subst (λ (k : List ℕ). r.oft_store.tvl_ld ≤ o.balance r.world k) (sym (same ∙ at))
            (omega (arith, tvl, credited_escrow, messaged, emitted, enough, before)),
      )
