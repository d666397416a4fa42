-- ===== src/Instructions/Send/Run.antt =====
-- What a successful `send` of instructions/send.rs has gone through.
use cross_chain_contracts.Common.{ℕ, ◌≤◌, ◌≡◌, false, not, subst, arith, leb}
use cross_chain_contracts.Errors.{
  Result, ok, oft, paused, slippage_exceeded, require, >>=-eq-ok, ok-injective,
}
use cross_chain_contracts.State.RateLimiter.{Clock}
use cross_chain_contracts.Words.{add_u64}
use cross_chain_contracts.State.OftStore.{OftStore}
use cross_chain_contracts.State.OftStore.Identity.{MovesTvl}
use cross_chain_contracts.Platform.{Host}
use cross_chain_contracts.Platform.Cpi.{oft_sent}
use cross_chain_contracts.Fees.{compute_fee_and_adjust_amount}
use cross_chain_contracts.Instructions.Limits.{limit_outbound}
use cross_chain_contracts.Instructions.Send.{
  SendContext, SendParams, Sent, check_accounts, take_tokens, send_message, apply, send,
}

module _ (h : Host) (clock : Result Clock) (c : SendContext) (params : SendParams)
    (w : h.World) where
  pub record SendRun (r : Sent h) : Type 0 where
    pub fee : ℕ
    pub after_tokens : h.World
    pub after_message : h.World
    pub checked : check_accounts h c params ≡ ok tt
    pub open_store : c.oft_store.value.paused ≡ false
    pub split :
        compute_fee_and_adjust_amount h clock params.amount_ld c.oft_store.value c.token_mint
          c.peer.value.fee_bps
        ≡ ok (r.oft_receipt.amount_sent_ld, r.oft_receipt.amount_received_ld, fee)
    pub enough : params.min_amount_ld ≤ r.oft_receipt.amount_received_ld
    pub limited : limit_outbound clock c.peer.value r.oft_receipt.amount_received_ld ≡ ok r.peer
    pub taken :
        take_tokens h c r.oft_receipt.amount_sent_ld r.oft_receipt.amount_received_ld fee w
        ≡ ok (r.oft_store, after_tokens)
    pub messaged :
        send_message h c params r.oft_store r.oft_receipt.amount_received_ld after_tokens
        ≡ ok (r.msg_receipt, after_message)
    pub emitted :
        h.emit_cpi
          (oft_sent (record {
            guid = r.msg_receipt.guid;
            dst_eid = params.dst_eid;
            from = c.token_source.key;
            amount_sent_ld = r.oft_receipt.amount_sent_ld;
            amount_received_ld = r.oft_receipt.amount_received_ld;
          }))
          after_message
        ≡ ok r.world

  pub send-SendRun : {r : Sent h} → send h clock c params w ≡ ok r → SendRun r
  unfolding send apply
  send-SendRun e =
      let p = c.oft_store.value in
      let (_, checked, e1) = >>=-eq-ok (check_accounts h c params) _ e in
      let (_, running, e2) = >>=-eq-ok (require (not p.paused) (oft paused)) _ e1 in
      let ((sent, received, fee), split, e3) =
        >>=-eq-ok
          (compute_fee_and_adjust_amount h clock params.amount_ld p c.token_mint
            c.peer.value.fee_bps)
          _ e2 in
      let (_, enough, e4) =
        >>=-eq-ok (require (leb params.min_amount_ld received) (oft slippage_exceeded)) _ e3 in
      let (peer, limited, e5) = >>=-eq-ok (limit_outbound clock c.peer.value received) _ e4 in
      let ((store, w1), taken, e6) = >>=-eq-ok (take_tokens h c sent received fee w) _ e5 in
      let ((receipt, w2), messaged, e7) =
        >>=-eq-ok (send_message h c params store received w1) _ e6 in
      let (w3, emitted, e8) = >>=-eq-ok (h.emit_cpi _ w2) _ e7 in
      let result = ok-injective e8 in
      subst SendRun result (record {
        fee = fee;
        after_tokens = w1;
        after_message = w2;
        checked = checked;
        open_store = ground (arith, running);
        split = split;
        enough = ground (arith, enough);
        limited = limited;
        taken = taken;
        messaged = messaged;
        emitted = emitted;
      })

-- Moving the tokens changes no field of the store but the locked value, and of a native OFT none.
pub take_tokens-MovesTvl :
    (h : Host) (c : SendContext) (sent received fee : ℕ) (w : h.World) {w' : h.World}
    {s' : OftStore}
    → take_tokens h c sent received fee w ≡ ok (s', w')
    → MovesTvl c.oft_store.value s'
unfolding take_tokens add_u64
take_tokens-MovesTvl h c sent received fee w e = ground arith
