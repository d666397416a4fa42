-- ===== src/Instructions/LzReceive/Run.antt =====
-- What a successful `lz_receive` of instructions/lz_receive.rs has gone through.
use cross_chain_contracts.Common.{ℕ, ◌≡◌, false, not, subst, arith}
use cross_chain_contracts.Errors.{Result, ok, oft, paused, require, >>=-eq-ok, ok-injective}
use cross_chain_contracts.MsgCodec as MsgCodec
use cross_chain_contracts.State.RateLimiter.{Clock}
use cross_chain_contracts.Words.{sub_u64}
use cross_chain_contracts.State.OftStore.{OftStore, sd2ld}
use cross_chain_contracts.State.OftStore.Identity.{MovesTvl}
use cross_chain_contracts.Platform.{Host}
use cross_chain_contracts.Platform.Cpi.{LzReceiveParams, oft_received}
use cross_chain_contracts.Instructions.Limits.{limit_inbound}
use cross_chain_contracts.Instructions.LzReceive.{
  LzReceiveContext, Received, check_accounts, clear_payload, give_tokens, compose, apply,
  lz_receive,
}

module _ (h : Host) (clock : Result Clock) (c : LzReceiveContext) (params : LzReceiveParams)
    (w : h.World) where
  pub record ReceiveRun (r : Received h) : Type 0 where
    pub amount_sd : ℕ
    pub amount_ld : ℕ
    pub amount_received_ld : ℕ
    pub after_checks : h.World
    pub after_clear : h.World
    pub after_tokens : h.World
    pub after_compose : h.World
    pub checked : check_accounts h c params w ≡ ok after_checks
    pub open_store : c.oft_store.value.paused ≡ false
    pub cleared : clear_payload h c params after_checks ≡ ok after_clear
    pub decoded : MsgCodec.amount_sd params.message ≡ ok amount_sd
    pub converted : sd2ld c.oft_store.value amount_sd ≡ ok amount_ld
    pub limited : limit_inbound clock c.peer.value amount_ld ≡ ok r.peer
    pub given :
        give_tokens h clock c amount_ld after_clear
        ≡ ok (r.oft_store, after_tokens, amount_received_ld)
    pub composed : compose h c params r.oft_store amount_received_ld after_tokens ≡ ok after_compose
    pub emitted :
        h.emit_cpi
          (oft_received (record {
            guid = params.guid;
            src_eid = params.src_eid;
            to = c.to_address;
            amount_received_ld = amount_received_ld;
          }))
          after_compose
        ≡ ok r.world

  pub lz_receive-ReceiveRun : {r : Received h} → lz_receive h clock c params w ≡ ok r → ReceiveRun r
  unfolding lz_receive apply
  lz_receive-ReceiveRun e =
      let s = c.oft_store.value in
      let (w1, checked, e1) = >>=-eq-ok (check_accounts h c params w) _ e in
      let (_, running, e2) = >>=-eq-ok (require (not s.paused) (oft paused)) _ e1 in
      let (w2, cleared, e3) = >>=-eq-ok (clear_payload h c params w1) _ e2 in
      let (amount_sd, decoded, e4) = >>=-eq-ok (MsgCodec.amount_sd params.message) _ e3 in
      let (amount_ld, converted, e5) = >>=-eq-ok (sd2ld s amount_sd) _ e4 in
      let (peer, limited, e6) = >>=-eq-ok (limit_inbound clock c.peer.value amount_ld) _ e5 in
      let ((store, w3, received), given, e7) =
        >>=-eq-ok (give_tokens h clock c amount_ld w2) _ e6 in
      let (w4, composed, e8) = >>=-eq-ok (compose h c params store received w3) _ e7 in
      let (w5, emitted, e9) = >>=-eq-ok (h.emit_cpi _ w4) _ e8 in
      let result = ok-injective e9 in
      subst ReceiveRun result (record {
        amount_sd = amount_sd;
        amount_ld = amount_ld;
        amount_received_ld = received;
        after_checks = w1;
        after_clear = w2;
        after_tokens = w3;
        after_compose = w4;
        checked = checked;
        open_store = ground (arith, running);
        cleared = cleared;
        decoded = decoded;
        converted = converted;
        limited = limited;
        given = given;
        composed = composed;
        emitted = emitted;
      })

-- Moving the tokens changes no field of the store but the locked value, and of a native OFT none.
pub give_tokens-MovesTvl :
    (h : Host) (clock : Result Clock) (c : LzReceiveContext) (amount : ℕ) (w : h.World)
    {w' : h.World} {s' : OftStore} {received : ℕ}
    → give_tokens h clock c amount w ≡ ok (s', w', received)
    → MovesTvl c.oft_store.value s'
unfolding give_tokens sub_u64
give_tokens-MovesTvl h clock c amount w e = ground arith
