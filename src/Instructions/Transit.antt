-- ===== src/Instructions/Transit.antt =====
-- The two ends of a transfer: lz_receive.rs on a message that send.rs handed to the endpoint of
-- another chain, and the composer on the message that it is given.
use cross_chain_contracts.Common.{ℕ, ◌*◌, ◌≤◌, ◌≡◌, arith, List, ◌++◌, some, Bool-cases, inl, inr}
use cross_chain_contracts.Errors.{Result, ok, >>=-eq-ok}
use cross_chain_contracts.Words.{IsU32, IsU64, IsArray, mul_u64, sub_u64, slice_from}
use cross_chain_contracts.MsgCodec as MsgCodec
use cross_chain_contracts.ComposeMsgCodec as ComposeMsgCodec
use cross_chain_contracts.ComposeMsgCodec.RoundTrip.{decode-encode}
use cross_chain_contracts.State.RateLimiter.{Clock}
use cross_chain_contracts.State.OftStore.{OftStore, is_adapter, sd2ld}
use cross_chain_contracts.Platform.{Host}
use cross_chain_contracts.Platform.Cpi.{LzReceiveParams}
use cross_chain_contracts.Platform.Laws.{FeeLaws}
use cross_chain_contracts.Fees.{get_post_fee_amount_ld}
use cross_chain_contracts.Fees.Withheld.{post_fee_le}
use cross_chain_contracts.Instructions.LzReceive.{
  LzReceiveContext, Received, seeds_of, give_tokens, transfer_from_escrow, compose, lz_receive,
}
use cross_chain_contracts.Instructions.LzReceive.Run.{lz_receive-ReceiveRun}
use mathlib.Core.Option

sd2ld_value :
    (s : OftStore) (units : ℕ) {amount : ℕ}
    → sd2ld s units ≡ ok amount
    → (amount ≡ units * s.ld2sd_rate) × IsU64 amount
unfolding sd2ld mul_u64
sd2ld_value s units e = (ground (arith, e), ground (arith, e))

module _ (h : Host) (clock : Result Clock) (c : LzReceiveContext) (params : LzReceiveParams)
    (w : h.World) where
  -- The amount received is no more than the amount that the message carries.
  give_tokens-le :
      (amount : ℕ) (before : h.World) {s' : OftStore} {after : h.World} {received : ℕ}
      → FeeLaws h
      → IsU64 amount
      → give_tokens h clock c amount before ≡ ok (s', after, received)
      → received ≤ amount
  unfolding give_tokens
  give_tokens-le amount before fees fits e =
      elim (Bool-cases (is_adapter c.oft_store.value.oft_type)) [
        | inl kind ↦
            let (tvl, _, e1) =
              >>=-eq-ok (sub_u64 c.oft_store.value.tvl_ld amount) _ (rw kind at e) in
            let (moved, _, e2) = >>=-eq-ok (transfer_from_escrow h c amount before) _ e1 in
            let (left, post, e3) =
              >>=-eq-ok (get_post_fee_amount_ld h clock c.token_mint amount) _ e2 in
            ground (arith, post_fee_le h fees clock c.token_mint amount fits post, e3)
        | inr kind ↦ ground arith
      ]

  -- What `send_compose` is given, and what the composer reads of it.
  pub record Composed (r : Received h) (from msg : List ℕ) : Type 0 where
    pub amount : ℕ
    pub received : ℕ
    pub accounts : List (List ℕ)
    pub message : List ℕ
    pub before : h.World
    pub after : h.World
    pub unlocked : h.World
    pub given : give_tokens h clock c amount unlocked ≡ ok (r.oft_store, before, received)
    pub call :
        h.send_compose r.oft_store.endpoint_program c.oft_store.key accounts
          (seeds_of h c)
          (record { to = c.to_address; guid = params.guid; index = 0; message = message })
          before
        ≡ ok after
    pub reads_nonce : ComposeMsgCodec.nonce message ≡ ok params.nonce
    pub reads_src_eid : ComposeMsgCodec.src_eid message ≡ ok params.src_eid
    pub reads_amount : ComposeMsgCodec.amount_ld message ≡ ok received
    pub reads_from : ComposeMsgCodec.compose_from message ≡ ok from
    pub reads_msg : ComposeMsgCodec.compose_msg message ≡ msg

  -- If `lz_receive` succeeds on a message that composes, with the 32 bytes of a sender in front,
  -- its nonce is a u64, its source a u32 and the mint fee keeps its laws, then the endpoint was
  -- given a message for the recipient, of which the composer reads the nonce, the source, the
  -- amount that was received after the transfer fee, the sender and the rest.
  pub lz_receive-Composed :
      {r : Received h} (from msg : List ℕ)
      → FeeLaws h
      → IsU64 params.nonce
      → IsU32 params.src_eid
      → IsArray 32 from
      → MsgCodec.compose_msg params.message ≡ some (from ++ msg)
      → lz_receive h clock c params w ≡ ok r
      → Composed r from msg
  unfolding compose
  lz_receive-Composed {r} from msg fees nonce_fits eid_fits from_size composes e =
      let run = lz_receive-ReceiveRun h clock c params w e in
      let (_, fits) = sd2ld_value c.oft_store.value run.amount_sd run.converted in
      let small = give_tokens-le run.amount_ld run.after_clear fees fits run.given in
      let (accounts, _, called) =
        >>=-eq-ok (slice_from c.remaining_accounts h.clear_min_accounts_len) _
          (rw (composes, compose) at run.composed) in
      let (n, eid, amount, sender, rest) =
        decode-encode params.nonce params.src_eid run.amount_received_ld from msg nonce_fits
          eid_fits (omega arith) from_size in
      record {
        amount = run.amount_ld;
        received = run.amount_received_ld;
        accounts = accounts;
        message =
            ComposeMsgCodec.encode params.nonce params.src_eid run.amount_received_ld (from ++ msg);
        before = run.after_tokens;
        after = run.after_compose;
        unlocked = run.after_clear;
        given = run.given;
        call = called;
        reads_nonce = n;
        reads_src_eid = eid;
        reads_amount = amount;
        reads_from = sender;
        reads_msg = rest;
      }
