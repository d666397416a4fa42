-- ===== src/Instructions/Send/Message.antt =====
-- The message that `send` of instructions/send.rs hands to the endpoint, and what the receiving
-- chain reads of it.
use cross_chain_contracts.Common.{ℕ, ◌*◌, ◌≤◌, ◌<◌, ◌≡◌, sym, arith, subst, List, ◌++◌, bytes_eq}
use cross_chain_contracts.Errors.{Result, ok, oft, invalid_sender, require, >>=-eq-ok}
use cross_chain_contracts.Words.{IsU64, IsArray, index}
use cross_chain_contracts.MsgCodec as MsgCodec
use cross_chain_contracts.MsgCodec.RoundTrip as RoundTrip
use cross_chain_contracts.State.RateLimiter.{Clock}
use cross_chain_contracts.State.OftStore.{OftStore, ld2sd}
use cross_chain_contracts.State.OftStore.Conversion.{IsClean, ld2sd_lem}
use cross_chain_contracts.State.OftStore.Identity.{MovesTvl-SameIdentity}
use cross_chain_contracts.State.PeerConfig.{combine_options}
use cross_chain_contracts.Platform.{Host}
use cross_chain_contracts.Platform.Laws.{FeeLaws}
use cross_chain_contracts.Platform.Cpi.{MessagingReceipt}
use cross_chain_contracts.Fees.{final_fee_bps}
use cross_chain_contracts.Fees.Adjust.{compute-IsSplit}
use cross_chain_contracts.Instructions.Accounts.{signer_seeds}
use cross_chain_contracts.Instructions.Send.{SendContext, SendParams, Sent, send_message, send}
use cross_chain_contracts.Instructions.Send.Run.{send-SendRun, take_tokens-MovesTvl}
use mathlib.Core.Option

module _ (h : Host) (c : SendContext) (params : SendParams) where
  -- The endpoint is called with a message to the peer in the chain's own words: the recipient, an
  -- amount in shared units, and the signer in front of the composed message.
  pub record Handed (s : OftStore) (amount : ℕ) (receipt : MessagingReceipt) : Type 0 where
    pub units : ℕ
    pub message : List ℕ
    pub options : List ℕ
    pub before : h.World
    pub after : h.World
    pub call :
        h.send s.endpoint_program c.oft_store.key c.remaining_accounts
          (signer_seeds c.token_escrow.key s.bump)
          (record {
            dst_eid = params.dst_eid;
            receiver = c.peer.value.peer_address;
            message = message;
            options = options;
            native_fee = params.native_fee;
            lz_token_fee = params.lz_token_fee;
          })
          before
        ≡ ok (receipt, after)
    pub reads_recipient : MsgCodec.send_to message ≡ ok params.to
    pub reads_units : MsgCodec.amount_sd message ≡ ok units
    pub whole : units * s.ld2sd_rate ≡ amount
    pub reads_composed :
        MsgCodec.compose_msg message ≡ Option.map (λ msg. c.signer ++ msg) params.compose_msg

  pub send_message-Handed :
      (s : OftStore) (amount : ℕ) (w : h.World) {receipt : MessagingReceipt} {w' : h.World}
      → 0 < s.ld2sd_rate
      → IsClean s.ld2sd_rate amount
      → IsU64 amount
      → IsArray 32 params.to
      → IsArray 32 c.signer
      → send_message h c params s amount w ≡ ok (receipt, w')
      → Handed s amount receipt
  unfolding send_message
  send_message-Handed s amount w {w' = w'} rate_pos clean fits to_size signer_size e =
      let (sender, _, e1) = >>=-eq-ok (index c.remaining_accounts 1) _ e in
      let (_, _, e2) =
        >>=-eq-ok (require (bytes_eq c.oft_store.key sender) (oft invalid_sender)) _ e1 in
      let (units, small, converts, whole) = ld2sd_lem s rate_pos clean in
      let (amount_sd, converted, e3) = >>=-eq-ok (ld2sd s amount) _ e2 in
      let same : amount_sd ≡ units = ground (arith, converts, converted) in
      let (options, _, e4) =
        >>=-eq-ok
          (combine_options h.combine_options c.peer.value.enforced_options params.compose_msg
            params.options)
          _ e3 in
      record {
        units = amount_sd;
        message = MsgCodec.encode params.to amount_sd c.signer params.compose_msg;
        options = options;
        before = w;
        after = w';
        call = e4;
        reads_recipient =
            RoundTrip.send_to-encode params.to amount_sd c.signer params.compose_msg to_size;
        reads_units =
            RoundTrip.amount_sd-encode params.to amount_sd c.signer params.compose_msg to_size
              (omega (arith, same, small));
        whole = rw same whole;
        reads_composed =
            RoundTrip.compose_msg-encode params.to amount_sd c.signer params.compose_msg to_size
              signer_size;
      }

  -- If `send` succeeds with a rate that is not 0, a fee of at most 100%, a u64 amount, 32-byte keys
  -- and a mint fee that keeps its laws, then it has handed the endpoint a message for the
  -- configured peer, of which the decoders read the recipient, the amount received (in shared
  -- units, without loss) and, if composed, the signer in front of the composed message.
  pub send-Handed :
      (clock : Result Clock) (w : h.World) {r : Sent h}
      → FeeLaws h
      → 0 < c.oft_store.value.ld2sd_rate
      → final_fee_bps c.oft_store.value.default_fee_bps c.peer.value.fee_bps ≤ 10_000
      → IsU64 params.amount_ld
      → IsArray 32 params.to
      → IsArray 32 c.signer
      → send h clock c params w ≡ ok r
      → Handed r.oft_store r.oft_receipt.amount_received_ld r.msg_receipt
  send-Handed clock w {r} fees rate_pos low fits to_size signer_size e =
      let run = send-SendRun h clock c params w e in
      let same_rate =
        (MovesTvl-SameIdentity (
          take_tokens-MovesTvl h c r.oft_receipt.amount_sent_ld r.oft_receipt.amount_received_ld
            run.fee w run.taken)).ld2sd_rate in
      let split =
        compute-IsSplit h clock c.oft_store.value c.token_mint params.amount_ld c.peer.value.fee_bps
          rate_pos low fits fees run.split in
      send_message-Handed r.oft_store r.oft_receipt.amount_received_ld run.after_tokens
        (omega arith)
        (subst (λ (k : ℕ). IsClean k r.oft_receipt.amount_received_ld) (sym same_rate)
          split.received_clean)
        (omega (arith, split.covered, split.offered)) to_size signer_size run.messaged
