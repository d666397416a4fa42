-- ===== src/Instructions/Send/Guards.antt =====
-- The guards of send.rs on a checked, open store whose peer has both limiters, and how it ends
-- once they are passed.
use cross_chain_contracts.Common.{
  ℕ, ◌-◌, ◌≤◌, ◌<◌, ◌≡◌, ◌⊎◌, inl, inr, arith, false, some, leb, Bool-cases,
}
use cross_chain_contracts.Errors.{
  Result, ok, err, oft, slippage_exceeded, rate_limit_exceeded, ◌>>=◌,
}
use cross_chain_contracts.State.RateLimiter.{Clock, RateLimiter, unix_time}
use cross_chain_contracts.State.RateLimiter.Bounds.{IsValid, level, refill_lem, try_consume_lem}
use cross_chain_contracts.State.PeerConfig.{PeerConfig}
use cross_chain_contracts.Platform.{Host}
use cross_chain_contracts.Platform.Cpi.{oft_sent}
use cross_chain_contracts.Fees.{compute_fee_and_adjust_amount}
use cross_chain_contracts.Instructions.Limits.{consume_from, refill_into, limit_outbound}
use cross_chain_contracts.Instructions.Send.{
  SendContext, SendParams, check_accounts, take_tokens, send_message, apply, send,
}

-- The limiters after an outbound transfer.
abbrev pub moved_limits : PeerConfig → RateLimiter → RateLimiter → ℕ → ℕ → PeerConfig
moved_limits p out in_bound now amount = record p {
  outbound_rate_limiter =
      some (record out { tokens = level out now 0 - amount; last_refill_time = now });
  inbound_rate_limiter =
      some (record in_bound { tokens = level in_bound now amount; last_refill_time = now });
}

module _ (clock : Result Clock) (p : PeerConfig) (out in_bound : RateLimiter) (now amount : ℕ)
    (outbound : p.outbound_rate_limiter ≡ some out)
    (inbound : p.inbound_rate_limiter ≡ some in_bound) (out_valid : IsValid out)
    (in_valid : IsValid in_bound) (time : unix_time clock ≡ ok now) where
  limit_outbound_lem :
      ((amount ≤ level out now 0)
        × (limit_outbound clock p amount ≡ ok (moved_limits p out in_bound now amount)))
      ⊎ ((level out now 0 < amount)
          × (limit_outbound clock p amount ≡ err (oft rate_limit_exceeded)))
  unfolding limit_outbound consume_from refill_into
  limit_outbound_lem = elim (try_consume_lem clock out amount now out_valid time) [
    | inl (enough, taken) ↦ inl (
      enough,
      rw (
        outbound,
        inbound,
        taken,
        refill_lem clock in_bound amount now in_valid.capacity_fits time,
      ),
    )
    | inr (short, refused) ↦ inr (short, rw (outbound, refused))
  ]

-- On a checked, open store whose peer has two valid limiters, where the time can be read and the
-- amounts are computed: `send` reports `SlippageExceeded` if less is received than the sender
-- accepts, and else `RateLimitExceeded` if the refilled outbound limiter holds less. Otherwise it
-- ends as the steps that are left end, which take the tokens, call the endpoint and emit the event:
-- with their error, or with the receipt of the amounts and a peer whose outbound limiter has given
-- up the amount received and whose inbound limiter is refilled by it.
pub send_guards :
    (h : Host) (clock : Result Clock) (c : SendContext) (params : SendParams) (w : h.World)
    (out in_bound : RateLimiter) (now : ℕ) {sent received fee : ℕ}
    → check_accounts h c params ≡ ok tt
    → c.oft_store.value.paused ≡ false
    → c.peer.value.outbound_rate_limiter ≡ some out
    → c.peer.value.inbound_rate_limiter ≡ some in_bound
    → IsValid out
    → IsValid in_bound
    → unix_time clock ≡ ok now
    → compute_fee_and_adjust_amount h clock params.amount_ld c.oft_store.value c.token_mint
        c.peer.value.fee_bps
      ≡ ok (sent, received, fee)
    → ((received < params.min_amount_ld) × (send h clock c params w ≡ err (oft slippage_exceeded)))
      ⊎ ((params.min_amount_ld ≤ received)
          × (level out now 0 < received)
          × (send h clock c params w ≡ err (oft rate_limit_exceeded)))
      ⊎ ((params.min_amount_ld ≤ received)
          × (received ≤ level out now 0)
          × (send h clock c params w ≡ (do
            (oft_store, w1) ← take_tokens h c sent received fee w
            (msg_receipt, w2) ← send_message h c params oft_store received w1
            w3 ←
                h.emit_cpi
                  (oft_sent (record {
                    guid = msg_receipt.guid;
                    dst_eid = params.dst_eid;
                    from = c.token_source.key;
                    amount_sent_ld = sent;
                    amount_received_ld = received;
                  }))
                  w2
            ok (record {
              peer = moved_limits c.peer.value out in_bound now received;
              oft_store = oft_store;
              world = w3;
              msg_receipt = msg_receipt;
              oft_receipt = record { amount_sent_ld = sent; amount_received_ld = received };
            }))))
unfolding send apply
send_guards h clock c params w out in_bound now {sent} {received} {fee} checked open_store outbound
      inbound out_valid in_valid time split =
    elim (Bool-cases (leb params.min_amount_ld received)) [
      | inr slips ↦ inl (ground arith, rw (checked, split, open_store, slips))
      | inl accepted ↦
          elim (limit_outbound_lem clock c.peer.value out in_bound now received outbound inbound
            out_valid in_valid time) [
              | inr (short, refused) ↦
                  inr
                    (inl (ground arith, short, rw (checked, split, open_store, accepted, refused)))
              | inl (enough, moved) ↦
                  inr (inr (ground arith, enough, rw (checked, split, open_store, accepted, moved)))
            ]
    ]
