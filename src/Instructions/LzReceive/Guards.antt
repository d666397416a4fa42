-- ===== src/Instructions/LzReceive/Guards.antt =====
-- The refusals of lz_receive.rs on a checked, open store whose peer has both limiters, once the
-- payload is cleared, and how it ends otherwise.
use cross_chain_contracts.Common.{
  ℕ, ◌-◌, ◌≤◌, ◌<◌, ◌≡◌, ◌⊎◌, inl, inr, arith, true, false, none, some, leb, Bool-cases,
  Option-cases, List,
}
use cross_chain_contracts.Errors.{
  Result, ok, err, panic, oft, rate_limit_exceeded, invalid_mint_authority, ◌>>=◌, >>=_assoc,
  >>=_assoc_ok,
}
use cross_chain_contracts.Words.{sub_u64}
use cross_chain_contracts.MsgCodec as MsgCodec
use cross_chain_contracts.State.RateLimiter.{Clock, RateLimiter, unix_time}
use cross_chain_contracts.State.RateLimiter.Bounds.{IsValid, level, refill_lem, try_consume_lem}
use cross_chain_contracts.State.OftStore.{OftStore, is_adapter, sd2ld}
use cross_chain_contracts.State.PeerConfig.{PeerConfig}
use cross_chain_contracts.Platform.{Host}
use cross_chain_contracts.Platform.Cpi.{LzReceiveParams, oft_received}
use cross_chain_contracts.Fees.{get_post_fee_amount_ld}
use cross_chain_contracts.Instructions.Limits.{consume_from, refill_into, limit_inbound}
use cross_chain_contracts.Instructions.LzReceive.{
  LzReceiveContext, Received, check_accounts, clear_payload, give_tokens, transfer_from_escrow,
  mint_to_dest, compose, apply, lz_receive,
}

-- The limiters after an inbound transfer.
abbrev pub received_limits : PeerConfig → RateLimiter → RateLimiter → ℕ → ℕ → PeerConfig
received_limits p out in_bound now amount = record p {
  outbound_rate_limiter =
      some (record out { tokens = level out now amount; last_refill_time = now });
  inbound_rate_limiter =
      some (record in_bound { tokens = level in_bound now 0 - amount; last_refill_time = now });
}

module _ (clock : Result Clock) (p : PeerConfig) (out in_bound : RateLimiter) (now amount : ℕ)
    (outbound : p.outbound_rate_limiter ≡ some out)
    (inbound : p.inbound_rate_limiter ≡ some in_bound) (out_valid : IsValid out)
    (in_valid : IsValid in_bound) (time : unix_time clock ≡ ok now) where
  limit_inbound_lem :
      ((amount ≤ level in_bound now 0)
        × (limit_inbound clock p amount ≡ ok (received_limits p out in_bound now amount)))
      ⊎ ((level in_bound now 0 < amount)
          × (limit_inbound clock p amount ≡ err (oft rate_limit_exceeded)))
  unfolding limit_inbound consume_from refill_into
  limit_inbound_lem = elim (try_consume_lem clock in_bound amount now in_valid time) [
    | inl (enough, taken) ↦ inl (
      enough,
      rw (outbound, inbound, taken, refill_lem clock out amount now out_valid.capacity_fits time),
    )
    | inr (short, refused) ↦ inr (short, rw (inbound, refused))
  ]

module _ (h : Host) (c : LzReceiveContext) where
  -- An adapter's locked value falls by the amount, which leaves the escrow; a native OFT's amount
  -- is minted. The tokens cannot be given if the locked value is less, or if there is no authority.
  give_tokens_cases :
      (clock : Result Clock) (amount : ℕ) (w : h.World)
      → let s = c.oft_store.value in
        ((is_adapter s.oft_type ≡ true)
          × (s.tvl_ld < amount)
          × (give_tokens h clock c amount w ≡ panic))
        ⊎ ((is_adapter s.oft_type ≡ false)
            × (c.mint_authority ≡ none)
            × (give_tokens h clock c amount w ≡ err (oft invalid_mint_authority)))
        ⊎ ((is_adapter s.oft_type ≡ true)
            × (amount ≤ s.tvl_ld)
            × (give_tokens h clock c amount w ≡ (do
              w1 ← transfer_from_escrow h c amount w
              post_fee_ld ← get_post_fee_amount_ld h clock c.token_mint amount
              ok (record s { tvl_ld = s.tvl_ld - amount }, w1, post_fee_ld))))
        ⊎ ((authority : List ℕ) × (is_adapter s.oft_type ≡ false)
            × (c.mint_authority ≡ some authority)
            × (give_tokens h clock c amount w
                ≡ (do w1 ← mint_to_dest h c authority amount w; ok (s, w1, amount))))
  unfolding give_tokens sub_u64 mint_to_dest
  give_tokens_cases clock amount w = elim (Bool-cases (is_adapter c.oft_store.value.oft_type)) [
    | inl kind ↦ elim (Bool-cases (leb amount c.oft_store.value.tvl_ld)) [
      | inl covered ↦ inr (inr (inl (kind, ground arith, rw (kind, covered))))
      | inr short ↦ inl (kind, ground arith, rw (kind, short))
    ]
    | inr kind ↦ elim (Option-cases c.mint_authority) [
      | inl absent ↦ inr (inl (kind, absent, rw (kind, absent)))
      | inr (authority, given) ↦ inr (inr (inr (authority, kind, given, rw (kind, given))))
    ]
  ]

  -- The end of a call that has given the tokens: the composed message and the event.
  abbrev pub finish : LzReceiveParams → PeerConfig → OftStore → ℕ → h.World → Result (Received h)
  finish params peer s received w = do
    w1 ← compose h c params s received w
    w2 ←
        h.emit_cpi
          (oft_received (record {
            guid = params.guid;
            src_eid = params.src_eid;
            to = c.to_address;
            amount_received_ld = received;
          }))
          w1
    ok (record { peer = peer; oft_store = s; world = w2 })

-- Up to the limiters nothing is refused: what is left is to give the tokens and to finish.
lz_receive_gives :
    (h : Host) (clock : Result Clock) (c : LzReceiveContext) (params : LzReceiveParams)
    (w : h.World) {checked cleared : h.World} {amount_sd amount : ℕ} {peer : PeerConfig}
    → check_accounts h c params w ≡ ok checked
    → c.oft_store.value.paused ≡ false
    → clear_payload h c params checked ≡ ok cleared
    → MsgCodec.amount_sd params.message ≡ ok amount_sd
    → sd2ld c.oft_store.value amount_sd ≡ ok amount
    → limit_inbound clock c.peer.value amount ≡ ok peer
    → lz_receive h clock c params w ≡ (do
      (s, w1, received) ← give_tokens h clock c amount cleared
      finish h c params peer s received w1)
unfolding lz_receive apply
lz_receive_gives h clock c params w passed open_store clears decodes converts moved =
    rw (passed, clears, decodes, converts, moved, open_store)

-- On a checked, open store whose peer has two valid limiters, where the payload is cleared, the
-- amount of the message fits in local decimals and the time can be read: `lz_receive` reports
-- `RateLimitExceeded` if the refilled inbound limiter holds less. Otherwise it panics if an
-- adapter's locked value is less, and reports `InvalidMintAuthority` if a native OFT is called
-- without one. An adapter that covers the amount transfers it from the escrow and a native OFT
-- mints it with the authority; then the message is composed and the event emitted, and the call
-- ends with the error of these steps, or with a locked value that an adapter has reduced by the
-- amount, and a peer whose inbound limiter has given up the amount and whose outbound limiter is
-- refilled by it.
pub lz_receive_guards :
    (h : Host) (clock : Result Clock) (c : LzReceiveContext) (params : LzReceiveParams)
    (w : h.World) (out in_bound : RateLimiter) (now : ℕ) {checked cleared : h.World}
    {amount_sd amount : ℕ}
    → check_accounts h c params w ≡ ok checked
    → c.oft_store.value.paused ≡ false
    → clear_payload h c params checked ≡ ok cleared
    → MsgCodec.amount_sd params.message ≡ ok amount_sd
    → sd2ld c.oft_store.value amount_sd ≡ ok amount
    → c.peer.value.outbound_rate_limiter ≡ some out
    → c.peer.value.inbound_rate_limiter ≡ some in_bound
    → IsValid out
    → IsValid in_bound
    → unix_time clock ≡ ok now
    → let s = c.oft_store.value in
      let peer = received_limits c.peer.value out in_bound now amount in
      ((level in_bound now 0 < amount)
        × (lz_receive h clock c params w ≡ err (oft rate_limit_exceeded)))
      ⊎ ((amount ≤ level in_bound now 0)
          × (((is_adapter s.oft_type ≡ true)
                × (s.tvl_ld < amount)
                × (lz_receive h clock c params w ≡ panic))
              ⊎ ((is_adapter s.oft_type ≡ false)
                  × (c.mint_authority ≡ none)
                  × (lz_receive h clock c params w ≡ err (oft invalid_mint_authority)))
              ⊎ ((is_adapter s.oft_type ≡ true)
                  × (amount ≤ s.tvl_ld)
                  × (lz_receive h clock c params w ≡ (do
                    w1 ← transfer_from_escrow h c amount cleared
                    received ← get_post_fee_amount_ld h clock c.token_mint amount
                    finish h c params peer (record s { tvl_ld = s.tvl_ld - amount }) received w1)))
              ⊎ ((authority : List ℕ) × (is_adapter s.oft_type ≡ false)
                  × (c.mint_authority ≡ some authority)
                  × (lz_receive h clock c params w ≡ (do
                    w1 ← mint_to_dest h c authority amount cleared
                    finish h c params peer s amount w1)))))
unfolding lz_receive apply
lz_receive_guards h clock c params w out in_bound now {cleared = cleared} {amount = amount} passed
      open_store clears decodes converts outbound inbound out_valid in_valid time =
    elim (limit_inbound_lem clock c.peer.value out in_bound now amount outbound inbound out_valid
      in_valid time) [
        | inr (short, refused) ↦
            inl (short, rw (passed, clears, decodes, converts, refused, open_store))
        | inl (enough, moved) ↦ inr (
          enough,
          (let gives =
                lz_receive_gives h clock c params w passed open_store clears decodes converts
                  moved in
              elim (give_tokens_cases h c clock amount cleared) [
                | inl (kind, short, given) ↦ inl (kind, short, rw (gives, given))
                | inr (inl (kind, absent, given)) ↦ inr (inl (kind, absent, rw (gives, given)))
                | inr (inr (inl (kind, covered, given))) ↦ inr (
                    inr (
                      inl (
                        kind,
                        covered,
                        rw (gives, given)
                            (>>=_assoc_ok (transfer_from_escrow h c amount cleared) _ _ _),
                      )))
                | inr (inr (inr (authority, kind, present, given))) ↦ inr (
                    inr (
                      inr (
                        authority,
                        kind,
                        present,
                        rw (gives, given)
                            (>>=_assoc (mint_to_dest h c authority amount cleared) _ _),
                      )))
              ]),
        )
      ]
