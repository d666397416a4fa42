-- ===== src/Instructions/Quote/Agreement.antt =====
-- quote_oft.rs and the message of quote_send.rs, against a `send` of send.rs on the same accounts.
use cross_chain_contracts.Common.{
  ℕ, ◌+◌, ◌-◌, ◌*◌, ◌≤◌, ◌<◌, ◌≡◌, refl, sym, ap, ◌∙◌, arith, false, Option, none, some, List, [],
  ◌∷◌, ◌++◌, length, ltb, le→leb, if◌then◌else◌, Bool-cases, inl, inr, length-replicate,
  length-append, ◌≢◌,
}
use cross_chain_contracts.Errors.{Result, ok}
use cross_chain_contracts.Words.{IsU64, IsArray, add_u64, sub_u64}
use cross_chain_contracts.MsgCodec as MsgCodec
use cross_chain_contracts.MsgCodec.RoundTrip.{length-encode, amount_sd-encode, tail}
use cross_chain_contracts.State.RateLimiter.{Clock}
use cross_chain_contracts.Platform.{Host}
use cross_chain_contracts.Platform.Laws.{FeeLaws}
use cross_chain_contracts.Fees.{final_fee_bps, compute_fee_and_adjust_amount}
use cross_chain_contracts.Fees.Adjust.{compute-IsSplit}
use cross_chain_contracts.Instructions.Send.{SendContext, SendParams, Sent, send}
use cross_chain_contracts.Instructions.Send.Run.{send-SendRun}
use cross_chain_contracts.Instructions.Quote.{
  QuoteContext, QuoteRequest, QuoteOftResult, OftFeeDetail, check_accounts, quote_oft,
  transfer_fee_details, quoted_message, default_key,
}

-- The sum of the fees of a quote.
abbrev pub total_fees : List OftFeeDetail → ℕ
total_fees [] = 0
total_fees (d ∷ ds) = d.fee_amount_ld + total_fees ds

transfer_fee_details_lem :
    (sent received fee : ℕ)
    → IsU64 sent
    → received + fee ≤ sent
    → (ds : List OftFeeDetail) × (transfer_fee_details sent received fee ≡ ok ds)
      × (total_fees ds + received + fee ≡ sent)
unfolding transfer_fee_details add_u64 sub_u64
transfer_fee_details_lem sent received fee fits covered =
    elim (Bool-cases (ltb (received + fee) sent)) [
      | inl more ↦ (
        record { fee_amount_ld = sent - fee - received; description = "Token2022 Transfer Fee" }
            ∷ [],
        ground arith,
        ground arith,
      )
      | inr exact ↦ ([], ground arith, ground arith)
    ]

total_fees-append :
    (ds es : List OftFeeDetail) → total_fees (ds ++ es) ≡ total_fees ds + total_fees es
total_fees-append [] es = omega arith
total_fees-append (d ∷ ds) es = omega (arith, total_fees-append ds es)

module _ (h : Host) (clock : Result Clock) (q : QuoteContext) (qp : QuoteRequest)
    (checked : check_accounts h q qp ≡ ok tt) (open_store : q.oft_store.value.paused ≡ false) where
  quote_oft_lem :
      {sent received fee : ℕ}
      → IsU64 sent
      → received + fee ≤ sent
      → compute_fee_and_adjust_amount h clock qp.amount_ld q.oft_store.value q.token_mint
          q.peer.value.fee_bps
        ≡ ok (sent, received, fee)
      → qp.min_amount_ld ≤ received
      → (result : QuoteOftResult) × (quote_oft h clock q qp ≡ ok result)
        × (result.oft_receipt ≡ record { amount_sent_ld = sent; amount_received_ld = received })
        × (total_fees result.oft_fee_details + received ≡ sent)
  unfolding quote_oft
  quote_oft_lem {sent} {received} {fee} fits covered split enough =
      let (ds, details, sum) = transfer_fee_details_lem sent received fee fits covered in
      let cross : List OftFeeDetail =
        if ltb 0 fee
        then record { fee_amount_ld = fee; description = "Cross Chain Fee" } ∷ []
        else [] in
      let cross_sum : total_fees cross ≡ fee = ground arith in
      (
        record {
          oft_limits = record { min_amount_ld = 0; max_amount_ld = 0xffffffffffffffff };
          oft_fee_details = ds ++ cross;
          oft_receipt = record { amount_sent_ld = sent; amount_received_ld = received };
        },
        rw (checked, split, open_store, le→leb qp.min_amount_ld received enough, details),
        refl,
        omega (arith, total_fees-append ds cross, cross_sum, sum),
      )

-- If `send` succeeds with a rate that is not 0, a fee of at most 100%, a u64 amount and a mint fee
-- that keeps its laws, then `quote_oft` on checked accounts with the same store, peer, mint and
-- amounts succeeds with the receipt that `send` returns, and the fees that it lists sum to the
-- difference between the amounts sent and received.
pub quote_oft-send :
    (h : Host) (clock : Result Clock) (c : SendContext) (params : SendParams) (w : h.World)
    (q : QuoteContext) (qp : QuoteRequest) {r : Sent h}
    → FeeLaws h
    → 0 < c.oft_store.value.ld2sd_rate
    → final_fee_bps c.oft_store.value.default_fee_bps c.peer.value.fee_bps ≤ 10_000
    → IsU64 params.amount_ld
    → q.oft_store.value ≡ c.oft_store.value
    → q.peer.value ≡ c.peer.value
    → q.token_mint ≡ c.token_mint
    → qp.amount_ld ≡ params.amount_ld
    → qp.min_amount_ld ≡ params.min_amount_ld
    → check_accounts h q qp ≡ ok tt
    → send h clock c params w ≡ ok r
    → (result : QuoteOftResult) × (quote_oft h clock q qp ≡ ok result)
      × (result.oft_receipt ≡ r.oft_receipt)
      × (total_fees result.oft_fee_details + r.oft_receipt.amount_received_ld
          ≡ r.oft_receipt.amount_sent_ld)
quote_oft-send h clock c params w q qp {r} fees rate_pos low fits store peer mint amount least
      checked e =
    let run = send-SendRun h clock c params w e in
    let split =
      compute-IsSplit h clock c.oft_store.value c.token_mint params.amount_ld c.peer.value.fee_bps
        rate_pos low fits fees run.split in
    quote_oft_lem h clock q qp checked (rw store run.open_store) (omega (arith, split.offered))
      split.covered (rw (store, peer, mint, amount) run.split) (rw least run.enough)

length-tail :
    (compose : Option (List ℕ)) (sender sender' : List ℕ)
    → length sender ≡ length sender'
    → length (tail sender compose) ≡ length (tail sender' compose)
length-tail none sender sender' e = refl
length-tail (some msg) sender sender' e =
    omega (arith, e, length-append {0} sender msg, length-append {0} sender' msg)

-- For 32-byte keys, a u64 amount other than 0 that is a whole number of shared units, and a rate
-- above 1, the message that `quote_send` prices has the length of the one that `send` builds from
-- the same recipient and composed message, but it holds the amount in local decimals, where `send`
-- writes the units: the two messages differ.
pub quoted_message_lem :
    (qp : QuoteRequest) (received units rate : ℕ) (signer : List ℕ)
    → IsArray 32 qp.to
    → IsArray 32 signer
    → IsU64 received
    → 0 < received
    → 1 < rate
    → units * rate ≡ received
    → let sent = MsgCodec.encode qp.to units signer qp.compose_msg in
      (length (quoted_message qp received) ≡ length sent)
      × (MsgCodec.amount_sd (quoted_message qp received) ≡ ok received)
      × (MsgCodec.amount_sd sent ≡ ok units)
      × (quoted_message qp received ≢ sent)
unfolding quoted_message
quoted_message_lem qp received units rate signer to_size signer_size fits pos high whole =
    let small : units < received = grind arith in
    let quoted = amount_sd-encode qp.to received default_key qp.compose_msg to_size fits in
    let carried = amount_sd-encode qp.to units signer qp.compose_msg to_size (omega arith) in
    (
      omega (
        arith,
        length-encode qp.to received default_key qp.compose_msg to_size,
        length-encode qp.to units signer qp.compose_msg to_size,
        length-tail qp.compose_msg default_key signer
            (omega (arith, length-replicate {0} {A = ℕ} 32 0)),
      ),
      quoted,
      carried,
      λ same.
          let e : ok received ≡ ok units = sym quoted ∙ ap MsgCodec.amount_sd same ∙ carried in
          absurd (ground arith),
    )
