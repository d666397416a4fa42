-- ===== src/Instructions/Quote/Price.antt =====
-- What quote_send.rs asks the endpoint to price, for a transfer that send.rs makes.
use cross_chain_contracts.Common.{ℕ, ◌≡◌, le→leb, bytes_eq, List}
use cross_chain_contracts.Errors.{Result, ok, oft, invalid_sender, require, >>=-eq-ok, >>-eq-ok}
use cross_chain_contracts.Words.{index}
use cross_chain_contracts.State.RateLimiter.{Clock}
use cross_chain_contracts.State.OftStore.{OftStore, ld2sd}
use cross_chain_contracts.State.PeerConfig.{combine_options}
use cross_chain_contracts.Platform.{Host}
use cross_chain_contracts.Platform.Cpi.{MessagingReceipt}
use cross_chain_contracts.Instructions.Send.{SendContext, SendParams, Sent, send_message, send}
use cross_chain_contracts.Instructions.Send.Run.{send-SendRun}
use cross_chain_contracts.Instructions.Quote.{
  QuoteContext, QuoteRequest, check_accounts, quoted_message, quote_send,
}

send_message_options :
    (h : Host) (c : SendContext) (params : SendParams) (s : OftStore) (amount : ℕ) (w : h.World)
    {t : MessagingReceipt × h.World}
    → send_message h c params s amount w ≡ ok t
    → (options : List ℕ) × (combine_options h.combine_options c.peer.value.enforced_options
          params.compose_msg params.options
        ≡ ok options)
unfolding send_message
send_message_options h c params s amount w e =
    let (sender, _, e1) = >>=-eq-ok (index c.remaining_accounts 1) _ e in
    let e2 = >>-eq-ok (require (bytes_eq c.oft_store.key sender) (oft invalid_sender)) _ e1 in
    let (amount_sd, _, e3) = >>=-eq-ok (ld2sd s amount) _ e2 in
    let (options, combined, _) =
      >>=-eq-ok
        (combine_options h.combine_options c.peer.value.enforced_options params.compose_msg
          params.options)
        _ e3 in
    (options, combined)

-- If `send` succeeds, then `quote_send`, on checked accounts with the same store, peer, mint,
-- amounts, composed message and options, is the endpoint's quote for the same peer, with the
-- options that `send` combines and a message on the amount that `send` says is received.
pub quote_send-send :
    (h : Host) (clock : Result Clock) (c : SendContext) (params : SendParams) (w w' : h.World)
    (q : QuoteContext) (qp : QuoteRequest) {r : Sent h}
    → q.oft_store.value ≡ c.oft_store.value
    → q.peer.value ≡ c.peer.value
    → q.token_mint ≡ c.token_mint
    → qp.amount_ld ≡ params.amount_ld
    → qp.min_amount_ld ≡ params.min_amount_ld
    → qp.compose_msg ≡ params.compose_msg
    → qp.options ≡ params.options
    → check_accounts h q qp ≡ ok tt
    → send h clock c params w ≡ ok r
    → (options : List ℕ) × (combine_options h.combine_options c.peer.value.enforced_options
          params.compose_msg params.options
        ≡ ok options)
      × (quote_send h clock q qp w'
          ≡ h.quote c.oft_store.value.endpoint_program q.remaining_accounts
              (record {
                sender = q.oft_store.key;
                dst_eid = qp.dst_eid;
                receiver = c.peer.value.peer_address;
                message = quoted_message qp r.oft_receipt.amount_received_ld;
                pay_in_lz_token = qp.pay_in_lz_token;
                options = options;
              })
              w')
unfolding quote_send
quote_send-send h clock c params w w' q qp {r} store peer mint amount least compose extra checked
      e =
    let run = send-SendRun h clock c params w e in
    let (options, combined) =
      send_message_options h c params r.oft_store r.oft_receipt.amount_received_ld run.after_tokens
        run.messaged in
    let enough = le→leb params.min_amount_ld r.oft_receipt.amount_received_ld run.enough in
    (
      options,
      combined,
      rw (
        checked, store, peer, mint, amount, least, run.split, run.open_store, enough, compose,
        extra, combined,
      ),
    )
