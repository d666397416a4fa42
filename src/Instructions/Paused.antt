-- ===== src/Instructions/Paused.antt =====
-- A paused store in send.rs, lz_receive.rs, quote_oft.rs and quote_send.rs.
use cross_chain_contracts.Common.{◌≡◌, true}
use cross_chain_contracts.Errors.{Result, ok, err, oft, paused}
use cross_chain_contracts.State.RateLimiter.{Clock}
use cross_chain_contracts.Platform.{Host}
use cross_chain_contracts.Platform.Cpi.{LzReceiveParams}
use cross_chain_contracts.Instructions.Send as Send
use cross_chain_contracts.Instructions.Send.{SendContext, SendParams}
use cross_chain_contracts.Instructions.LzReceive as LzReceive
use cross_chain_contracts.Instructions.LzReceive.{LzReceiveContext}
use cross_chain_contracts.Instructions.Quote as Quote
use cross_chain_contracts.Instructions.Quote.{QuoteContext, QuoteRequest}

-- Where the store is paused and the accounts pass their checks, `send`, `lz_receive`, `quote_oft`
-- and `quote_send` end with `Paused`, whatever the clock, the amounts and the called programs say.
pub paused_refuses :
    (h : Host) (clock : Result Clock) (w w' : h.World) (sc : SendContext) (sp : SendParams)
    (rc : LzReceiveContext) (rp : LzReceiveParams) (qc : QuoteContext) (qp : QuoteRequest)
    → sc.oft_store.value.paused ≡ true
    → rc.oft_store.value.paused ≡ true
    → qc.oft_store.value.paused ≡ true
    → Send.check_accounts h sc sp ≡ ok tt
    → LzReceive.check_accounts h rc rp w ≡ ok w'
    → Quote.check_accounts h qc qp ≡ ok tt
    → (Send.send h clock sc sp w ≡ err (oft paused))
      × (LzReceive.lz_receive h clock rc rp w ≡ err (oft paused))
      × (Quote.quote_oft h clock qc qp ≡ err (oft paused))
      × (Quote.quote_send h clock qc qp w ≡ err (oft paused))
unfolding Send.send Send.apply LzReceive.lz_receive LzReceive.apply Quote.quote_oft Quote.quote_send
paused_refuses h clock w w' sc sp rc rp qc qp ps pr pq cs cr cq =
    (rw (cs, ps), rw (cr, pr), rw (cq, pq), rw (cq, pq))
