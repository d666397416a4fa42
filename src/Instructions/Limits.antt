-- ===== src/Instructions/Limits.antt =====
-- The rate limiters of a peer in send.rs and lz_receive.rs, where the peer may have none.
pub mod Valid
use cross_chain_contracts.Common.{ℕ, Option, none, some}
use cross_chain_contracts.Errors.{Result, ok, ◌>>=◌}
use cross_chain_contracts.State.RateLimiter.{Clock, RateLimiter, try_consume, refill}
use cross_chain_contracts.State.PeerConfig.{PeerConfig}

-- `if let Some(rate_limiter) = limiter.as_mut() { rate_limiter.try_consume(amount)?; }`
unfoldable pub consume_from : Result Clock → Option RateLimiter → ℕ → Result (Option RateLimiter)
consume_from clock none amount = ok none
consume_from clock (some r) amount = do r' ← try_consume clock r amount; ok (some r')

unfoldable pub refill_into : Result Clock → Option RateLimiter → ℕ → Result (Option RateLimiter)
refill_into clock none amount = ok none
refill_into clock (some r) amount = do r' ← refill clock r amount; ok (some r')

-- What `send` does to the peer: the outbound limiter consumes, the inbound one is refilled.
unfoldable pub limit_outbound : Result Clock → PeerConfig → ℕ → Result PeerConfig
limit_outbound clock p amount = do
  outbound ← consume_from clock p.outbound_rate_limiter amount
  inbound ← refill_into clock p.inbound_rate_limiter amount
  ok (record p { outbound_rate_limiter = outbound; inbound_rate_limiter = inbound })

-- What `lz_receive` does to the peer: the inbound limiter consumes, the outbound one is refilled.
unfoldable pub limit_inbound : Result Clock → PeerConfig → ℕ → Result PeerConfig
limit_inbound clock p amount = do
  inbound ← consume_from clock p.inbound_rate_limiter amount
  outbound ← refill_into clock p.outbound_rate_limiter amount
  ok (record p { outbound_rate_limiter = outbound; inbound_rate_limiter = inbound })
