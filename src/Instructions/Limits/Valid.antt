-- ===== src/Instructions/Limits/Valid.antt =====
-- The validity of a peer across the limiter steps of send.rs and lz_receive.rs.
use cross_chain_contracts.Common.{ℕ, ◌≡◌, Option, none, some, subst}
use cross_chain_contracts.Errors.{Result, ok, >>=-eq-ok, ok-injective}
use cross_chain_contracts.State.RateLimiter.{Clock, RateLimiter, try_consume, refill}
use cross_chain_contracts.State.RateLimiter.Bounds.{try_consume-IsValid, refill-IsValid}
use cross_chain_contracts.State.PeerConfig.{PeerConfig}
use cross_chain_contracts.State.PeerConfig.Valid.{IsValidLimit, IsValidPeer}
use cross_chain_contracts.Instructions.Limits.{
  consume_from, refill_into, limit_outbound, limit_inbound,
}

consume_from-IsValidLimit :
    (clock : Result Clock) (limiter : Option RateLimiter) (amount : ℕ) {l : Option RateLimiter}
    → IsValidLimit limiter
    → consume_from clock limiter amount ≡ ok l
    → IsValidLimit l
unfolding consume_from
consume_from-IsValidLimit clock none amount v e = subst IsValidLimit (ok-injective e) tt
consume_from-IsValidLimit clock (some r) amount v e =
    let (r', used, e1) = >>=-eq-ok (try_consume clock r amount) _ e in
    subst IsValidLimit (ok-injective e1) (try_consume-IsValid clock r amount v used)

refill_into-IsValidLimit :
    (clock : Result Clock) (limiter : Option RateLimiter) (amount : ℕ) {l : Option RateLimiter}
    → IsValidLimit limiter
    → refill_into clock limiter amount ≡ ok l
    → IsValidLimit l
unfolding refill_into
refill_into-IsValidLimit clock none amount v e = subst IsValidLimit (ok-injective e) tt
refill_into-IsValidLimit clock (some r) amount v e =
    let (r', used, e1) = >>=-eq-ok (refill clock r amount) _ e in
    subst IsValidLimit (ok-injective e1) (refill-IsValid clock r amount v used)

pub limit_outbound-IsValidPeer :
    (clock : Result Clock) (p : PeerConfig) (amount : ℕ) {p' : PeerConfig}
    → IsValidPeer p
    → limit_outbound clock p amount ≡ ok p'
    → IsValidPeer p'
unfolding limit_outbound
limit_outbound-IsValidPeer clock p amount v e =
    let (out, used, e1) = >>=-eq-ok (consume_from clock p.outbound_rate_limiter amount) _ e in
    let (inb, given, e2) = >>=-eq-ok (refill_into clock p.inbound_rate_limiter amount) _ e1 in
    subst IsValidPeer (ok-injective e2) (record {
      fee_low = v.fee_low;
      outbound = consume_from-IsValidLimit clock p.outbound_rate_limiter amount v.outbound used;
      inbound = refill_into-IsValidLimit clock p.inbound_rate_limiter amount v.inbound given;
    })

pub limit_inbound-IsValidPeer :
    (clock : Result Clock) (p : PeerConfig) (amount : ℕ) {p' : PeerConfig}
    → IsValidPeer p
    → limit_inbound clock p amount ≡ ok p'
    → IsValidPeer p'
unfolding limit_inbound
limit_inbound-IsValidPeer clock p amount v e =
    let (inb, used, e1) = >>=-eq-ok (consume_from clock p.inbound_rate_limiter amount) _ e in
    let (out, given, e2) = >>=-eq-ok (refill_into clock p.outbound_rate_limiter amount) _ e1 in
    subst IsValidPeer (ok-injective e2) (record {
      fee_low = v.fee_low;
      outbound = refill_into-IsValidLimit clock p.outbound_rate_limiter amount v.outbound given;
      inbound = consume_from-IsValidLimit clock p.inbound_rate_limiter amount v.inbound used;
    })
