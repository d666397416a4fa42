-- ===== src/Instructions/Config/PeerEffects.antt =====
-- What set_peer_config.rs leaves of a peer, and who may call it.
use cross_chain_contracts.Common.{ℕ, ◌≡◌, Option, none, some, subst, arith, bytes_eq, bytes_eq→eq}
use cross_chain_contracts.Errors.{
  Result, ok, oft, unauthorized, constraint, seeds, require, >>=-eq-ok, >>-eq-ok, ok-injective,
  require-eq-ok,
}
use cross_chain_contracts.Words.{IsU64}
use cross_chain_contracts.State.RateLimiter.{Clock, RateLimiter}
use cross_chain_contracts.State.RateLimiter.Bounds.{IsValid, set_rate-IsValid, set_capacity-IsValid}
use cross_chain_contracts.State.PeerConfig.{PeerConfig}
use cross_chain_contracts.State.PeerConfig.Valid.{IsLowFee, IsValidLimit, IsValidPeer}
use cross_chain_contracts.Platform.{Host}
use cross_chain_contracts.Instructions.Accounts.{check_store, peer_seeds}
use cross_chain_contracts.Instructions.Config.Peer.{
  RateLimitParams, PeerConfigParam, SetPeerConfigParams, SetPeerConfigContext, or_default,
  set_capacity_if, set_rate_if, update_rate_limiter, check_fee, configure, set_peer_config,
}

-- The parameters are u64 where they are given.
abbrev pub IsU64Option : Option ℕ → Type 0
IsU64Option none = Unit
IsU64Option (some v) = IsU64 v

abbrev pub IsLimitParams : Option RateLimitParams → Type 0
IsLimitParams none = Unit
IsLimitParams (some p) = IsU64Option p.capacity × IsU64Option p.refill_per_second

abbrev pub IsParam : PeerConfigParam → Type 0
IsParam (PeerConfigParam.peer_address a) = Unit
IsParam (PeerConfigParam.fee_bps b) = Unit
IsParam (PeerConfigParam.enforced_options s c) = Unit
IsParam (PeerConfigParam.outbound_rate_limit p) = IsLimitParams p
IsParam (PeerConfigParam.inbound_rate_limit p) = IsLimitParams p

or_default-IsValid : (l : Option RateLimiter) → IsValidLimit l → IsValid (or_default l)
or_default-IsValid none v = omega arith
or_default-IsValid (some r) v = v

set_capacity_if-IsValid :
    (clock : Result Clock) (r : RateLimiter) (o : Option ℕ) {r' : RateLimiter}
    → IsU64Option o
    → IsValid r
    → set_capacity_if clock r o ≡ ok r'
    → IsValid r'
set_capacity_if-IsValid clock r none fits v e = subst IsValid (ok-injective e) v
set_capacity_if-IsValid clock r (some c) fits v e = set_capacity-IsValid clock r c fits v e

set_rate_if-IsValid :
    (clock : Result Clock) (r : RateLimiter) (o : Option ℕ) {r' : RateLimiter}
    → IsU64Option o
    → IsValid r
    → set_rate_if clock r o ≡ ok r'
    → IsValid r'
set_rate_if-IsValid clock r none fits v e = subst IsValid (ok-injective e) v
set_rate_if-IsValid clock r (some q) fits v e = set_rate-IsValid clock r q fits v e

update_rate_limiter-IsValidLimit :
    (clock : Result Clock) (l : Option RateLimiter) (params : Option RateLimitParams)
    {l' : Option RateLimiter}
    → IsLimitParams params
    → IsValidLimit l
    → update_rate_limiter clock l params ≡ ok l'
    → IsValidLimit l'
unfolding update_rate_limiter
update_rate_limiter-IsValidLimit clock l none fits v e = subst IsValidLimit (ok-injective e) tt
update_rate_limiter-IsValidLimit clock l (some p) (cap, rate) v e =
    let (r1, capped, e1) = >>=-eq-ok (set_capacity_if clock (or_default l) p.capacity) _ e in
    let (r2, rated, e2) = >>=-eq-ok (set_rate_if clock r1 p.refill_per_second) _ e1 in
    let v1 =
      set_capacity_if-IsValid clock (or_default l) p.capacity cap (or_default-IsValid l v) capped in
    subst IsValidLimit (ok-injective e2)
      (set_rate_if-IsValid clock r1 p.refill_per_second rate v1 rated)

check_fee-IsLowFee : (bps : Option ℕ) → check_fee bps ≡ ok tt → IsLowFee bps
unfolding check_fee
check_fee-IsLowFee none e = tt
check_fee-IsLowFee (some b) e = ground arith

module _ (h : Host) where
  configure-IsValidPeer :
      (clock : Result Clock) (p : PeerConfig) (param : PeerConfigParam) {p' : PeerConfig}
      → IsParam param
      → IsValidPeer p
      → configure h clock p param ≡ ok p'
      → IsValidPeer p'
  unfolding configure
  configure-IsValidPeer clock p (PeerConfigParam.peer_address a) fits v e =
      subst IsValidPeer (ok-injective e)
        (record { fee_low = v.fee_low; outbound = v.outbound; inbound = v.inbound })
  configure-IsValidPeer clock p (PeerConfigParam.fee_bps bps) fits v e =
      let (_, low, e1) = >>=-eq-ok (check_fee bps) _ e in
      subst IsValidPeer (ok-injective e1) (record {
        fee_low = check_fee-IsLowFee bps low;
        outbound = v.outbound;
        inbound = v.inbound;
      })
  configure-IsValidPeer clock p (PeerConfigParam.enforced_options send call) fits v e =
      let e1 = >>-eq-ok (h.assert_type_3 send) _ e in
      let e2 = >>-eq-ok (h.assert_type_3 call) _ e1 in
      subst IsValidPeer (ok-injective e2)
        (record { fee_low = v.fee_low; outbound = v.outbound; inbound = v.inbound })
  configure-IsValidPeer clock p (PeerConfigParam.outbound_rate_limit params) fits v e =
      let (l, updated, e1) =
        >>=-eq-ok (update_rate_limiter clock p.outbound_rate_limiter params) _ e in
      subst IsValidPeer (ok-injective e1) (record {
        fee_low = v.fee_low;
        outbound =
            update_rate_limiter-IsValidLimit clock p.outbound_rate_limiter params fits v.outbound
              updated;
        inbound = v.inbound;
      })
  configure-IsValidPeer clock p (PeerConfigParam.inbound_rate_limit params) fits v e =
      let (l, updated, e1) =
        >>=-eq-ok (update_rate_limiter clock p.inbound_rate_limiter params) _ e in
      subst IsValidPeer (ok-injective e1) (record {
        fee_low = v.fee_low;
        outbound = v.outbound;
        inbound =
            update_rate_limiter-IsValidLimit clock p.inbound_rate_limiter params fits v.inbound
              updated;
      })

  -- `set_peer_config` with u64 limits succeeds only for the admin of the store, and leaves a valid
  -- peer (its own fee, if any, below 100%, its limiters valid) valid.
  pub set_peer_config-IsValidPeer :
      (clock : Result Clock) (c : SetPeerConfigContext) (params : SetPeerConfigParams)
      {p' : PeerConfig}
      → IsParam params.config
      → IsValidPeer c.peer.value
      → set_peer_config h clock c params ≡ ok p'
      → (c.oft_store.value.admin ≡ c.admin) × IsValidPeer p'
  unfolding set_peer_config
  set_peer_config-IsValidPeer clock c params fits v e =
      let found =
        h.find_program_address (peer_seeds c.oft_store.key params.remote_eid) h.program_id in
      let e1 = >>-eq-ok (require (bytes_eq found.0 c.peer.key) (constraint seeds)) _ e in
      let e2 = >>-eq-ok (check_store h c.oft_store) _ e1 in
      let (_, allowed, e3) =
        >>=-eq-ok (require (bytes_eq c.oft_store.value.admin c.admin) (oft unauthorized)) _ e2 in
      let (p1, configured, e4) = >>=-eq-ok (configure h clock c.peer.value params.config) _ e3 in
      let v1 = configure-IsValidPeer clock c.peer.value params.config fits v configured in
      (
        bytes_eq→eq c.oft_store.value.admin c.admin (require-eq-ok _ (oft unauthorized) allowed),
        subst IsValidPeer (ok-injective e4)
            (record { fee_low = v1.fee_low; outbound = v1.outbound; inbound = v1.inbound }),
      )
