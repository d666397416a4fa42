-- ===== src/Instructions/Config/Peer.antt =====
-- instructions/set_peer_config.rs: the admin's settings of one peer.
use cross_chain_contracts.Common.{ℕ, Option, none, some, List, ltb, bytes_eq}
use cross_chain_contracts.Errors.{
  Result, ok, oft, unauthorized, invalid_fee, constraint, seeds, require, ◌>>◌, ◌>>=◌,
}
use cross_chain_contracts.State.RateLimiter.{Clock, RateLimiter, default, set_rate, set_capacity}
use cross_chain_contracts.State.OftStore.{OftStore}
use cross_chain_contracts.State.PeerConfig.{PeerConfig}
use cross_chain_contracts.Platform.{Host}
use cross_chain_contracts.Platform.Cpi.{Account}
use cross_chain_contracts.Fees.PreFee.{max_fee_basis_points}
use cross_chain_contracts.Instructions.Accounts.{check_store, peer_seeds}

pub record RateLimitParams : Type 0 where
  pub refill_per_second : Option ℕ
  pub capacity : Option ℕ

pub data PeerConfigParam : Type 0 where
  peer_address : List ℕ → PeerConfigParam
  fee_bps : Option ℕ → PeerConfigParam
  enforced_options : List ℕ → List ℕ → PeerConfigParam
  outbound_rate_limit : Option RateLimitParams → PeerConfigParam
  inbound_rate_limit : Option RateLimitParams → PeerConfigParam

pub record SetPeerConfigParams : Type 0 where
  pub remote_eid : ℕ
  pub config : PeerConfigParam

-- `Context<SetPeerConfig>`; where the peer's account is new, `init_if_needed` has made it, and its
-- value is all zero.
pub record SetPeerConfigContext : Type 0 where
  pub admin : List ℕ
  pub peer : Account PeerConfig
  pub oft_store : Account OftStore

abbrev pub or_default : Option RateLimiter → RateLimiter
or_default none = default
or_default (some r) = r

abbrev pub set_capacity_if : Result Clock → RateLimiter → Option ℕ → Result RateLimiter
set_capacity_if clock r none = ok r
set_capacity_if clock r (some capacity) = set_capacity clock r capacity

abbrev pub set_rate_if : Result Clock → RateLimiter → Option ℕ → Result RateLimiter
set_rate_if clock r none = ok r
set_rate_if clock r (some refill_rate) = set_rate clock r refill_rate

unfoldable pub update_rate_limiter :
    Result Clock → Option RateLimiter → Option RateLimitParams → Result (Option RateLimiter)
update_rate_limiter clock rate_limiter none = ok none
update_rate_limiter clock rate_limiter (some param) = do
  limiter ← set_capacity_if clock (or_default rate_limiter) param.capacity
  limiter' ← set_rate_if clock limiter param.refill_per_second
  ok (some limiter')

-- The fee of a peer, if it has one, is below 100%.
unfoldable pub check_fee : Option ℕ → Result (Unit {0})
check_fee none = ok tt
check_fee (some bps) = require (ltb bps max_fee_basis_points) (oft invalid_fee)

module _ (h : Host) where
  unfoldable pub configure : Result Clock → PeerConfig → PeerConfigParam → Result PeerConfig
  configure clock p (PeerConfigParam.peer_address address) =
      ok (record p { peer_address = address })
  configure clock p (PeerConfigParam.fee_bps bps) = do
    check_fee bps
    ok (record p { fee_bps = bps })
  configure clock p (PeerConfigParam.enforced_options send send_and_call) = do
    h.assert_type_3 send
    h.assert_type_3 send_and_call
    ok (record p { enforced_options = record { send = send; send_and_call = send_and_call } })
  configure clock p (PeerConfigParam.outbound_rate_limit params) = do
    limiter ← update_rate_limiter clock p.outbound_rate_limiter params
    ok (record p { outbound_rate_limiter = limiter })
  configure clock p (PeerConfigParam.inbound_rate_limit params) = do
    limiter ← update_rate_limiter clock p.inbound_rate_limiter params
    ok (record p { inbound_rate_limiter = limiter })

  -- The instruction `set_peer_config` of lib.rs. The peer's attribute is a bare `bump`, so its
  -- address is the one that `find_program_address` answers, and its bump is stored.
  unfoldable pub set_peer_config :
      Result Clock → SetPeerConfigContext → SetPeerConfigParams → Result PeerConfig
  set_peer_config clock c params =
      let (address, found_bump) =
        h.find_program_address (peer_seeds c.oft_store.key params.remote_eid) h.program_id in
      do
        require (bytes_eq address c.peer.key) (constraint seeds)
        check_store h c.oft_store
        require (bytes_eq c.oft_store.value.admin c.admin) (oft unauthorized)
        peer ← configure clock c.peer.value params.config
        ok (record peer { bump = found_bump })
