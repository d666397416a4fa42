-- ===== src/State/PeerConfig/Valid.antt =====
-- A peer's configuration in state/peer_config.rs that is well formed.
use cross_chain_contracts.Common.{ℕ, ◌<◌, Option, none, some}
use cross_chain_contracts.State.RateLimiter.{RateLimiter}
use cross_chain_contracts.State.RateLimiter.Bounds.{IsValid}
use cross_chain_contracts.State.PeerConfig.{PeerConfig}

-- The fee of the peer, if it has one of its own, is below 100%.
abbrev pub IsLowFee : Option ℕ → Type 0
IsLowFee none = Unit
IsLowFee (some bps) = bps < 10_000

abbrev pub IsValidLimit : Option RateLimiter → Type 0
IsValidLimit none = Unit
IsValidLimit (some r) = IsValid r

pub record IsValidPeer (p : PeerConfig) : Type 0 where
  pub fee_low : IsLowFee p.fee_bps
  pub outbound : IsValidLimit p.outbound_rate_limiter
  pub inbound : IsValidLimit p.inbound_rate_limiter
