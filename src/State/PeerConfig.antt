-- ===== src/State/PeerConfig.antt =====
-- state/peer_config.rs: `PeerConfig` and `EnforcedOptions`.
pub mod Valid
use cross_chain_contracts.Common.{ℕ, Option, none, some, List}
use cross_chain_contracts.Errors.{Result}
use cross_chain_contracts.State.RateLimiter.{RateLimiter}

pub record EnforcedOptions : Type 0 where
  pub send : List ℕ
  pub send_and_call : List ℕ

pub record PeerConfig : Type 0 where
  pub peer_address : List ℕ
  pub enforced_options : EnforcedOptions
  pub outbound_rate_limiter : Option RateLimiter
  pub inbound_rate_limiter : Option RateLimiter
  pub fee_bps : Option ℕ
  pub bump : ℕ

unfoldable pub get_enforced_options : EnforcedOptions → Option (List ℕ) → List ℕ
get_enforced_options o none = o.send
get_enforced_options o (some _) = o.send_and_call

-- `oapp::options::combine_options` is of another package, and an argument here.
unfoldable pub combine_options :
    (List ℕ → List ℕ → Result (List ℕ))
    → EnforcedOptions
    → Option (List ℕ)
    → List ℕ
    → Result (List ℕ)
combine_options oapp_combine_options o compose_msg extra_options =
    oapp_combine_options (get_enforced_options o compose_msg) extra_options
