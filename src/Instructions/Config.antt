-- ===== src/Instructions/Config.antt =====
-- The admin's instructions: set_oft_config.rs, set_pause.rs and set_peer_config.rs.
pub mod Peer
pub mod Effects
pub mod PeerEffects
use cross_chain_contracts.Common.{
  ℕ, Bool, true, false, Option, none, some, List, ltb, if◌then◌else◌, bytes_eq,
}
use cross_chain_contracts.Errors.{Result, ok, oft, unauthorized, invalid_fee, require, ◌>>◌, ◌>>=◌}
use cross_chain_contracts.State.OftStore.{OftStore}
use cross_chain_contracts.Platform.{Host}
use cross_chain_contracts.Platform.Cpi.{Account, SetDelegateParams}
use cross_chain_contracts.Fees.PreFee.{max_fee_basis_points}
use cross_chain_contracts.Instructions.Accounts.{check_store, signer_seeds, is_key}

pub data SetOftConfigParams : Type 0 where
  set_admin : List ℕ → SetOftConfigParams
  set_delegate : List ℕ → SetOftConfigParams
  set_default_fee : ℕ → SetOftConfigParams
  set_paused : Bool → SetOftConfigParams
  set_pauser : Option (List ℕ) → SetOftConfigParams
  set_unpauser : Option (List ℕ) → SetOftConfigParams

-- `Context<SetOFTConfig>`
pub record SetOftConfigContext : Type 0 where
  pub admin : List ℕ
  pub oft_store : Account OftStore
  pub remaining_accounts : List (List ℕ)

-- `Context<SetPause>`
pub record SetPauseContext : Type 0 where
  pub signer : List ℕ
  pub oft_store : Account OftStore

unfoldable pub is_valid_signer : List ℕ → OftStore → Bool → Bool
is_valid_signer signer s paused =
    if paused then is_key s.pauser signer else is_key s.unpauser signer

module _ (h : Host) where
  -- `SetOFTConfig::apply`
  unfoldable pub apply_config :
      SetOftConfigContext → SetOftConfigParams → h.World → Result (OftStore × h.World)
  apply_config c (SetOftConfigParams.set_admin admin) w =
      ok (record (c.oft_store.value) { admin = admin }, w)
  apply_config c (SetOftConfigParams.set_delegate delegate) w = do
    w1 ←
        h.set_delegate c.oft_store.value.endpoint_program c.oft_store.key c.remaining_accounts
          (signer_seeds c.oft_store.value.token_escrow c.oft_store.value.bump)
          (record { delegate = delegate }) w
    ok (c.oft_store.value, w1)
  apply_config c (SetOftConfigParams.set_default_fee fee_bps) w = do
    require (ltb fee_bps max_fee_basis_points) (oft invalid_fee)
    ok (record (c.oft_store.value) { default_fee_bps = fee_bps }, w)
  apply_config c (SetOftConfigParams.set_paused paused) w =
      ok (record (c.oft_store.value) { paused = paused }, w)
  apply_config c (SetOftConfigParams.set_pauser pauser) w =
      ok (record (c.oft_store.value) { pauser = pauser }, w)
  apply_config c (SetOftConfigParams.set_unpauser unpauser) w =
      ok (record (c.oft_store.value) { unpauser = unpauser }, w)

  -- The instruction `set_oft_config` of lib.rs.
  unfoldable pub set_oft_config :
      SetOftConfigContext → SetOftConfigParams → h.World → Result (OftStore × h.World)
  set_oft_config c params w = do
    check_store h c.oft_store
    require (bytes_eq c.oft_store.value.admin c.admin) (oft unauthorized)
    apply_config c params w

  -- The instruction `set_pause` of lib.rs, with the parameter `paused`.
  unfoldable pub set_pause : SetPauseContext → Bool → Result OftStore
  unfolding is_valid_signer
  set_pause c paused = do
    check_store h c.oft_store
    require (is_valid_signer c.signer c.oft_store.value paused) (oft unauthorized)
    ok (record (c.oft_store.value) { paused = paused })
