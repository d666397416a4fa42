-- ===== src/Example/Settings.antt =====
-- The admin's instructions and init_oft.rs on the accounts of the examples.
use cross_chain_contracts.Common.{◌≡◌, refl, bytes_eq, true, none, some, []}
use cross_chain_contracts.Errors.{ok}
use cross_chain_contracts.Words.{saturating_add_u64, pow_u64, to_u64_unwrap, to_be_bytes}
use cross_chain_contracts.State.RateLimiter.{unix_time, refill, set_rate, set_capacity}
use cross_chain_contracts.State.OftStore.{OftType, OftStore, LzReceiveTypesAccounts}
use cross_chain_contracts.State.PeerConfig.{PeerConfig}
use cross_chain_contracts.Instructions.Accounts.{check_seeds, check_store, check_mint_program}
use cross_chain_contracts.Instructions.Config.{
  SetOftConfigParams, is_valid_signer, apply_config, set_oft_config, set_pause,
}
use cross_chain_contracts.Instructions.Config.Peer.{
  SetPeerConfigParams, PeerConfigParam, update_rate_limiter, check_fee, configure, set_peer_config,
}
use cross_chain_contracts.Instructions.InitOft as InitOft
use cross_chain_contracts.Instructions.InitOft.{InitOftContext, InitOftParams, init_oft}
use cross_chain_contracts.Example.{
  host, clock, key, store_key, peer_key, escrow_key, mint_key, token_program_key, mint,
}
use cross_chain_contracts.Example.Accounts.{
  admin, store, peer, world, pause_context, config_context, peer_context,
}

pub store_checked : check_store host pause_context.oft_store ≡ ok tt
unfolding check_store check_seeds bytes_eq
store_checked = refl

pub pause_run : set_pause host pause_context true ≡ ok (record store { paused = true })
unfolding set_pause is_valid_signer check_store check_seeds bytes_eq
pause_run = refl

pub config_run :
    set_oft_config host config_context (SetOftConfigParams.set_default_fee 50) world
    ≡ ok (record store { default_fee_bps = 50 }, world)
unfolding set_oft_config apply_config check_store check_seeds bytes_eq
config_run = refl

-- A new limiter is full at the time of the call.
abbrev pub limit_params : SetPeerConfigParams
limit_params = record {
  remote_eid = 30_101;
  config =
      PeerConfigParam.outbound_rate_limit
        (some (record { refill_per_second = some 25; capacity = some 2_000_000 }));
}

abbrev pub limited_peer : PeerConfig
limited_peer = record peer {
  outbound_rate_limiter = some (record {
    capacity = 2_000_000;
    tokens = 2_000_000;
    refill_per_second = 25;
    last_refill_time = 1_000;
  });
  bump = 255;
}

pub peer_run : set_peer_config host clock peer_context limit_params ≡ ok limited_peer
unfolding set_peer_config configure update_rate_limiter set_rate set_capacity refill unix_time
    to_u64_unwrap check_fee saturating_add_u64 check_store check_seeds bytes_eq to_be_bytes
peer_run = refl

abbrev pub init_context : InitOftContext
init_context = record {
  payer = key 15;
  oft_store = store_key;
  lz_receive_types_accounts = peer_key;
  token_mint = mint;
  token_escrow = escrow_key;
  token_program = token_program_key;
  remaining_accounts = [];
}

abbrev pub init_params : InitOftParams
init_params = record {
  oft_type = OftType.adapter;
  admin = admin;
  shared_decimals = 6;
  endpoint_program = none;
}

abbrev pub new_store : OftStore
new_store = record store { tvl_ld = 0; default_fee_bps = 0; pauser = none; unpauser = none }

abbrev pub types_accounts : LzReceiveTypesAccounts
types_accounts = record { oft_store = store_key; token_mint = mint_key }

pub init_run : init_oft host init_context init_params world ≡ ok (new_store, types_accounts, world)
unfolding init_oft InitOft.check_accounts InitOft.apply pow_u64 check_mint_program bytes_eq
init_run = refl
