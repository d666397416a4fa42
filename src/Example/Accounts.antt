-- ===== src/Example/Accounts.antt =====
-- The accounts of the examples: an adapter whose store locks 5,000,000 at a rate of 1,000 and takes
-- 0.3%, with a peer whose limiters hold a million tokens.
use cross_chain_contracts.Common.{ℕ, false, none, some, List, [], ◌∷◌, bytes_eq, if◌then◌else◌}
use cross_chain_contracts.State.RateLimiter.{RateLimiter}
use cross_chain_contracts.State.OftStore.{OftType, OftStore}
use cross_chain_contracts.State.PeerConfig.{PeerConfig}
use cross_chain_contracts.Platform.Cpi.{Account, TokenAccount, LzReceiveParams}
use cross_chain_contracts.MsgCodec as MsgCodec
use cross_chain_contracts.Instructions.Send.{SendContext, SendParams}
use cross_chain_contracts.Instructions.LzReceive.{LzReceiveContext}
use cross_chain_contracts.Instructions.Quote.{QuoteContext, QuoteRequest}
use cross_chain_contracts.Instructions.LzReceiveTypes.{LzReceiveTypesContext}
use cross_chain_contracts.Instructions.WithdrawFee.{WithdrawFeeContext}
use cross_chain_contracts.Instructions.Config.{SetOftConfigContext, SetPauseContext}
use cross_chain_contracts.Instructions.Config.Peer.{SetPeerConfigContext}
use cross_chain_contracts.Example.{
  Balances, State, key, store_key, peer_key, escrow_key, mint_key, token_program_key, dest_key,
  mint,
}

abbrev pub alice : List ℕ
alice = key 6

abbrev pub bob : List ℕ
bob = key 8

abbrev pub admin : List ℕ
admin = key 13

abbrev pub pauser : List ℕ
pauser = key 14

abbrev pub store : OftStore
store = record {
  oft_type = OftType.adapter;
  ld2sd_rate = 1_000;
  token_mint = mint_key;
  token_escrow = escrow_key;
  endpoint_program = key 10;
  bump = 255;
  tvl_ld = 5_000_000;
  admin = admin;
  default_fee_bps = 30;
  paused = false;
  pauser = some pauser;
  unpauser = some admin;
}

abbrev pub limiter : RateLimiter
limiter = record {
  capacity = 10_000_000;
  tokens = 1_000_000;
  refill_per_second = 10;
  last_refill_time = 990;
}

abbrev pub peer : PeerConfig
peer = record {
  peer_address = key 12;
  enforced_options = record { send = 3 ∷ []; send_and_call = 4 ∷ [] };
  outbound_rate_limiter = some limiter;
  inbound_rate_limiter = some limiter;
  fee_bps = none;
  bump = 254;
}

abbrev pub store_account : OftStore → Account OftStore
store_account s = record { key = store_key; value = s }

abbrev pub peer_account : Account PeerConfig
peer_account = record { key = peer_key; value = peer }

abbrev pub token_account : List ℕ → List ℕ → ℕ → TokenAccount
token_account address owner amount = record {
  key = address;
  mint = mint_key;
  owner = owner;
  token_program = token_program_key;
  amount = amount;
}

-- Alice has 2,000,000, and 10,000 in the escrow are fees.
abbrev pub balances : Balances
balances k =
    if bytes_eq k escrow_key then 5_010_000 else if bytes_eq k (key 7) then 2_000_000 else 0

abbrev pub world : State
world = record { balances = balances; supply = 100_000_000 }

abbrev pub escrow : TokenAccount
escrow = token_account escrow_key store_key 5_010_000

abbrev pub endpoint_accounts : List (List ℕ)
endpoint_accounts = key 10 ∷ store_key ∷ key 21 ∷ []

abbrev pub send_context : OftStore → SendContext
send_context s = record {
  signer = alice;
  peer = peer_account;
  oft_store = store_account s;
  token_source = token_account (key 7) alice 2_000_000;
  token_escrow = escrow;
  token_mint = mint;
  token_program = token_program_key;
  remaining_accounts = endpoint_accounts;
}

abbrev pub send_params : SendParams
send_params = record {
  dst_eid = 30_101;
  to = key 12;
  amount_ld = 1_000_000;
  min_amount_ld = 990_000;
  options = [];
  compose_msg = some (1 ∷ 2 ∷ []);
  native_fee = 7;
  lz_token_fee = 0;
}

abbrev pub receive_context : OftStore → LzReceiveContext
receive_context s = record {
  payer = key 15;
  peer = peer_account;
  oft_store = store_account s;
  token_escrow = escrow;
  to_address = bob;
  token_dest = token_account dest_key bob 0;
  token_mint = mint;
  mint_authority = none;
  token_program = token_program_key;
  remaining_accounts = endpoint_accounts;
}

-- 900 units of 1,000 for Bob, with a composed message.
abbrev pub receive_params : LzReceiveParams
receive_params = record {
  src_eid = 30_101;
  sender = key 12;
  nonce = 1;
  guid = key 20;
  message = MsgCodec.encode bob 900 alice (some (1 ∷ 2 ∷ []));
}

abbrev pub quote_context : OftStore → QuoteContext
quote_context s = record {
  oft_store = store_account s;
  peer = peer_account;
  token_mint = mint;
  remaining_accounts = endpoint_accounts;
}

abbrev pub quote_request : QuoteRequest
quote_request = record {
  dst_eid = 30_101;
  to = key 12;
  amount_ld = 1_000_000;
  min_amount_ld = 990_000;
  options = [];
  compose_msg = some (1 ∷ 2 ∷ []);
  pay_in_lz_token = false;
}

abbrev pub types_context : LzReceiveTypesContext
types_context = record { oft_store = store_account store; token_mint = mint }

abbrev pub withdraw_context : WithdrawFeeContext
withdraw_context = record {
  admin = admin;
  oft_store = store_account store;
  token_mint = mint;
  token_escrow = escrow;
  token_dest = token_account dest_key bob 0;
  token_program = token_program_key;
}

abbrev pub config_context : SetOftConfigContext
config_context = record {
  admin = admin;
  oft_store = store_account store;
  remaining_accounts = endpoint_accounts;
}

abbrev pub pause_context : SetPauseContext
pause_context = record { signer = pauser; oft_store = store_account store }

abbrev pub peer_context : SetPeerConfigContext
peer_context = record { admin = admin; peer = peer_account; oft_store = store_account store }
