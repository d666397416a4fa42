-- ===== src/Example/Transfers.antt =====
-- The transfers of send.rs, lz_receive.rs and withdraw_fee.rs on the accounts of the examples.
use cross_chain_contracts.Common.{ℕ, ◌≡◌, refl, bytes_eq, true, List, some}
use cross_chain_contracts.Errors.{ok}
use cross_chain_contracts.Words.{
  add_u64, sub_u64, rem_u64, div_u64, mul_u64, index, slice, slice_from, to_be_bytes, from_be_bytes,
  from_be_bytes_acc, to_u64_unwrap, saturating_add_u64, saturating_mul_u64, checked_sub,
  checked_mul, checked_add, checked_div,
}
use cross_chain_contracts.MsgCodec as MsgCodec
use cross_chain_contracts.State.RateLimiter.{RateLimiter, unix_time, refill, try_consume}
use cross_chain_contracts.State.OftStore.{OftStore, ld2sd, sd2ld, remove_dust}
use cross_chain_contracts.State.PeerConfig.{get_enforced_options, combine_options}
use cross_chain_contracts.Fees.{
  calculate_fee, get_post_fee_amount_ld, get_pre_fee_amount_ld, compute_fee_and_adjust_amount,
}
use cross_chain_contracts.Fees.PreFee.{ceil_div, inverted_fee, calculate_pre_fee_amount}
use cross_chain_contracts.Instructions.Accounts.{
  check_address, check_token, check_mint_program, check_seeds, check_store, check_peer,
}
use cross_chain_contracts.Instructions.Limits.{
  consume_from, refill_into, limit_outbound, limit_inbound,
}
use cross_chain_contracts.Instructions.Send as Send
use cross_chain_contracts.Instructions.Send.{Sent}
use cross_chain_contracts.Instructions.LzReceive as LzReceive
use cross_chain_contracts.Instructions.LzReceive.{Received, LzReceiveContext}
use cross_chain_contracts.Instructions.WithdrawFee as WithdrawFee
use cross_chain_contracts.Instructions.Quote as Quote
use cross_chain_contracts.Instructions.LzReceiveTypes as LzReceiveTypes
use cross_chain_contracts.Platform.Cpi.{LzAccount}
use cross_chain_contracts.Example.{
  State, host, clock, receipt, key, peer_key, escrow_key, dest_key, transfer, update,
}
use cross_chain_contracts.Example.Accounts.{
  store, peer, limiter, world, send_context, send_params, receive_context, receive_params,
  withdraw_context, types_context, quote_context, quote_request,
}

pub send_checked : Send.check_accounts host (send_context store) send_params ≡ ok tt
unfolding Send.check_accounts check_address check_token check_mint_program check_seeds check_store
    check_peer bytes_eq
send_checked = refl

-- The limiter at the time 1,000, with its tokens.
abbrev pub at_time : ℕ → RateLimiter
at_time tokens = record limiter { tokens = tokens; last_refill_time = 1_000 }

-- `send` of 1,000,000: the mint keeps 5,000, the OFT takes 2,000, and 993,000 are received.
abbrev pub sent : Sent host
sent = record {
  peer = record peer {
    outbound_rate_limiter = some (at_time 7_100);
    inbound_rate_limiter = some (at_time 1_993_100);
  };
  oft_store = record store { tvl_ld = 5_993_000 };
  world = record world {
    balances = update (update world.balances (key 7) 1_000_000) escrow_key 6_005_000;
  };
  msg_receipt = receipt;
  oft_receipt = record { amount_sent_ld = 1_000_000; amount_received_ld = 993_000 };
}

pub send_run : Send.send host clock (send_context store) send_params world ≡ ok sent
unfolding Send.send Send.check_accounts check_address check_token check_mint_program check_seeds
    check_store check_peer bytes_eq Send.apply compute_fee_and_adjust_amount calculate_fee
    get_post_fee_amount_ld get_pre_fee_amount_ld calculate_pre_fee_amount inverted_fee ceil_div
    remove_dust ld2sd sd2ld add_u64 sub_u64 rem_u64 div_u64 mul_u64 checked_sub checked_mul
    checked_add checked_div limit_outbound limit_inbound consume_from refill_into unix_time refill
    try_consume to_u64_unwrap saturating_add_u64 saturating_mul_u64 Send.take_tokens
    Send.transfer_to_escrow Send.burn_from_source transfer update Send.send_message combine_options
    get_enforced_options to_be_bytes from_be_bytes from_be_bytes_acc slice slice_from index
    MsgCodec.encode MsgCodec.send_to MsgCodec.amount_sd MsgCodec.compose_msg
send_run = refl

-- `lz_receive` of 900,000, of which the mint keeps 5,000.
abbrev pub received : Received host
received = record {
  peer = record peer {
    outbound_rate_limiter = some (at_time 1_900_100);
    inbound_rate_limiter = some (at_time 100_100);
  };
  oft_store = record store { tvl_ld = 4_100_000 };
  world = record world {
    balances = update (update world.balances escrow_key 4_110_000) dest_key 895_000;
  };
}

pub receive_checked :
    LzReceive.check_accounts host (receive_context store) receive_params world ≡ ok world
unfolding LzReceive.check_accounts LzReceive.check_associated_token check_address check_token
    check_mint_program check_seeds check_store check_peer bytes_eq to_be_bytes from_be_bytes
    from_be_bytes_acc slice slice_from index MsgCodec.encode MsgCodec.send_to MsgCodec.amount_sd
    MsgCodec.compose_msg
receive_checked = refl

-- The same accounts with a peer whose bump is the one that is found.
abbrev pub found_context : LzReceiveContext
found_context = record (receive_context store) {
  peer = record { key = peer_key; value = record peer { bump = 255 } };
}

pub found_checked : LzReceive.check_accounts host found_context receive_params world ≡ ok world
unfolding LzReceive.check_accounts LzReceive.check_associated_token check_address check_token
    check_mint_program check_seeds check_store check_peer bytes_eq to_be_bytes slice MsgCodec.encode
    MsgCodec.send_to
found_checked = refl

pub receive_run :
    LzReceive.lz_receive host clock (receive_context store) receive_params world ≡ ok received
unfolding LzReceive.lz_receive LzReceive.check_accounts LzReceive.check_associated_token
    check_address check_token check_mint_program check_seeds check_store check_peer bytes_eq
    LzReceive.apply LzReceive.clear_payload LzReceive.give_tokens LzReceive.transfer_from_escrow
    LzReceive.mint_to_dest LzReceive.compose get_post_fee_amount_ld remove_dust ld2sd sd2ld add_u64
    sub_u64 rem_u64 div_u64 mul_u64 checked_sub checked_mul checked_add checked_div limit_outbound
    limit_inbound consume_from refill_into unix_time refill try_consume to_u64_unwrap
    saturating_add_u64 saturating_mul_u64 transfer update to_be_bytes from_be_bytes
    from_be_bytes_acc slice slice_from index MsgCodec.encode MsgCodec.send_to MsgCodec.amount_sd
    MsgCodec.compose_msg
receive_run = refl

-- `withdraw_fee` of the 10,000 that the escrow holds above the locked value.
abbrev pub withdrawn : State
withdrawn = record world {
  balances = update (update world.balances escrow_key 5_000_000) dest_key 9_900;
}

pub withdraw_run :
    WithdrawFee.withdraw_fee host withdraw_context (record { fee_ld = 10_000 }) world ≡ ok withdrawn
unfolding WithdrawFee.withdraw_fee WithdrawFee.check_accounts WithdrawFee.apply check_address
    check_token check_mint_program check_seeds check_store check_peer bytes_eq sub_u64 transfer
    update
withdraw_run = refl

-- The same accounts with a paused store.
abbrev pub paused_store : OftStore
paused_store = record store { paused = true }

pub paused_send_checked : Send.check_accounts host (send_context paused_store) send_params ≡ ok tt
unfolding Send.check_accounts check_address check_token check_mint_program check_seeds check_store
    check_peer bytes_eq
paused_send_checked = refl

pub paused_receive_checked :
    LzReceive.check_accounts host (receive_context paused_store) receive_params world ≡ ok world
unfolding LzReceive.check_accounts LzReceive.check_associated_token check_address check_token
    check_mint_program check_seeds check_store check_peer bytes_eq to_be_bytes slice MsgCodec.encode
    MsgCodec.send_to
paused_receive_checked = refl

pub quote_checked : Quote.check_accounts host (quote_context store) quote_request ≡ ok tt
unfolding Quote.check_accounts check_address check_token check_mint_program check_seeds check_store
    check_peer bytes_eq
quote_checked = refl

pub paused_quote_checked :
    Quote.check_accounts host (quote_context paused_store) quote_request ≡ ok tt
unfolding Quote.check_accounts check_address check_token check_mint_program check_seeds check_store
    check_peer bytes_eq
paused_quote_checked = refl

-- `lz_receive_types` for the message that `lz_receive` accepts.
pub types_run :
    (accounts : List LzAccount) × (LzReceiveTypes.lz_receive_types host clock types_context
        receive_params
      ≡ ok accounts)
unfolding LzReceiveTypes.lz_receive_types LzReceiveTypes.fixed_accounts
    LzReceiveTypes.compose_accounts LzReceiveTypes.received_ld get_post_fee_amount_ld check_address
    check_token check_mint_program check_seeds check_store check_peer bytes_eq sd2ld mul_u64
    to_be_bytes slice MsgCodec.encode MsgCodec.send_to from_be_bytes from_be_bytes_acc
    MsgCodec.amount_sd MsgCodec.compose_msg
types_run = (_, refl)
