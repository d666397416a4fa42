-- ===== src/Example/Branches.antt =====
-- The theorems on the branches of send.rs, lz_receive.rs and withdraw_fee.rs, at the accounts of
-- the examples.
use cross_chain_contracts.MsgCodec as MsgCodec
use cross_chain_contracts.Instructions.LzReceive as LzReceive
use cross_chain_contracts.Instructions.LzReceive.Guards.{finish, received_limits, lz_receive_guards}
use cross_chain_contracts.Common.{
  ℕ, true, false, some, List, ◌+◌, ◌≡◌, ◌≤◌, ◌<◌, ◌⊎◌, refl, arith, none, bytes_eq,
}
use cross_chain_contracts.Errors.{
  ok, err, panic, oft, invalid_fee, invalid_mint_authority, slippage_exceeded, rate_limit_exceeded,
  ◌>>=◌,
}
use cross_chain_contracts.Words.{
  mul_u64, slice, to_be_bytes, from_be_bytes, from_be_bytes_acc, add_u64, sub_u64, rem_u64,
  to_u64_unwrap, checked_add, checked_sub, checked_mul, checked_div,
}
use cross_chain_contracts.State.RateLimiter.{unix_time}
use cross_chain_contracts.State.RateLimiter.Bounds.{IsValid, level}
use cross_chain_contracts.State.OftStore.{is_adapter, sd2ld, remove_dust}
use cross_chain_contracts.Fees.{
  calculate_fee, get_post_fee_amount_ld, get_pre_fee_amount_ld, compute_fee_and_adjust_amount,
}
use cross_chain_contracts.Fees.PreFee.{ceil_div, inverted_fee, calculate_pre_fee_amount}
use cross_chain_contracts.Instructions.Accounts.{
  check_address, check_token, check_mint_program, check_seeds, check_store, signer_seeds,
}
use cross_chain_contracts.Platform.Cpi.{oft_sent}
use cross_chain_contracts.Instructions.Send.{take_tokens, send_message, send}
use cross_chain_contracts.Instructions.Send.Guards.{moved_limits, send_guards}
use cross_chain_contracts.Instructions.WithdrawFee as WithdrawFee
use cross_chain_contracts.Instructions.WithdrawFee.Branches.{withdraw_fee_lem}
use cross_chain_contracts.Example.{
  host, clock, mint, mint_key, escrow_key, dest_key, store_key, transfer,
}
use cross_chain_contracts.Example.Accounts.{
  store, peer, limiter, world, send_context, send_params, receive_context, receive_params,
  withdraw_context,
}
use cross_chain_contracts.Example.Transfers.{receive_checked, send_checked}

withdraw_checked : WithdrawFee.check_accounts host withdraw_context ≡ ok tt
unfolding WithdrawFee.check_accounts check_address check_token check_mint_program check_seeds
    check_store bytes_eq
withdraw_checked = refl

-- 10,001 is one more than there is.
withdraw_fee_lem_example :
    ((5_010_000 < 5_000_000)
      × (WithdrawFee.withdraw_fee host withdraw_context (record { fee_ld = 10_001 }) world ≡ panic))
    ⊎ ((5_000_000 ≤ 5_010_000)
        × (5_010_000 < 5_000_000 + 10_001)
        × (WithdrawFee.withdraw_fee host withdraw_context (record { fee_ld = 10_001 }) world
            ≡ err (oft invalid_fee)))
    ⊎ ((5_000_000 + 10_001 ≤ 5_010_000)
        × (WithdrawFee.withdraw_fee host withdraw_context (record { fee_ld = 10_001 }) world
            ≡ transfer
                (record {
                  from = escrow_key;
                  mint = mint_key;
                  to = dest_key;
                  authority = store_key;
                })
                (signer_seeds escrow_key 255)
                10_001
                9
                world))
withdraw_fee_lem_example =
    withdraw_fee_lem host withdraw_context (record { fee_ld = 10_001 }) world withdraw_checked

split_run :
    compute_fee_and_adjust_amount host clock 1_000_000 store mint none
    ≡ ok (1_000_000, 993_000, 2_000)
unfolding compute_fee_and_adjust_amount calculate_fee get_post_fee_amount_ld get_pre_fee_amount_ld
    calculate_pre_fee_amount inverted_fee ceil_div remove_dust add_u64 sub_u64 rem_u64 checked_add
    checked_sub checked_mul checked_div
split_run = refl

time_run : unix_time clock ≡ ok 1_000
unfolding unix_time to_u64_unwrap
time_run = refl

limiter-IsValid : IsValid limiter
limiter-IsValid = omega arith

send_guards_example :
    ((993_000 < 990_000)
      × (send host clock (send_context store) send_params world ≡ err (oft slippage_exceeded)))
    ⊎ ((990_000 ≤ 993_000)
        × (level limiter 1_000 0 < 993_000)
        × (send host clock (send_context store) send_params world ≡ err (oft rate_limit_exceeded)))
    ⊎ ((990_000 ≤ 993_000)
        × (993_000 ≤ level limiter 1_000 0)
        × (send host clock (send_context store) send_params world ≡ (do
          (oft_store, w1) ← take_tokens host (send_context store) 1_000_000 993_000 2_000 world
          (msg_receipt, w2) ←
              send_message host (send_context store) send_params oft_store 993_000 w1
          w3 ←
              host.emit_cpi
                (oft_sent (record {
                  guid = msg_receipt.guid;
                  dst_eid = 30_101;
                  from = (send_context store).token_source.key;
                  amount_sent_ld = 1_000_000;
                  amount_received_ld = 993_000;
                }))
                w2
          ok (record {
            peer = moved_limits peer limiter limiter 1_000 993_000;
            oft_store = oft_store;
            world = w3;
            msg_receipt = msg_receipt;
            oft_receipt = record { amount_sent_ld = 1_000_000; amount_received_ld = 993_000 };
          }))))
send_guards_example =
    send_guards host clock (send_context store) send_params world limiter limiter 1_000 send_checked
      refl refl refl limiter-IsValid limiter-IsValid time_run split_run

-- 900 units arrive.
clear_run : LzReceive.clear_payload host (receive_context store) receive_params world ≡ ok world
unfolding LzReceive.clear_payload slice
clear_run = refl

amount_sd_run : MsgCodec.amount_sd receive_params.message ≡ ok 900
unfolding MsgCodec.encode MsgCodec.amount_sd to_be_bytes from_be_bytes from_be_bytes_acc slice
amount_sd_run = refl

sd2ld_run : sd2ld store 900 ≡ ok 900_000
unfolding sd2ld mul_u64
sd2ld_run = refl

lz_receive_guards_example :
    let c = receive_context store in
    let peer' = received_limits peer limiter limiter 1_000 900_000 in
    ((level limiter 1_000 0 < 900_000)
      × (LzReceive.lz_receive host clock c receive_params world ≡ err (oft rate_limit_exceeded)))
    ⊎ ((900_000 ≤ level limiter 1_000 0)
        × (((is_adapter store.oft_type ≡ true)
              × (5_000_000 < 900_000)
              × (LzReceive.lz_receive host clock c receive_params world ≡ panic))
            ⊎ ((is_adapter store.oft_type ≡ false)
                × (c.mint_authority ≡ none)
                × (LzReceive.lz_receive host clock c receive_params world
                    ≡ err (oft invalid_mint_authority)))
            ⊎ ((is_adapter store.oft_type ≡ true)
                × (900_000 ≤ 5_000_000)
                × (LzReceive.lz_receive host clock c receive_params world ≡ (do
                  w1 ← LzReceive.transfer_from_escrow host c 900_000 world
                  received ← get_post_fee_amount_ld host clock mint 900_000
                  finish host c receive_params peer'
                      (record store { tvl_ld = 4_100_000 })
                      received
                      w1)))
            ⊎ ((authority : List ℕ) × (is_adapter store.oft_type ≡ false)
                × (c.mint_authority ≡ some authority)
                × (LzReceive.lz_receive host clock c receive_params world ≡ (do
                  w1 ← LzReceive.mint_to_dest host c authority 900_000 world
                  finish host c receive_params peer' store 900_000 w1)))))
lz_receive_guards_example =
    lz_receive_guards host clock (receive_context store) receive_params world limiter limiter 1_000
      receive_checked refl clear_run amount_sd_run sd2ld_run refl refl limiter-IsValid
      limiter-IsValid time_run
