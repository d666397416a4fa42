-- ===== src/Fees.antt =====
-- The amounts of instructions/quote_send.rs: the OFT fee, the token's transfer fee, dust.
pub mod PreFee
pub mod Withheld
pub mod OftFee
pub mod Adjust
mod Tests
use cross_chain_contracts.Common.{
  ℕ, ◌-◌, ◌*◌, ◌/◌, ◌%◌, ◌^◌, Bool, true, false, Option, none, some, ◌||◌, ltb, ◌==◌, if◌then◌else◌,
}
use cross_chain_contracts.Errors.{Result, ok, panic, invalid_argument, ok_or, ◌>>=◌}
use cross_chain_contracts.Words.{sub_u64}
use cross_chain_contracts.State.RateLimiter.{Clock}
use cross_chain_contracts.State.OftStore.{OftStore, remove_dust, is_adapter}
use cross_chain_contracts.Platform.{Host}
use cross_chain_contracts.Platform.Cpi.{Mint}
use cross_chain_contracts.Fees.PreFee.{calculate_pre_fee_amount, one_in_basis_points}

-- `if let Some(bps) = fee_bps { bps } else { default_fee_bps }`
abbrev pub final_fee_bps : ℕ → Option ℕ → ℕ
final_fee_bps default_fee_bps (some bps) = bps
final_fee_bps default_fee_bps none = default_fee_bps

-- The product is a u128 with an overflow check, and the quotient is cut to a u64.
unfoldable pub calculate_fee : ℕ → ℕ → Option ℕ → Result ℕ
calculate_fee pre_fee_amount default_fee_bps fee_bps =
    let bps = final_fee_bps default_fee_bps fee_bps in
    if bps == 0 || pre_fee_amount == 0
    then ok 0
    else if ltb (pre_fee_amount * bps) (2 ^ 128)
    then ok (pre_fee_amount * bps / one_in_basis_points % 2 ^ 64)
    else panic

module _ (h : Host) where
  unfoldable pub get_post_fee_amount_ld : Result Clock → Mint → ℕ → Result ℕ
  get_post_fee_amount_ld clock token_mint amount_ld = do
    token_mint_data ← token_mint.bytes
    token_mint_ext ← h.unpack token_mint_data
    elim (h.get_extension token_mint_ext) [
      | some transfer_fee_config ↦ do
        c ← clock
        ok_or (h.calculate_post_fee_amount (h.get_epoch_fee transfer_fee_config c.epoch) amount_ld)
            invalid_argument
      | none ↦ ok amount_ld
    ]

  unfoldable pub get_pre_fee_amount_ld : Result Clock → Mint → ℕ → Result ℕ
  get_pre_fee_amount_ld clock token_mint amount_ld = do
    token_mint_data ← token_mint.bytes
    token_mint_ext ← h.unpack token_mint_data
    elim (h.get_extension token_mint_ext) [
      | some transfer_fee_config ↦ do
        c ← clock
        ok_or (calculate_pre_fee_amount (h.get_epoch_fee transfer_fee_config c.epoch) amount_ld)
            invalid_argument
      | none ↦ ok amount_ld
    ]

  -- (amount_sent_ld, amount_received_ld, oft_fee_ld)
  unfoldable pub compute_fee_and_adjust_amount :
      Result Clock → ℕ → OftStore → Mint → Option ℕ → Result (ℕ × ℕ × ℕ)
  compute_fee_and_adjust_amount clock amount_ld oft_store token_mint fee_bps =
      if is_adapter oft_store.oft_type
      then (do
        amount_received_ld ←
            remove_dust oft_store (← get_post_fee_amount_ld clock token_mint amount_ld)
        amount_sent_ld ← get_pre_fee_amount_ld clock token_mint amount_received_ld
        fee ← calculate_fee amount_received_ld oft_store.default_fee_bps fee_bps
        oft_fee_ld ← remove_dust oft_store fee
        amount_after_fee_ld ← sub_u64 amount_received_ld oft_fee_ld
        ok (amount_sent_ld, amount_after_fee_ld, oft_fee_ld))
      else (do
        amount_sent_ld ← remove_dust oft_store amount_ld
        fee ← calculate_fee amount_sent_ld oft_store.default_fee_bps fee_bps
        oft_fee_ld ← remove_dust oft_store fee
        amount_received_ld ← sub_u64 amount_sent_ld oft_fee_ld
        ok (amount_sent_ld, amount_received_ld, oft_fee_ld))
