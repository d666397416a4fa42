-- ===== src/Example/Amounts.antt =====
-- The amounts of quote_send.rs on the accounts of the examples.
use cross_chain_contracts.Common.{ℕ, ◌-◌, ◌≤◌, ◌≡◌, refl, arith, none}
use cross_chain_contracts.Errors.{ok, ◌>>=◌}
use cross_chain_contracts.State.OftStore.{OftStore, OftType, ld2sd, sd2ld}
use cross_chain_contracts.State.OftStore.Conversion.{cleaned, sd2ld-ld2sd}
use cross_chain_contracts.Fees.{get_post_fee_amount_ld, compute_fee_and_adjust_amount}
use cross_chain_contracts.Fees.Adjust.{oft_fee, native_amounts, adapter_amounts}
use cross_chain_contracts.Example.{host, clock, mint}
use cross_chain_contracts.Example.Keeps.{fee_laws}
use cross_chain_contracts.Example.Accounts.{store}

post_run : get_post_fee_amount_ld host clock mint 1_000_500 ≡ ok 995_500
unfolding get_post_fee_amount_ld
post_run = refl

adapter_amounts_example :
    (sent : ℕ) × (arrived : ℕ) × (compute_fee_and_adjust_amount host clock 1_000_500 store mint none
      ≡ ok (
        sent,
        cleaned 1_000 995_500 - oft_fee 1_000 30 (cleaned 1_000 995_500),
        oft_fee 1_000 30 (cleaned 1_000 995_500),
      ))
    × (get_post_fee_amount_ld host clock mint sent ≡ ok arrived)
    × (sent ≤ 1_000_500)
    × (cleaned 1_000 995_500 ≤ arrived)
adapter_amounts_example =
    adapter_amounts host clock store mint 1_000_500 none (omega arith) (omega arith) (omega arith)
      fee_laws refl post_run

abbrev native_store : OftStore
native_store = record store { oft_type = OftType.native; tvl_ld = 0 }

native_amounts_example :
    compute_fee_and_adjust_amount host clock 1_000_500 native_store mint none
    ≡ ok (1_000_000, 997_000, 3_000)
native_amounts_example =
    native_amounts host clock native_store mint 1_000_500 none (omega arith) (omega arith)
      (omega arith) refl

sd2ld-ld2sd_example : (ld2sd store 993_000 >>= sd2ld store) ≡ ok 993_000
sd2ld-ld2sd_example =
    sd2ld-ld2sd store (omega arith) (omega arith) (record { units = 993; whole = refl })
