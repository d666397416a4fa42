-- ===== src/State/OftStore.antt =====
-- state/oft.rs: `OFTStore` and its conversions between local and shared decimals.
pub mod Conversion
pub mod Identity
use cross_chain_contracts.Common.{ℕ, Bool, true, false, Option, List}
use cross_chain_contracts.Errors.{Result, ok, ◌>>=◌}
use cross_chain_contracts.Words.{div_u64, rem_u64, mul_u64, sub_u64}

pub data OftType : Type 0 where
  native adapter : OftType

-- `OFTType::Adapter == t`
abbrev pub is_adapter : OftType → Bool
is_adapter OftType.adapter = true
is_adapter OftType.native = false

-- A public key is its 32 bytes.
pub record OftStore : Type 0 where
  pub oft_type : OftType
  pub ld2sd_rate : ℕ
  pub token_mint : List ℕ
  pub token_escrow : List ℕ
  pub endpoint_program : List ℕ
  pub bump : ℕ
  pub tvl_ld : ℕ
  pub admin : List ℕ
  pub default_fee_bps : ℕ
  pub paused : Bool
  pub pauser : Option (List ℕ)
  pub unpauser : Option (List ℕ)

unfoldable pub ld2sd : OftStore → ℕ → Result ℕ
ld2sd s amount_ld = div_u64 amount_ld s.ld2sd_rate

unfoldable pub sd2ld : OftStore → ℕ → Result ℕ
sd2ld s amount_sd = mul_u64 amount_sd s.ld2sd_rate

unfoldable pub remove_dust : OftStore → ℕ → Result ℕ
remove_dust s amount_ld = do dust ← rem_u64 amount_ld s.ld2sd_rate; sub_u64 amount_ld dust

-- `LzReceiveTypesAccounts`
pub record LzReceiveTypesAccounts : Type 0 where
  pub oft_store : List ℕ
  pub token_mint : List ℕ
