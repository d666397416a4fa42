-- ===== src/Platform.antt =====
-- What the program uses and does not implement: Anchor's accounts, the token programs, the
-- associated token program, the LayerZero endpoint and `oapp`, and the runtime. Each is a field
-- of `Host`, which the instructions take as a parameter.
pub mod Cpi
pub mod Laws
use cross_chain_contracts.Common.{ℕ, Option, List, Bool}
use cross_chain_contracts.Errors.{Result}
use cross_chain_contracts.Platform.Cpi.{
  TransferChecked, Burn, MintTo, TransferFee, RegisterOappParams, SetDelegateParams, QuoteParams,
  EndpointSendParams, ClearParams, SendComposeParams, MessagingFee, MessagingReceipt, LzAccount,
  Event,
}

-- `World` is the state that the other programs keep. An endpoint call takes the endpoint's program
-- id, the OApp's key, the accounts and the signer's seeds.
pub record Host : Type 1 where
  pub World : Type 0
  -- constants
  pub program_id : List ℕ
  pub endpoint_id : List ℕ
  pub system_program_id : List ℕ
  pub associated_token_id : List ℕ
  pub lz_receive_types_seed : List ℕ
  pub event_seed : List ℕ
  pub clear_min_accounts_len : ℕ
  -- the runtime
  pub create_program_address : List (List ℕ) → List ℕ → Option (List ℕ)
  pub find_program_address : List (List ℕ) → List ℕ → List ℕ × ℕ
  pub emit_cpi : Event → World → Result World
  -- spl-token-2022: a mint's data, and the transfer fee of an epoch
  pub MintState : Type 0
  pub TransferFeeConfig : Type 0
  pub unpack : List ℕ → Result MintState
  pub get_extension : MintState → Option TransferFeeConfig
  pub get_epoch_fee : TransferFeeConfig → ℕ → TransferFee
  pub calculate_post_fee_amount : TransferFee → ℕ → Option ℕ
  -- token instructions: accounts, signer seeds, amount, decimals
  pub transfer_checked : TransferChecked → List (List ℕ) → ℕ → ℕ → World → Result World
  pub burn : Burn → ℕ → World → Result World
  pub mint_to : MintTo → List (List ℕ) → ℕ → World → Result World
  -- the associated token account of a wallet for a mint under a token program, and its creation
  -- where it is missing, with the payer first
  pub get_associated_token_address_with_program_id : List ℕ → List ℕ → List ℕ → List ℕ
  pub init_associated_token_if_needed : List ℕ → List ℕ → List ℕ → List ℕ → World → Result World
  -- `oapp::options` and `oapp::endpoint_cpi`
  pub combine_options : List ℕ → List ℕ → Result (List ℕ)
  pub assert_type_3 : List ℕ → Result (Unit {0})
  pub register_oapp :
      List ℕ → List ℕ → List (List ℕ) → List (List ℕ) → RegisterOappParams → World → Result World
  pub set_delegate :
      List ℕ → List ℕ → List (List ℕ) → List (List ℕ) → SetDelegateParams → World → Result World
  pub quote : List ℕ → List (List ℕ) → QuoteParams → World → Result MessagingFee
  pub send :
      List ℕ
      → List ℕ
      → List (List ℕ)
      → List (List ℕ)
      → EndpointSendParams
      → World
      → Result (MessagingReceipt × World)
  pub clear : List ℕ → List ℕ → List (List ℕ) → List (List ℕ) → ClearParams → World → Result World
  pub send_compose :
      List ℕ → List ℕ → List (List ℕ) → List (List ℕ) → SendComposeParams → World → Result World
  pub get_accounts_for_clear : List ℕ → List ℕ → ℕ → List ℕ → ℕ → List LzAccount
  pub get_accounts_for_send_compose :
      List ℕ → List ℕ → List ℕ → List ℕ → ℕ → List ℕ → List LzAccount
