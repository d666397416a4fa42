-- ===== src/Platform/Cpi.antt =====
-- The accounts that Anchor loads, and the data that the program passes to other programs. A public
-- key is its 32 bytes.
use cross_chain_contracts.Common.{ℕ, Option, List, Bool}
use cross_chain_contracts.Errors.{Result}

-- `Account<'info, T>` of a type of this program: loading has checked its owner and discriminator.
pub record Account (A : Type 0) : Type 0 where
  pub key : List ℕ
  pub value : A

-- `InterfaceAccount<'info, TokenAccount>`; `token_program` is the program that owns the account.
pub record TokenAccount : Type 0 where
  pub key : List ℕ
  pub mint : List ℕ
  pub owner : List ℕ
  pub token_program : List ℕ
  pub amount : ℕ

-- `InterfaceAccount<'info, Mint>`; `bytes` is what `try_borrow_data` answers.
pub record Mint : Type 0 where
  pub key : List ℕ
  pub token_program : List ℕ
  pub mint_authority : Option (List ℕ)
  pub decimals : ℕ
  pub bytes : Result (List ℕ)

-- The two fields of spl-token-2022's `TransferFee` that the program reads.
pub record TransferFee : Type 0 where
  pub maximum_fee : ℕ
  pub transfer_fee_basis_points : ℕ

-- The accounts of `token_interface::transfer_checked`, `burn` and of the `mint_to` instruction.
pub record TransferChecked : Type 0 where
  pub from : List ℕ
  pub mint : List ℕ
  pub to : List ℕ
  pub authority : List ℕ

pub record Burn : Type 0 where
  pub mint : List ℕ
  pub from : List ℕ
  pub authority : List ℕ

pub record MintTo : Type 0 where
  pub token_program : List ℕ
  pub mint : List ℕ
  pub account : List ℕ
  pub owner : List ℕ
  pub signers : List (List ℕ)

-- The parameters of the endpoint's instructions, and their answers.
pub record RegisterOappParams : Type 0 where
  pub delegate : List ℕ

pub record SetDelegateParams : Type 0 where
  pub delegate : List ℕ

pub record QuoteParams : Type 0 where
  pub sender : List ℕ
  pub dst_eid : ℕ
  pub receiver : List ℕ
  pub message : List ℕ
  pub pay_in_lz_token : Bool
  pub options : List ℕ

pub record MessagingFee : Type 0 where
  pub native_fee : ℕ
  pub lz_token_fee : ℕ

pub record EndpointSendParams : Type 0 where
  pub dst_eid : ℕ
  pub receiver : List ℕ
  pub message : List ℕ
  pub options : List ℕ
  pub native_fee : ℕ
  pub lz_token_fee : ℕ

pub record MessagingReceipt : Type 0 where
  pub guid : List ℕ
  pub nonce : ℕ
  pub fee : MessagingFee

pub record ClearParams : Type 0 where
  pub receiver : List ℕ
  pub src_eid : ℕ
  pub sender : List ℕ
  pub nonce : ℕ
  pub guid : List ℕ
  pub message : List ℕ

pub record SendComposeParams : Type 0 where
  pub to : List ℕ
  pub guid : List ℕ
  pub index : ℕ
  pub message : List ℕ

-- `oapp::LzReceiveParams`
pub record LzReceiveParams : Type 0 where
  pub src_eid : ℕ
  pub sender : List ℕ
  pub nonce : ℕ
  pub guid : List ℕ
  pub message : List ℕ

pub record LzAccount : Type 0 where
  pub pubkey : List ℕ
  pub is_signer : Bool
  pub is_writable : Bool

-- events.rs: `OFTSent` and `OFTReceived`
pub record OftSent : Type 0 where
  pub guid : List ℕ
  pub dst_eid : ℕ
  pub from : List ℕ
  pub amount_sent_ld : ℕ
  pub amount_received_ld : ℕ

pub record OftReceived : Type 0 where
  pub guid : List ℕ
  pub src_eid : ℕ
  pub to : List ℕ
  pub amount_received_ld : ℕ

pub data Event : Type 0 where
  oft_sent : OftSent → Event
  oft_received : OftReceived → Event
