-- ===== src/Instructions/Quote.antt =====
-- instructions/quote_oft.rs and the handler of instructions/quote_send.rs: what `send` would do.
pub mod Agreement
pub mod Price
use cross_chain_contracts.Common.{
  ℕ, ◌+◌, ◌-◌, Bool, true, false, not, Option, none, some, List, [], ◌∷◌, ◌++◌, ltb, leb,
  if◌then◌else◌, replicate,
}
use cross_chain_contracts.Errors.{Result, ok, oft, paused, slippage_exceeded, require, ◌>>◌, ◌>>=◌}
use cross_chain_contracts.Words.{add_u64, sub_u64}
use cross_chain_contracts.MsgCodec as MsgCodec
use cross_chain_contracts.State.RateLimiter.{Clock}
use cross_chain_contracts.State.OftStore.{OftStore}
use cross_chain_contracts.State.PeerConfig.{PeerConfig, combine_options}
use cross_chain_contracts.Platform.{Host}
use cross_chain_contracts.Platform.Cpi.{Account, Mint, QuoteParams, MessagingFee}
use cross_chain_contracts.Fees.{compute_fee_and_adjust_amount}
use cross_chain_contracts.Instructions.Accounts.{check_store, check_peer, check_address}
use cross_chain_contracts.Instructions.Send.{OftReceipt}
use Prim.Native.String.{String}

-- `QuoteOFTParams` and `QuoteSendParams`, which have the same fields.
pub record QuoteRequest : Type 0 where
  pub dst_eid : ℕ
  pub to : List ℕ
  pub amount_ld : ℕ
  pub min_amount_ld : ℕ
  pub options : List ℕ
  pub compose_msg : Option (List ℕ)
  pub pay_in_lz_token : Bool

-- `Context<QuoteOFT>` and `Context<QuoteSend>`, which have the same accounts and attributes.
pub record QuoteContext : Type 0 where
  pub oft_store : Account OftStore
  pub peer : Account PeerConfig
  pub token_mint : Mint
  pub remaining_accounts : List (List ℕ)

pub record OftFeeDetail : Type 0 where
  pub fee_amount_ld : ℕ
  pub description : String

pub record OftLimits : Type 0 where
  pub min_amount_ld : ℕ
  pub max_amount_ld : ℕ

pub record QuoteOftResult : Type 0 where
  pub oft_limits : OftLimits
  pub oft_fee_details : List OftFeeDetail
  pub oft_receipt : OftReceipt

-- `Pubkey::default()`
abbrev pub default_key : List ℕ
default_key = replicate 32 0

-- The first detail, where the token's own fee shows in the amounts.
unfoldable pub transfer_fee_details : ℕ → ℕ → ℕ → Result (List OftFeeDetail)
transfer_fee_details amount_sent_ld amount_received_ld oft_fee_ld = do
  total ← add_u64 amount_received_ld oft_fee_ld
  (if ltb total amount_sent_ld
      then (do
        after_fee ← sub_u64 amount_sent_ld oft_fee_ld
        fee_amount_ld ← sub_u64 after_fee amount_received_ld
        ok (record { fee_amount_ld = fee_amount_ld; description = "Token2022 Transfer Fee" } ∷ []))
      else ok [])

-- The message that `QuoteSend::apply` hands to the endpoint: it holds the amount in local
-- decimals and no sender.
unfoldable pub quoted_message : QuoteRequest → ℕ → List ℕ
quoted_message params amount_received_ld =
    MsgCodec.encode params.to amount_received_ld default_key params.compose_msg

module _ (h : Host) where
  unfoldable pub check_accounts : QuoteContext → QuoteRequest → Result (Unit {0})
  check_accounts c params = do
    check_store h c.oft_store
    check_peer h c.peer c.oft_store params.dst_eid
    check_address c.token_mint.key c.oft_store.value.token_mint

  -- `QuoteOFT::apply`
  unfoldable pub quote_oft : Result Clock → QuoteContext → QuoteRequest → Result QuoteOftResult
  quote_oft clock c params = do
    check_accounts c params
    require (not c.oft_store.value.paused) (oft paused)
    (amount_sent_ld, amount_received_ld, oft_fee_ld) ←
        compute_fee_and_adjust_amount h clock params.amount_ld c.oft_store.value c.token_mint
          c.peer.value.fee_bps
    require (leb params.min_amount_ld amount_received_ld) (oft slippage_exceeded)
    transfer_fee ← transfer_fee_details amount_sent_ld amount_received_ld oft_fee_ld
    let cross_chain_fee =
        if ltb 0 oft_fee_ld
        then record { fee_amount_ld = oft_fee_ld; description = "Cross Chain Fee" } ∷ []
        else []
    ok (record {
      oft_limits = record { min_amount_ld = 0; max_amount_ld = 0xffffffffffffffff };
      oft_fee_details = transfer_fee ++ cross_chain_fee;
      oft_receipt = record {
        amount_sent_ld = amount_sent_ld;
        amount_received_ld = amount_received_ld;
      };
    })

  -- `QuoteSend::apply`
  unfoldable pub quote_send :
      Result Clock → QuoteContext → QuoteRequest → h.World → Result MessagingFee
  quote_send clock c params w = do
    check_accounts c params
    require (not c.oft_store.value.paused) (oft paused)
    (amount_sent_ld, amount_received_ld, oft_fee_ld) ←
        compute_fee_and_adjust_amount h clock params.amount_ld c.oft_store.value c.token_mint
          c.peer.value.fee_bps
    require (leb params.min_amount_ld amount_received_ld) (oft slippage_exceeded)
    options ←
        combine_options h.combine_options c.peer.value.enforced_options params.compose_msg
          params.options
    h.quote c.oft_store.value.endpoint_program c.remaining_accounts
        (record {
          sender = c.oft_store.key;
          dst_eid = params.dst_eid;
          receiver = c.peer.value.peer_address;
          message = quoted_message params amount_received_ld;
          pay_in_lz_token = params.pay_in_lz_token;
          options = options;
        })
        w
