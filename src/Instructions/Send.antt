-- ===== src/Instructions/Send.antt =====
-- instructions/send.rs: tokens leave this chain. They are locked in the escrow (adapter) or burnt
-- (native), and a message goes to the peer.
pub mod Run
pub mod Checked
pub mod Message
pub mod Guards
use cross_chain_contracts.Common.{
  ℕ, ◌-◌, Bool, true, false, not, Option, none, some, List, [], ltb, leb, if◌then◌else◌, bytes_eq,
}
use cross_chain_contracts.Errors.{
  Result, ok, oft, paused, slippage_exceeded, invalid_sender, require, ◌>>◌, ◌>>=◌,
}
use cross_chain_contracts.Words.{add_u64, sub_u64, index}
use cross_chain_contracts.MsgCodec as MsgCodec
use cross_chain_contracts.State.RateLimiter.{Clock}
use cross_chain_contracts.State.OftStore.{OftStore, is_adapter, ld2sd}
use cross_chain_contracts.State.PeerConfig.{PeerConfig, combine_options}
use cross_chain_contracts.Platform.{Host}
use cross_chain_contracts.Platform.Cpi.{
  Account, TokenAccount, Mint, TransferChecked, Burn, EndpointSendParams, MessagingReceipt, OftSent,
  oft_sent,
}
use cross_chain_contracts.Fees.{compute_fee_and_adjust_amount}
use cross_chain_contracts.Instructions.Accounts.{
  check_store, check_peer, check_token, check_address, check_mint_program, signer_seeds,
}
use cross_chain_contracts.Instructions.Limits.{limit_outbound}

pub record SendParams : Type 0 where
  pub dst_eid : ℕ
  pub to : List ℕ
  pub amount_ld : ℕ
  pub min_amount_ld : ℕ
  pub options : List ℕ
  pub compose_msg : Option (List ℕ)
  pub native_fee : ℕ
  pub lz_token_fee : ℕ

-- `Context<Send>`
pub record SendContext : Type 0 where
  pub signer : List ℕ
  pub peer : Account PeerConfig
  pub oft_store : Account OftStore
  pub token_source : TokenAccount
  pub token_escrow : TokenAccount
  pub token_mint : Mint
  pub token_program : List ℕ
  pub remaining_accounts : List (List ℕ)

-- `OFTReceipt` of instructions/quote_oft.rs
pub record OftReceipt : Type 0 where
  pub amount_sent_ld : ℕ
  pub amount_received_ld : ℕ

module _ (h : Host) where
  -- The accounts that `send` writes, and what it returns.
  pub record Sent : Type 0 where
    pub peer : PeerConfig
    pub oft_store : OftStore
    pub world : h.World
    pub msg_receipt : MessagingReceipt
    pub oft_receipt : OftReceipt

  unfoldable pub check_accounts : SendContext → SendParams → Result (Unit {0})
  check_accounts c params = do
    check_peer h c.peer c.oft_store params.dst_eid
    check_store h c.oft_store
    check_token c.token_source c.signer c.token_mint.key c.token_program
    check_address c.token_escrow.key c.oft_store.value.token_escrow
    check_token c.token_escrow c.oft_store.key c.token_mint.key c.token_program
    check_address c.token_mint.key c.oft_store.value.token_mint
    check_mint_program c.token_mint c.token_program

  -- `token_interface::transfer_checked` from the source to the escrow, by the signer
  unfoldable pub transfer_to_escrow : SendContext → ℕ → h.World → Result h.World
  transfer_to_escrow c amount w =
      h.transfer_checked
        (record {
          from = c.token_source.key;
          mint = c.token_mint.key;
          to = c.token_escrow.key;
          authority = c.signer;
        })
        [] amount c.token_mint.decimals w

  unfoldable pub burn_from_source : SendContext → ℕ → h.World → Result h.World
  burn_from_source c amount w =
      h.burn (record { mint = c.token_mint.key; from = c.token_source.key; authority = c.signer })
        amount w

  -- The store and the world after the tokens have moved.
  unfoldable pub take_tokens : SendContext → ℕ → ℕ → ℕ → h.World → Result (OftStore × h.World)
  take_tokens c amount_sent_ld amount_received_ld oft_fee_ld w =
      let s = c.oft_store.value in
      if is_adapter s.oft_type
      then (do
        tvl_ld ← add_u64 s.tvl_ld amount_received_ld
        w1 ← transfer_to_escrow c amount_sent_ld w
        ok (record s { tvl_ld = tvl_ld }, w1))
      else (do
        amount_burnt_ld ← sub_u64 amount_sent_ld oft_fee_ld
        w1 ← burn_from_source c amount_burnt_ld w
        w2 ← if ltb 0 oft_fee_ld then transfer_to_escrow c oft_fee_ld w1 else ok w1
        ok (s, w2))

  -- The call of the endpoint. `s` is the store as it then stands.
  unfoldable pub send_message :
      SendContext → SendParams → OftStore → ℕ → h.World → Result (MessagingReceipt × h.World)
  send_message c params s amount_received_ld w = do
    sender ← index c.remaining_accounts 1
    require (bytes_eq c.oft_store.key sender) (oft invalid_sender)
    amount_sd ← ld2sd s amount_received_ld
    options ←
        combine_options h.combine_options c.peer.value.enforced_options params.compose_msg
          params.options
    h.send s.endpoint_program c.oft_store.key c.remaining_accounts
        (signer_seeds c.token_escrow.key s.bump)
        (record {
          dst_eid = params.dst_eid;
          receiver = c.peer.value.peer_address;
          message = MsgCodec.encode params.to amount_sd c.signer params.compose_msg;
          options = options;
          native_fee = params.native_fee;
          lz_token_fee = params.lz_token_fee;
        })
        w

  unfoldable pub apply : Result Clock → SendContext → SendParams → h.World → Result Sent
  apply clock c params w = do
    require (not c.oft_store.value.paused) (oft paused)
    (amount_sent_ld, amount_received_ld, oft_fee_ld) ←
        compute_fee_and_adjust_amount h clock params.amount_ld c.oft_store.value c.token_mint
          c.peer.value.fee_bps
    require (leb params.min_amount_ld amount_received_ld) (oft slippage_exceeded)
    peer ← limit_outbound clock c.peer.value amount_received_ld
    (oft_store, w1) ← take_tokens c amount_sent_ld amount_received_ld oft_fee_ld w
    (msg_receipt, w2) ← send_message c params oft_store amount_received_ld w1
    w3 ←
        h.emit_cpi
          (oft_sent (record {
            guid = msg_receipt.guid;
            dst_eid = params.dst_eid;
            from = c.token_source.key;
            amount_sent_ld = amount_sent_ld;
            amount_received_ld = amount_received_ld;
          }))
          w2
    ok (record {
      peer = peer;
      oft_store = oft_store;
      world = w3;
      msg_receipt = msg_receipt;
      oft_receipt = record {
        amount_sent_ld = amount_sent_ld;
        amount_received_ld = amount_received_ld;
      };
    })

  -- The instruction `send` of lib.rs.
  unfoldable pub send : Result Clock → SendContext → SendParams → h.World → Result Sent
  send clock c params w = check_accounts c params >> apply clock c params w
