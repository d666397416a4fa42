-- ===== src/Instructions/LzReceive.antt =====
-- instructions/lz_receive.rs: tokens arrive on this chain. They are unlocked from the escrow
-- (adapter) or minted (native), and a composed message is handed to the endpoint.
pub mod Run
pub mod Checked
pub mod Safety
pub mod Guards
use cross_chain_contracts.Common.{
  ℕ, Bool, true, false, not, Option, none, some, List, [], ◌∷◌, if◌then◌else◌, bytes_eq,
}
use cross_chain_contracts.Errors.{
  Result, ok, err, oft, constraint, token_mint, token_owner, associated_token,
  associated_token_program, paused, invalid_sender, invalid_token_dest, invalid_mint_authority,
  require, ◌>>◌, ◌>>=◌,
}
use cross_chain_contracts.Words.{sub_u64, slice, slice_from}
use cross_chain_contracts.MsgCodec as MsgCodec
use cross_chain_contracts.ComposeMsgCodec as ComposeMsgCodec
use cross_chain_contracts.State.RateLimiter.{Clock}
use cross_chain_contracts.State.OftStore.{OftStore, is_adapter, sd2ld}
use cross_chain_contracts.State.PeerConfig.{PeerConfig}
use cross_chain_contracts.Platform.{Host}
use cross_chain_contracts.Platform.Cpi.{
  Account, TokenAccount, Mint, TransferChecked, MintTo, ClearParams, SendComposeParams,
  LzReceiveParams, OftReceived, oft_received,
}
use cross_chain_contracts.Fees.{get_post_fee_amount_ld}
use cross_chain_contracts.Instructions.Accounts.{
  check_store, check_peer, check_token, check_address, check_mint_program, signer_seeds, is_key,
}
use cross_chain_contracts.Instructions.Limits.{limit_inbound}

-- `Context<LzReceive>`; the three fixed programs among its accounts are checked by their types.
pub record LzReceiveContext : Type 0 where
  pub payer : List ℕ
  pub peer : Account PeerConfig
  pub oft_store : Account OftStore
  pub token_escrow : TokenAccount
  pub to_address : List ℕ
  pub token_dest : TokenAccount
  pub token_mint : Mint
  pub mint_authority : Option (List ℕ)
  pub token_program : List ℕ
  pub remaining_accounts : List (List ℕ)

module _ (h : Host) where
  -- The accounts that `lz_receive` writes.
  pub record Received : Type 0 where
    pub peer : PeerConfig
    pub oft_store : OftStore
    pub world : h.World

  -- `associated_token::mint`, `associated_token::authority` and `associated_token::token_program`
  unfoldable pub check_associated_token :
      TokenAccount → List ℕ → List ℕ → List ℕ → Result (Unit {0})
  check_associated_token account wallet mint token_program = do
    require (bytes_eq account.mint mint) (constraint token_mint)
    require (bytes_eq account.owner wallet) (constraint token_owner)
    require (bytes_eq account.token_program token_program) (constraint associated_token_program)
    require
        (bytes_eq account.key
          (h.get_associated_token_address_with_program_id wallet mint token_program))
        (constraint associated_token)

  -- `init_if_needed` of `token_dest`, and what it tests of the account, which is then as
  -- `token_dest` says, come before the other attributes.
  unfoldable pub check_accounts : LzReceiveContext → LzReceiveParams → h.World → Result h.World
  check_accounts c params w = do
    w1 ← h.init_associated_token_if_needed c.payer c.to_address c.token_mint.key c.token_program w
    check_associated_token c.token_dest c.to_address c.token_mint.key c.token_program
    check_peer h c.peer c.oft_store params.src_eid
    require (bytes_eq c.peer.value.peer_address params.sender) (oft invalid_sender)
    check_store h c.oft_store
    check_address c.token_escrow.key c.oft_store.value.token_escrow
    check_token c.token_escrow c.oft_store.key c.token_mint.key c.token_program
    to ← MsgCodec.send_to params.message
    require (bytes_eq c.to_address to) (oft invalid_token_dest)
    check_address c.token_mint.key c.oft_store.value.token_mint
    check_mint_program c.token_mint c.token_program
    elim c.mint_authority [
      | none ↦ ok w1
      | some key ↦
          require (is_key c.token_mint.mint_authority key) (oft invalid_mint_authority) >> ok w1
    ]

  abbrev pub seeds_of : LzReceiveContext → List (List ℕ)
  seeds_of c = signer_seeds c.token_escrow.key c.oft_store.value.bump

  unfoldable pub clear_payload : LzReceiveContext → LzReceiveParams → h.World → Result h.World
  clear_payload c params w = do
    accounts_for_clear ← slice c.remaining_accounts 0 h.clear_min_accounts_len
    h.clear c.oft_store.value.endpoint_program c.oft_store.key accounts_for_clear (seeds_of c)
        (record {
          receiver = c.oft_store.key;
          src_eid = params.src_eid;
          sender = params.sender;
          nonce = params.nonce;
          guid = params.guid;
          message = params.message;
        })
        w

  unfoldable pub transfer_from_escrow : LzReceiveContext → ℕ → h.World → Result h.World
  transfer_from_escrow c amount w =
      h.transfer_checked
        (record {
          from = c.token_escrow.key;
          mint = c.token_mint.key;
          to = c.token_dest.key;
          authority = c.oft_store.key;
        })
        (seeds_of c) amount c.token_mint.decimals w

  unfoldable pub mint_to_dest : LzReceiveContext → List ℕ → ℕ → h.World → Result h.World
  mint_to_dest c mint_authority amount w =
      h.mint_to
        (record {
          token_program = c.token_program;
          mint = c.token_mint.key;
          account = c.token_dest.key;
          owner = mint_authority;
          signers = c.oft_store.key ∷ [];
        })
        (seeds_of c) amount w

  -- The store, the world and the amount received after the tokens have moved. The bytes of the
  -- mint, which hold its fee, are those that were loaded: transfers do not write them.
  unfoldable pub give_tokens :
      Result Clock → LzReceiveContext → ℕ → h.World → Result (OftStore × h.World × ℕ)
  give_tokens clock c amount_received_ld w =
      let s = c.oft_store.value in
      if is_adapter s.oft_type
      then (do
        tvl_ld ← sub_u64 s.tvl_ld amount_received_ld
        w1 ← transfer_from_escrow c amount_received_ld w
        post_fee_ld ← get_post_fee_amount_ld h clock c.token_mint amount_received_ld
        ok (record s { tvl_ld = tvl_ld }, w1, post_fee_ld))
      else elim c.mint_authority [
        | some mint_authority ↦ do
          w1 ← mint_to_dest c mint_authority amount_received_ld w
          ok (s, w1, amount_received_ld)
        | none ↦ err (oft invalid_mint_authority)
      ]

  unfoldable pub compose :
      LzReceiveContext → LzReceiveParams → OftStore → ℕ → h.World → Result h.World
  compose c params s amount_received_ld w = elim (MsgCodec.compose_msg params.message) [
    | none ↦ ok w
    | some message ↦ do
      accounts ← slice_from c.remaining_accounts h.clear_min_accounts_len
      h.send_compose s.endpoint_program c.oft_store.key accounts (seeds_of c)
          (record {
            to = c.to_address;
            guid = params.guid;
            index = 0;
            message = ComposeMsgCodec.encode params.nonce params.src_eid amount_received_ld message;
          })
          w
  ]

  unfoldable pub apply :
      Result Clock → LzReceiveContext → LzReceiveParams → h.World → Result Received
  apply clock c params w = do
    require (not c.oft_store.value.paused) (oft paused)
    w1 ← clear_payload c params w
    amount_sd ← MsgCodec.amount_sd params.message
    amount_ld ← sd2ld c.oft_store.value amount_sd
    peer ← limit_inbound clock c.peer.value amount_ld
    (oft_store, w2, amount_received_ld) ← give_tokens clock c amount_ld w1
    w3 ← compose c params oft_store amount_received_ld w2
    w4 ←
        h.emit_cpi
          (oft_received (record {
            guid = params.guid;
            src_eid = params.src_eid;
            to = c.to_address;
            amount_received_ld = amount_received_ld;
          }))
          w3
    ok (record { peer = peer; oft_store = oft_store; world = w4 })

  -- The instruction `lz_receive` of lib.rs.
  unfoldable pub lz_receive :
      Result Clock → LzReceiveContext → LzReceiveParams → h.World → Result Received
  lz_receive clock c params w = do w1 ← check_accounts c params w; apply clock c params w1
