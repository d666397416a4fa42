-- ===== src/Instructions/InitOft.antt =====
-- instructions/init_oft.rs: the store is made, and the program registers itself with the endpoint.
pub mod Checked
pub mod Store
use cross_chain_contracts.Common.{
  ℕ, ◌-◌, Bool, false, Option, none, some, List, [], ◌∷◌, leb, bytes_eq,
}
use cross_chain_contracts.Errors.{
  Result, ok, oft, invalid_decimals, constraint, seeds, require, ◌>>◌, ◌>>=◌,
}
use cross_chain_contracts.Words.{pow_u64}
use cross_chain_contracts.State.OftStore.{OftStore, OftType, LzReceiveTypesAccounts}
use cross_chain_contracts.Platform.{Host}
use cross_chain_contracts.Platform.Cpi.{Mint, RegisterOappParams}
use cross_chain_contracts.Instructions.Accounts.{store_seeds, signer_seeds, check_mint_program}

pub record InitOftParams : Type 0 where
  pub oft_type : OftType
  pub admin : List ℕ
  pub shared_decimals : ℕ
  pub endpoint_program : Option (List ℕ)

-- `Context<InitOFT>`. The store, `lz_receive_types_accounts` and the escrow are made by Anchor
-- before `apply`; the store's own fields are all written by it.
pub record InitOftContext : Type 0 where
  pub payer : List ℕ
  pub oft_store : List ℕ
  pub lz_receive_types_accounts : List ℕ
  pub token_mint : Mint
  pub token_escrow : List ℕ
  pub token_program : List ℕ
  pub remaining_accounts : List (List ℕ)

abbrev pub endpoint_or : List ℕ → Option (List ℕ) → List ℕ
endpoint_or endpoint_id none = endpoint_id
endpoint_or endpoint_id (some endpoint_program) = endpoint_program

module _ (h : Host) where
  -- The addresses of the accounts that are made, and the bump of the store's.
  unfoldable pub check_accounts : InitOftContext → Result ℕ
  check_accounts c =
      let (store, store_bump) = h.find_program_address (store_seeds c.token_escrow) h.program_id in
      let (types, _) =
        h.find_program_address (h.lz_receive_types_seed ∷ c.oft_store ∷ []) h.program_id in
      do
        require (bytes_eq store c.oft_store) (constraint seeds)
        require (bytes_eq types c.lz_receive_types_accounts) (constraint seeds)
        check_mint_program c.token_mint c.token_program
        ok store_bump

  -- `InitOFT::apply`: the store, its neighbour account and the world.
  unfoldable pub apply :
      InitOftContext
      → InitOftParams
      → ℕ
      → h.World
      → Result (OftStore × LzReceiveTypesAccounts × h.World)
  apply c params store_bump w = do
    require (leb params.shared_decimals c.token_mint.decimals) (oft invalid_decimals)
    ld2sd_rate ← pow_u64 10 (c.token_mint.decimals - params.shared_decimals)
    let endpoint_program = endpoint_or h.endpoint_id params.endpoint_program
    w1 ←
        h.register_oapp endpoint_program c.oft_store c.remaining_accounts
          (signer_seeds c.token_escrow store_bump) (record { delegate = params.admin }) w
    ok (
      record {
        oft_type = params.oft_type;
        ld2sd_rate = ld2sd_rate;
        token_mint = c.token_mint.key;
        token_escrow = c.token_escrow;
        endpoint_program = endpoint_program;
        bump = store_bump;
        tvl_ld = 0;
        admin = params.admin;
        default_fee_bps = 0;
        paused = false;
        pauser = none;
        unpauser = none;
      },
      record { oft_store = c.oft_store; token_mint = c.token_mint.key },
      w1,
    )

  -- The instruction `init_oft` of lib.rs.
  unfoldable pub init_oft :
      InitOftContext
      → InitOftParams
      → h.World
      → Result (OftStore × LzReceiveTypesAccounts × h.World)
  init_oft c params w = do store_bump ← check_accounts c; apply c params store_bump w
