-- ===== src/Instructions/InitOft/Checked.antt =====
-- What the account attributes of `InitOFT` in instructions/init_oft.rs establish.
use cross_chain_contracts.Common.{ℕ, ◌≡◌, [], ◌∷◌, true, bytes_eq}
use cross_chain_contracts.Errors.{
  ok, constraint, seeds, require, >>=-eq-ok, >>-eq-ok, ok-injective, require-eq-ok,
}
use cross_chain_contracts.Platform.{Host}
use cross_chain_contracts.Instructions.Accounts.{check_mint_program, store_seeds}
use cross_chain_contracts.Instructions.InitOft.{InitOftContext, check_accounts}

module _ (h : Host) where
  pub init_oft_checked :
      (c : InitOftContext) {bump : ℕ}
      → check_accounts h c ≡ ok bump
      → let found = h.find_program_address (store_seeds c.token_escrow) h.program_id in
        (bytes_eq found.0 c.oft_store ≡ true) × (found.1 ≡ bump)
  unfolding check_accounts
  init_oft_checked c e =
      let (store, store_bump) = h.find_program_address (store_seeds c.token_escrow) h.program_id in
      let (types, _) =
        h.find_program_address (h.lz_receive_types_seed ∷ c.oft_store ∷ []) h.program_id in
      let (_, placed, e1) =
        >>=-eq-ok (require (bytes_eq store c.oft_store) (constraint seeds)) _ e in
      let e2 =
        >>-eq-ok (require (bytes_eq types c.lz_receive_types_accounts) (constraint seeds)) _ e1 in
      let e3 = >>-eq-ok (check_mint_program c.token_mint c.token_program) _ e2 in
      (require-eq-ok _ (constraint seeds) placed, ok-injective e3)
