-- ===== src/Solvency/Fees.antt =====
-- The escrow against the locked value `tvl_ld` across withdraw_fee.rs.
use cross_chain_contracts.Common.{ℕ, ◌≤◌, ◌≡◌, subst, arith, List, bytes_eq→eq, leb}
use cross_chain_contracts.Errors.{ok, oft, invalid_fee, require, >>=-eq-ok}
use cross_chain_contracts.Words.{sub_u64}
use cross_chain_contracts.Platform.{Host}
use cross_chain_contracts.Instructions.Accounts.{check_address}
use cross_chain_contracts.Instructions.WithdrawFee.{
  WithdrawFeeContext, WithdrawFeeParams, check_accounts, apply, withdraw_fee,
}
use cross_chain_contracts.Solvency.Laws.{Reading, IsCovered, TokenLaws}

module _ (h : Host) (o : Reading h) (tokens : TokenLaws h o) where
  pub record FeeChecked (c : WithdrawFeeContext) : Type 0 where
    pub is_admin : c.oft_store.value.admin ≡ c.admin
    pub escrow_key : c.token_escrow.key ≡ c.oft_store.value.token_escrow

  pub check_accounts-FeeChecked :
      (c : WithdrawFeeContext) → check_accounts h c ≡ ok tt → FeeChecked c
  unfolding check_accounts check_address
  check_accounts-FeeChecked c e = record {
    is_admin = ground (arith, bytes_eq→eq c.oft_store.value.admin c.admin, e);
    escrow_key = ground (arith, bytes_eq→eq c.token_escrow.key c.oft_store.value.token_escrow, e);
  }

  -- If the token programs keep their laws, and `withdraw_fee` succeeds on an escrow that was loaded
  -- with its balance, then the admin of the store is the caller and the escrow still holds the
  -- locked value.
  pub withdraw_fee-IsCovered :
      (c : WithdrawFeeContext) (params : WithdrawFeeParams) (w : h.World) {w' : h.World}
      → c.token_escrow.amount ≡ o.balance w c.token_escrow.key
      → withdraw_fee h c params w ≡ ok w'
      → (c.oft_store.value.admin ≡ c.admin) × IsCovered h o c.oft_store.value w'
  unfolding withdraw_fee apply sub_u64
  withdraw_fee-IsCovered c params w {w'} loaded e =
      let (_, passed, e1) = >>=-eq-ok (check_accounts h c) _ e in
      let checked = check_accounts-FeeChecked c passed in
      let (rest, counted, e2) =
        >>=-eq-ok (sub_u64 c.token_escrow.amount c.oft_store.value.tvl_ld) _ e1 in
      let (_, allowed, e3) = >>=-eq-ok (require (leb params.fee_ld rest) (oft invalid_fee)) _ e2 in
      let debited = tokens.transfer_debits e3 in
      let after : c.oft_store.value.tvl_ld ≤ o.balance w' c.token_escrow.key =
        ground (arith, debited, loaded, counted, allowed) in
      (
        checked.is_admin,
        subst (λ (k : List ℕ). c.oft_store.value.tvl_ld ≤ o.balance w' k) checked.escrow_key after,
      )
