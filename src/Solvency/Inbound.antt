-- ===== src/Solvency/Inbound.antt =====
-- The escrow against the locked value `tvl_ld` across lz_receive.rs.
use cross_chain_contracts.Common.{
  ℕ, ◌+◌, ◌≤◌, ◌≡◌, sym, ◌∙◌, subst, arith, true, false, List, inl, inr, Option-cases,
}
use cross_chain_contracts.Errors.{Result, ok, >>=-eq-ok, ok-injective}
use cross_chain_contracts.Words.{sub_u64, slice, slice_from}
use cross_chain_contracts.MsgCodec as MsgCodec
use cross_chain_contracts.State.RateLimiter.{Clock}
use cross_chain_contracts.State.OftStore.{OftStore, is_adapter, sd2ld}
use cross_chain_contracts.Platform.{Host}
use cross_chain_contracts.Platform.Cpi.{LzReceiveParams}
use cross_chain_contracts.Instructions.LzReceive.{
  LzReceiveContext, Received, give_tokens, clear_payload, transfer_from_escrow, compose, lz_receive,
}
use cross_chain_contracts.Instructions.LzReceive.Run.{lz_receive-ReceiveRun}
use cross_chain_contracts.Instructions.LzReceive.Checked.{check_accounts-ReceiveChecked}
use cross_chain_contracts.Solvency.Laws.{Reading, NoLoss, IsCovered, TokenLaws, CallLaws}

module _ (h : Host) (o : Reading h) (tokens : TokenLaws h o) (escrow : List ℕ)
    (calls : CallLaws h o escrow) where
  pub give_tokens_adapter :
      (clock : Result Clock) (c : LzReceiveContext) (amount : ℕ) (w : h.World) {w' : h.World}
      {s' : OftStore} {received : ℕ}
      → is_adapter c.oft_store.value.oft_type ≡ true
      → give_tokens h clock c amount w ≡ ok (s', w', received)
      → (transfer_from_escrow h c amount w ≡ ok w')
        × (s'.tvl_ld + amount ≡ c.oft_store.value.tvl_ld)
        × (s'.token_escrow ≡ c.oft_store.value.token_escrow)
  unfolding give_tokens sub_u64
  give_tokens_adapter clock c amount w kind e = ground arith

  pub give_tokens_native :
      (clock : Result Clock) (c : LzReceiveContext) (amount : ℕ) (w : h.World) {w' : h.World}
      {s' : OftStore} {received : ℕ}
      → is_adapter c.oft_store.value.oft_type ≡ false
      → give_tokens h clock c amount w ≡ ok (s', w', received)
      → (s' ≡ c.oft_store.value) × (received ≡ amount)
  unfolding give_tokens
  give_tokens_native clock c amount w kind e = ground arith

  clear_payload-NoLoss :
      (c : LzReceiveContext) (params : LzReceiveParams) (w : h.World) {w' : h.World}
      → clear_payload h c params w ≡ ok w'
      → NoLoss h o escrow w w'
  unfolding clear_payload
  clear_payload-NoLoss c params w e =
      let (accounts, _, e1) =
        >>=-eq-ok (slice c.remaining_accounts 0 h.clear_min_accounts_len) _ e in
      calls.clear_keeps e1

  compose-NoLoss :
      (c : LzReceiveContext) (params : LzReceiveParams) (s : OftStore) (received : ℕ) (w : h.World)
      {w' : h.World}
      → compose h c params s received w ≡ ok w'
      → NoLoss h o escrow w w'
  unfolding compose
  compose-NoLoss c params s received w {w'} e =
      elim (Option-cases (MsgCodec.compose_msg params.message)) [
        | inl plain ↦
            let same = ok-injective (rw (plain, compose) at e) in
            subst (λ (x : h.World). o.balance w escrow ≤ o.balance x escrow) same (omega arith)
        | inr (message, composed) ↦
            let (accounts, _, e1) =
              >>=-eq-ok (slice_from c.remaining_accounts h.clear_min_accounts_len) _
                (rw (composed, compose) at e) in
            calls.compose_keeps e1
      ]

  transfer_from_escrow_debits :
      (c : LzReceiveContext) (amount : ℕ) (w : h.World) {w' : h.World}
      → transfer_from_escrow h c amount w ≡ ok w'
      → o.balance w c.token_escrow.key ≤ o.balance w' c.token_escrow.key + amount
  unfolding transfer_from_escrow
  transfer_from_escrow_debits c amount w e = tokens.transfer_debits e

  -- If the programs that are called keep their laws and, transfers apart, take nothing from the
  -- escrow, and `lz_receive` succeeds on an adapter whose escrow covers the locked value, then the
  -- locked value has shrunk by exactly the amount that the message carries, in local decimals, and
  -- the escrow covers it.
  pub lz_receive-IsCovered :
      (clock : Result Clock) (c : LzReceiveContext) (params : LzReceiveParams) (w : h.World)
      {r : Received h}
      → c.oft_store.value.token_escrow ≡ escrow
      → is_adapter c.oft_store.value.oft_type ≡ true
      → IsCovered h o c.oft_store.value w
      → lz_receive h clock c params w ≡ ok r
      → (amount_sd : ℕ) × (amount_ld : ℕ) × (MsgCodec.amount_sd params.message ≡ ok amount_sd)
        × (sd2ld c.oft_store.value amount_sd ≡ ok amount_ld)
        × (r.oft_store.tvl_ld + amount_ld ≡ c.oft_store.value.tvl_ld)
        × IsCovered h o r.oft_store r.world
  lz_receive-IsCovered clock c params w {r} at kind covered e =
      let run = lz_receive-ReceiveRun h clock c params w e in
      let checked = check_accounts-ReceiveChecked h c params w run.checked in
      let (moved, tvl, same) =
        give_tokens_adapter clock c run.amount_ld run.after_clear kind run.given in
      let made = calls.init_keeps checked.initialised in
      let cleared = clear_payload-NoLoss c params run.after_checks run.cleared in
      let debited : o.balance run.after_clear escrow
          ≤ o.balance run.after_tokens escrow + run.amount_ld =
        subst
          (λ (k : List ℕ).
            o.balance run.after_clear k ≤ o.balance run.after_tokens k + run.amount_ld)
          (checked.escrow_key ∙ at)
          (transfer_from_escrow_debits c run.amount_ld run.after_clear moved) in
      let composed =
        compose-NoLoss c params r.oft_store run.amount_received_ld run.after_tokens run.composed in
      let emitted = calls.emit_keeps run.emitted in
      let before : c.oft_store.value.tvl_ld ≤ o.balance w escrow =
        subst (λ (k : List ℕ). c.oft_store.value.tvl_ld ≤ o.balance w k) at covered in
      let after : r.oft_store.tvl_ld ≤ o.balance r.world escrow =
        omega (arith, before, made, cleared, debited, composed, emitted, tvl) in
      (
        run.amount_sd,
        run.amount_ld,
        run.decoded,
        run.converted,
        tvl,
        subst (λ (k : List ℕ). r.oft_store.tvl_ld ≤ o.balance r.world k) (sym (same ∙ at)) after,
      )
