-- ===== src/Solvency/Laws.antt =====
-- What solvency relies on of the token programs and the endpoint: which balances a call can lower.
use cross_chain_contracts.Common.{ℕ, ◌+◌, ◌≤◌, ◌≡◌, ◌≢◌, List, Option, some}
use cross_chain_contracts.Errors.{Result, ok}
use cross_chain_contracts.State.RateLimiter.{Clock}
use cross_chain_contracts.State.OftStore.{OftStore}
use cross_chain_contracts.Platform.{Host}
use cross_chain_contracts.Platform.Cpi.{
  TransferChecked, Mint, MintTo, EndpointSendParams, MessagingReceipt, ClearParams,
  SendComposeParams, Event, SetDelegateParams,
}
use cross_chain_contracts.Instructions.Send.{SendContext}
use cross_chain_contracts.Fees.{get_post_fee_amount_ld}

-- What can be read of a world: the balance of a token account, the mint that is stored under a
-- key, and the answer of `Clock::get()`.
pub record Reading (h : Host) : Type 0 where
  pub balance : h.World → List ℕ → ℕ
  pub mint_at : h.World → List ℕ → Option Mint
  pub clock : h.World → Result Clock

module _ (h : Host) (o : Reading h) where
  -- The balance of the escrow has not fallen.
  abbrev pub NoLoss : List ℕ → h.World → h.World → Type 0
  NoLoss escrow w w' = o.balance w escrow ≤ o.balance w' escrow

  -- The escrow of the store holds the locked value.
  abbrev pub IsCovered : OftStore → h.World → Type 0
  IsCovered s w = s.tvl_ld ≤ o.balance w s.token_escrow

  -- What `send` needs of the accounts that the runtime has loaded: the mint is the stored one, and
  -- the source is not the escrow, which no signer owns.
  pub record IsLoaded (c : SendContext) (w : h.World) : Type 0 where
    pub mint : o.mint_at w c.token_mint.key ≡ some c.token_mint
    pub distinct : c.token_source.key ≢ c.token_escrow.key

  pub record TokenLaws : Type 0 where
    -- A transfer takes no more than its amount from its source.
    pub transfer_debits :
        {t : TransferChecked} {seeds : List (List ℕ)} {amount decimals : ℕ} {w w' : h.World}
        → h.transfer_checked t seeds amount decimals w ≡ ok w'
        → o.balance w t.from ≤ o.balance w' t.from + amount
    -- Another account is credited with the amount less the mint's fee at the time.
    pub transfer_credits :
        {t : TransferChecked} {seeds : List (List ℕ)} {amount decimals arrived : ℕ} {w w' : h.World}
        {m : Mint}
        → h.transfer_checked t seeds amount decimals w ≡ ok w'
        → o.mint_at w t.mint ≡ some m
        → t.from ≢ t.to
        → get_post_fee_amount_ld h (o.clock w) m amount ≡ ok arrived
        → o.balance w' t.to ≡ o.balance w t.to + arrived

  -- The other calls take nothing from the escrow of the store.
  pub record CallLaws (escrow : List ℕ) : Type 0 where
    pub mint_keeps :
        {t : MintTo} {seeds : List (List ℕ)} {amount : ℕ} {w w' : h.World}
        → h.mint_to t seeds amount w ≡ ok w'
        → NoLoss escrow w w'
    pub init_keeps :
        {payer wallet mint program : List ℕ} {w w' : h.World}
        → h.init_associated_token_if_needed payer wallet mint program w ≡ ok w'
        → NoLoss escrow w w'
    pub emit_keeps : {e : Event} {w w' : h.World} → h.emit_cpi e w ≡ ok w' → NoLoss escrow w w'
    pub send_keeps :
        {endpoint store : List ℕ} {accounts seeds : List (List ℕ)} {p : EndpointSendParams}
        {receipt : MessagingReceipt} {w w' : h.World}
        → h.send endpoint store accounts seeds p w ≡ ok (receipt, w')
        → NoLoss escrow w w'
    pub clear_keeps :
        {endpoint store : List ℕ} {accounts seeds : List (List ℕ)} {p : ClearParams}
        {w w' : h.World}
        → h.clear endpoint store accounts seeds p w ≡ ok w'
        → NoLoss escrow w w'
    pub compose_keeps :
        {endpoint store : List ℕ} {accounts seeds : List (List ℕ)} {p : SendComposeParams}
        {w w' : h.World}
        → h.send_compose endpoint store accounts seeds p w ≡ ok w'
        → NoLoss escrow w w'
    pub delegate_keeps :
        {endpoint store : List ℕ} {accounts seeds : List (List ℕ)} {p : SetDelegateParams}
        {w w' : h.World}
        → h.set_delegate endpoint store accounts seeds p w ≡ ok w'
        → NoLoss escrow w w'
