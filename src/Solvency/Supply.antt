-- ===== src/Solvency/Supply.antt =====
-- What is relied on of the supply of a mint: which calls change it.
pub mod Native
use cross_chain_contracts.Common.{
  if◌then◌else◌, ℕ, ◌+◌, ◌-◌, ◌≤◌, ◌<◌, ◌≡◌, refl, sym, ap, ◌∙◌, subst, arith, Bool, true, false,
  List, Option, some, none, ltb, Bool-cases, Option-cases, inl, inr, bytes_eq,
}
use cross_chain_contracts.Errors.{
  Result, ok, err, panic, oft, invalid_sender, invalid_mint_authority, require, ok-injective, ◌>>=◌,
  ◌>>◌, >>=-eq-ok, >>-eq-ok,
}
use cross_chain_contracts.Words.{IsU64, index, sub_u64, slice, slice_from}
use cross_chain_contracts.MsgCodec as MsgCodec
use cross_chain_contracts.State.RateLimiter.{Clock}
use cross_chain_contracts.State.OftStore.{OftStore, is_adapter, ld2sd, sd2ld}
use cross_chain_contracts.State.PeerConfig.{combine_options}
use cross_chain_contracts.Platform.{Host}
use cross_chain_contracts.Platform.Cpi.{
  TransferChecked, Burn, MintTo, EndpointSendParams, MessagingReceipt, ClearParams,
  SendComposeParams, Event, LzReceiveParams,
}
use cross_chain_contracts.Fees.{final_fee_bps}
use cross_chain_contracts.Fees.Adjust.{native_amounts}
use cross_chain_contracts.Instructions.Send as Send
use cross_chain_contracts.Instructions.Send.{SendContext, SendParams, Sent, send}
use cross_chain_contracts.Instructions.Send.Run.{send-SendRun}
use cross_chain_contracts.Instructions.LzReceive as LzReceive
use cross_chain_contracts.Instructions.LzReceive.{LzReceiveContext, Received, lz_receive}
use cross_chain_contracts.Instructions.LzReceive.Run.{lz_receive-ReceiveRun}
use cross_chain_contracts.Instructions.LzReceive.Checked.{check_accounts-ReceiveChecked}

-- `supply` reads the supply of each mint.
module _ (h : Host) (supply : h.World → List ℕ → ℕ) where
  abbrev pub SameSupply : h.World → h.World → Type 0
  SameSupply w w' = (mint : List ℕ) → supply w' mint ≡ supply w mint

  -- Only burning and minting change a supply, by their amounts.
  pub record SupplyLaws : Type 0 where
    pub burn_supply :
        {b : Burn} {amount : ℕ} {w w' : h.World}
        → h.burn b amount w ≡ ok w'
        → supply w' b.mint + amount ≡ supply w b.mint
    pub mint_supply :
        {t : MintTo} {seeds : List (List ℕ)} {amount : ℕ} {w w' : h.World}
        → h.mint_to t seeds amount w ≡ ok w'
        → supply w' t.mint ≡ supply w t.mint + amount
    pub transfer_supply :
        {t : TransferChecked} {seeds : List (List ℕ)} {amount decimals : ℕ} {w w' : h.World}
        → h.transfer_checked t seeds amount decimals w ≡ ok w'
        → SameSupply w w'
    pub init_supply :
        {payer wallet mint program : List ℕ} {w w' : h.World}
        → h.init_associated_token_if_needed payer wallet mint program w ≡ ok w'
        → SameSupply w w'
    pub emit_supply : {e : Event} {w w' : h.World} → h.emit_cpi e w ≡ ok w' → SameSupply w w'
    pub send_supply :
        {endpoint store : List ℕ} {accounts seeds : List (List ℕ)} {p : EndpointSendParams}
        {receipt : MessagingReceipt} {w w' : h.World}
        → h.send endpoint store accounts seeds p w ≡ ok (receipt, w')
        → SameSupply w w'
    pub clear_supply :
        {endpoint store : List ℕ} {accounts seeds : List (List ℕ)} {p : ClearParams}
        {w w' : h.World}
        → h.clear endpoint store accounts seeds p w ≡ ok w'
        → SameSupply w w'
    pub compose_supply :
        {endpoint store : List ℕ} {accounts seeds : List (List ℕ)} {p : SendComposeParams}
        {w w' : h.World}
        → h.send_compose endpoint store accounts seeds p w ≡ ok w'
        → SameSupply w w'
