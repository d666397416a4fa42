-- ===== src/Instructions/LzReceive/Safety.antt =====
-- The message and the accounts of a `lz_receive` of lz_receive.rs that succeeds.
use cross_chain_contracts.Common.{ℕ, ◌≡◌, ◌⊎◌, true, false, some, List}
use cross_chain_contracts.Errors.{Result, ok}
use cross_chain_contracts.MsgCodec as MsgCodec
use cross_chain_contracts.State.RateLimiter.{Clock}
use cross_chain_contracts.State.OftStore.{OftStore, is_adapter}
use cross_chain_contracts.Platform.{Host}
use cross_chain_contracts.Platform.Cpi.{LzReceiveParams}
use cross_chain_contracts.Instructions.LzReceive.{
  LzReceiveContext, transfer_from_escrow, mint_to_dest,
}

module _ (h : Host) (clock : Result Clock) (c : LzReceiveContext) (params : LzReceiveParams)
    (w : h.World) where
  -- The tokens of an accepted message: a transfer of the whole amount from the escrow, or a mint of
  -- it by the mint authority that was passed.
  abbrev pub Delivered : ℕ → h.World → h.World → Type 0
  Delivered amount before after =
      ((is_adapter c.oft_store.value.oft_type ≡ true)
        × (transfer_from_escrow h c amount before ≡ ok after))
      ⊎ ((authority : List ℕ) × (is_adapter c.oft_store.value.oft_type ≡ false)
          × (c.mint_authority ≡ some authority)
          × (mint_to_dest h c authority amount before ≡ ok after))
