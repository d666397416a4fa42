-- ===== src/Program/Stores.antt =====
-- The store across send.rs and lz_receive.rs: its identity, its settings, its locked value.
use cross_chain_contracts.Common.{
  ℕ, List, ◌≤◌, ◌<◌, ◌≡◌, ap, ◌∙◌, arith, true, false, Bool-cases, inl, inr, ◌⊎◌,
}
use cross_chain_contracts.Errors.{ok}
use cross_chain_contracts.Words.{IsU64}
use cross_chain_contracts.State.OftStore.{OftStore, is_adapter}
use cross_chain_contracts.State.OftStore.Identity.{SameIdentity, MovesTvl, MovesTvl-SameIdentity}
use cross_chain_contracts.Platform.{Host}
use cross_chain_contracts.Platform.Laws.{FeeLaws}
use cross_chain_contracts.Platform.Cpi.{LzReceiveParams}
use cross_chain_contracts.Fees.{final_fee_bps}
use cross_chain_contracts.Instructions.Send.{SendContext, SendParams, Sent, send}
use cross_chain_contracts.Instructions.Send.Run.{send-SendRun, take_tokens-MovesTvl}
use cross_chain_contracts.Instructions.LzReceive.{LzReceiveContext, Received, lz_receive}
use cross_chain_contracts.Instructions.LzReceive.Run.{lz_receive-ReceiveRun, give_tokens-MovesTvl}
use cross_chain_contracts.Solvency.Laws.{Reading, IsCovered, IsLoaded, TokenLaws, CallLaws}
use cross_chain_contracts.Solvency.Outbound.{send-IsCovered}
use cross_chain_contracts.Solvency.Inbound.{lz_receive-IsCovered}

-- Well-formedness of a store, apart from what it holds.
pub record IsGoodStore (s : OftStore) : Type 0 where
  pub rate_pos : 0 < s.ld2sd_rate
  pub fee_low : s.default_fee_bps < 10_000
  pub native_empty : (is_adapter s.oft_type ≡ true) ⊎ (s.tvl_ld ≡ 0)

nothing_locked : (s : OftStore) → IsGoodStore s → is_adapter s.oft_type ≡ false → s.tvl_ld ≡ 0
nothing_locked s g kind = elim g.native_empty [ inl adapter ↦ cc | inr empty ↦ empty ]

MovesTvl-IsGoodStore : {s s' : OftStore} → MovesTvl s s' → IsGoodStore s → IsGoodStore s'
MovesTvl-IsGoodStore {s} {s'} m g =
    let i = MovesTvl-SameIdentity m in
    record {
      rate_pos = omega (arith, g.rate_pos, i.ld2sd_rate);
      fee_low = omega (arith, g.fee_low, ap (λ (x : OftStore). x.default_fee_bps) m.same);
      native_empty = elim (Bool-cases (is_adapter s.oft_type)) [
        | inl kind ↦ inl (ap is_adapter i.oft_type ∙ kind)
        | inr kind ↦
            inr (ap (λ (x : OftStore). x.tvl_ld) (m.native_same kind) ∙ nothing_locked s g kind)
      ];
    }

module _ (h : Host) (o : Reading h) (fees : FeeLaws h) (tokens : TokenLaws h o) (escrow : List ℕ)
    (calls : CallLaws h o escrow) where
  native-IsCovered :
      (s : OftStore) (w : h.World)
      → IsGoodStore s
      → is_adapter s.oft_type ≡ false
      → IsCovered h o s w
  native-IsCovered s w g kind = omega (arith, nothing_locked s g kind)

  -- After `send` on a well-formed store that is covered, the store is well formed, covered, and the
  -- same but for its locked value.
  pub send-store :
      (c : SendContext) (params : SendParams) (w : h.World) {r : Sent h}
      → c.oft_store.value.token_escrow ≡ escrow
      → IsGoodStore c.oft_store.value
      → final_fee_bps c.oft_store.value.default_fee_bps c.peer.value.fee_bps ≤ 10_000
      → IsU64 params.amount_ld
      → IsLoaded h o c w
      → IsCovered h o c.oft_store.value w
      → send h (o.clock w) c params w ≡ ok r
      → IsGoodStore r.oft_store
        × IsCovered h o r.oft_store r.world
        × SameIdentity c.oft_store.value r.oft_store
  send-store c params w {r} at g low fits l covered e =
      let run = send-SendRun h (o.clock w) c params w e in
      let moves =
        take_tokens-MovesTvl h c r.oft_receipt.amount_sent_ld r.oft_receipt.amount_received_ld
          run.fee w run.taken in
      let g' = MovesTvl-IsGoodStore moves g in
      let i = MovesTvl-SameIdentity moves in
      (
        g',
        elim (Bool-cases (is_adapter c.oft_store.value.oft_type)) [
          | inl kind ↦
              (send-IsCovered h o tokens escrow calls c params w fees at g.rate_pos low fits l kind
                covered e).1
          | inr kind ↦ native-IsCovered r.oft_store r.world g' (ap is_adapter i.oft_type ∙ kind)
        ],
        i,
      )

  pub lz_receive-store :
      (c : LzReceiveContext) (params : LzReceiveParams) (w : h.World) {r : Received h}
      → c.oft_store.value.token_escrow ≡ escrow
      → IsGoodStore c.oft_store.value
      → IsCovered h o c.oft_store.value w
      → lz_receive h (o.clock w) c params w ≡ ok r
      → IsGoodStore r.oft_store
        × IsCovered h o r.oft_store r.world
        × SameIdentity c.oft_store.value r.oft_store
  lz_receive-store c params w {r} at g covered e =
      let run = lz_receive-ReceiveRun h (o.clock w) c params w e in
      let moves = give_tokens-MovesTvl h (o.clock w) c run.amount_ld run.after_clear run.given in
      let g' = MovesTvl-IsGoodStore moves g in
      let i = MovesTvl-SameIdentity moves in
      (
        g',
        elim (Bool-cases (is_adapter c.oft_store.value.oft_type)) [
          | inl kind ↦
              (lz_receive-IsCovered h o tokens escrow calls (o.clock w) c params w at kind covered
                e).5
          | inr kind ↦ native-IsCovered r.oft_store r.world g' (ap is_adapter i.oft_type ∙ kind)
        ],
        i,
      )
