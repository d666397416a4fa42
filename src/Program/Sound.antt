-- ===== src/Program/Sound.antt =====
-- The invariant of the program of lib.rs.
use cross_chain_contracts.Common.{
  ◌≡◌, List, ℕ, ◌≤◌, ◌<◌, ap, sym, ◌∙◌, subst, arith, Option, some, none, List, ◌==◌, Bool-cases,
  inl, inr,
}
use native.Mathlib.Nat.{le_refl, le_trans}
use cross_chain_contracts.State.OftStore.{OftStore, is_adapter}
use cross_chain_contracts.State.OftStore.Identity.{
  SameIdentity, SameIdentity-refl, SameIdentity-trans,
}
use cross_chain_contracts.State.PeerConfig.{PeerConfig}
use cross_chain_contracts.State.PeerConfig.Valid.{IsLowFee, IsValidPeer}
use cross_chain_contracts.Platform.{Host}
use cross_chain_contracts.Platform.Laws.{FeeLaws}
use cross_chain_contracts.Fees.{final_fee_bps}
use cross_chain_contracts.Solvency.Laws.{Reading, NoLoss, IsCovered, TokenLaws, CallLaws}
use cross_chain_contracts.Solvency.Fees.{withdraw_fee-IsCovered}
use cross_chain_contracts.Instructions.Send.Run.{send-SendRun}
use cross_chain_contracts.Instructions.LzReceive.Run.{lz_receive-ReceiveRun}
use cross_chain_contracts.Instructions.Limits.Valid.{
  limit_outbound-IsValidPeer, limit_inbound-IsValidPeer,
}
use cross_chain_contracts.Instructions.Config.Effects.{
  ConfigEffect, set_oft_config-ConfigEffect, set_pause-ConfigEffect, set_oft_config-NoLoss,
}
use cross_chain_contracts.Instructions.Config.PeerEffects.{set_peer_config-IsValidPeer}
use cross_chain_contracts.Program.{Chain, Step, Reach, set_peer}
use cross_chain_contracts.Program.Stores.{IsGoodStore, send-store, lz_receive-store}

final_fee-le :
    (default_bps : ℕ) (bps : Option ℕ)
    → default_bps < 10_000
    → IsLowFee bps
    → final_fee_bps default_bps bps ≤ 10_000
final_fee-le default_bps none low v = omega arith
final_fee-le default_bps (some b) low v = omega arith

module _ (h : Host) (o : Reading h) where
  -- The store is well formed, the escrow covers its locked value, and all peers are valid.
  pub record IsSound (s : Chain h o) : Type 0 where
    pub good : IsGoodStore s.store
    pub covered : IsCovered h o s.store s.world
    pub peers_valid : (eid : ℕ) → IsValidPeer (s.peers eid)

  set_peer-valid :
      (peers : ℕ → PeerConfig) (eid : ℕ) (p : PeerConfig)
      → ((i : ℕ) → IsValidPeer (peers i))
      → IsValidPeer p
      → (i : ℕ) → IsValidPeer (set_peer h o peers eid p i)
  set_peer-valid peers eid p all v i = elim (Bool-cases (i == eid)) [
    | inl same ↦ rw same v
    | inr other ↦ rw other (all i)
  ]

  config_sound :
      (s : OftStore) (w : h.World) {s' : OftStore} {w' : h.World}
      → ConfigEffect s s'
      → NoLoss h o s.token_escrow w w'
      → IsGoodStore s
      → IsCovered h o s w
      → IsGoodStore s' × IsCovered h o s' w'
  config_sound s w {s'} {w'} f keeps g covered =
      let i = f.same_identity in
      (
        record {
          rate_pos = omega (arith, g.rate_pos, i.ld2sd_rate);
          fee_low = f.fee_low g.fee_low;
          native_empty = elim g.native_empty [
            | inl kind ↦ inl (ap is_adapter i.oft_type ∙ kind)
            | inr empty ↦ inr (f.same_tvl ∙ empty)
          ];
        },
        subst (λ (k : List ℕ). s'.tvl_ld ≤ o.balance w' k) (sym i.token_escrow)
            (omega (arith, f.same_tvl, keeps, covered)),
      )

module _ (h : Host) (o : Reading h) (fees : FeeLaws h) (tokens : TokenLaws h o) (escrow : List ℕ)
    (calls : CallLaws h o escrow) where
  -- One step of the program keeps a sound state sound, and the identity of the store.
  pub Step-IsSound :
      {s t : Chain h o}
      → s.store.token_escrow ≡ escrow
      → Step h o s t
      → IsSound h o s
      → IsSound h o t × SameIdentity s.store t.store
  Step-IsSound {s} at (Step.sends c params r store peer fits loaded e) v =
      let run = send-SendRun h (o.clock s.world) c params s.world e in
      let good : IsGoodStore c.oft_store.value = rw store v.good in
      let covered : IsCovered h o c.oft_store.value s.world = rw store v.covered in
      let peer_valid : IsValidPeer c.peer.value = rw peer (v.peers_valid params.dst_eid) in
      let low =
        final_fee-le c.oft_store.value.default_fee_bps c.peer.value.fee_bps good.fee_low
          peer_valid.fee_low in
      let (g', covered', i) =
        send-store h o fees tokens escrow calls c params s.world
          (ap (λ (x : OftStore). x.token_escrow) store ∙ at) good low fits loaded covered e in
      (
        record {
          good = g';
          covered = covered';
          peers_valid = set_peer-valid h o s.peers params.dst_eid r.peer v.peers_valid (
              limit_outbound-IsValidPeer (o.clock s.world) c.peer.value
                r.oft_receipt.amount_received_ld peer_valid run.limited);
        },
        subst (λ (x : OftStore). SameIdentity x r.oft_store) store i,
      )
  Step-IsSound {s} at (Step.receives c params r store peer e) v =
      let run = lz_receive-ReceiveRun h (o.clock s.world) c params s.world e in
      let good : IsGoodStore c.oft_store.value = rw store v.good in
      let covered : IsCovered h o c.oft_store.value s.world = rw store v.covered in
      let peer_valid : IsValidPeer c.peer.value = rw peer (v.peers_valid params.src_eid) in
      let (g', covered', i) =
        lz_receive-store h o fees tokens escrow calls c params s.world
          (ap (λ (x : OftStore). x.token_escrow) store ∙ at) good covered e in
      (
        record {
          good = g';
          covered = covered';
          peers_valid = set_peer-valid h o s.peers params.src_eid r.peer v.peers_valid (
              limit_inbound-IsValidPeer (o.clock s.world) c.peer.value run.amount_ld peer_valid
                run.limited);
        },
        subst (λ (x : OftStore). SameIdentity x r.oft_store) store i,
      )
  Step-IsSound {s} at (Step.withdraws c params w store loaded e) v =
      let (_, covered) = withdraw_fee-IsCovered h o tokens c params s.world loaded e in
      (
        record {
          good = v.good;
          covered = subst (λ (x : OftStore). IsCovered h o x w) store covered;
          peers_valid = v.peers_valid;
        },
        SameIdentity-refl s.store,
      )
  Step-IsSound {s} at (Step.configures c params store' w store e) v =
      let (_, f) = set_oft_config-ConfigEffect h c params s.world e in
      let f' : ConfigEffect s.store store' =
        subst (λ (x : OftStore). ConfigEffect x store') store f in
      let (g, covered) =
        config_sound h o s.store s.world f'
          (rw at (set_oft_config-NoLoss h o escrow calls c params s.world e)) v.good v.covered in
      (record { good = g; covered = covered; peers_valid = v.peers_valid }, f'.same_identity)
  Step-IsSound {s} at (Step.pauses c paused store' store e) v =
      let f' : ConfigEffect s.store store' =
        subst (λ (x : OftStore). ConfigEffect x store') store
          (set_pause-ConfigEffect h c paused e) in
      let (g, covered) = config_sound h o s.store s.world f' (le_refl _) v.good v.covered in
      (record { good = g; covered = covered; peers_valid = v.peers_valid }, f'.same_identity)
  Step-IsSound {s} at (Step.sets_peer c params p store peer fits e) v =
      let peer_valid : IsValidPeer c.peer.value = rw peer (v.peers_valid params.remote_eid) in
      let (_, valid) = set_peer_config-IsValidPeer h (o.clock s.world) c params fits peer_valid e in
      (
        record {
          good = v.good;
          covered = v.covered;
          peers_valid = set_peer-valid h o s.peers params.remote_eid p v.peers_valid valid;
        },
        SameIdentity-refl s.store,
      )
  Step-IsSound {s} at (Step.others w keeps) v = (
    record { good = v.good; covered = le_trans v.covered keeps; peers_valid = v.peers_valid },
    SameIdentity-refl s.store,
  )

  -- If the programs that are called keep their laws and, transfers apart, take nothing from the
  -- escrow of the store, the program reaches from a sound state only sound states: the escrow holds
  -- at least the locked value, the rate is not 0, a native OFT locks nothing, every fee is below
  -- 100% and every limiter is valid. The fields of the store that state/oft.rs calls immutable do
  -- not change.
  pub Reach-IsSound :
      {start s : Chain h o}
      → IsSound h o start
      → start.store.token_escrow ≡ escrow
      → Reach h o start s
      → IsSound h o s × SameIdentity start.store s.store
  Reach-IsSound {start} v at Reach.here = (v, SameIdentity-refl start.store)
  Reach-IsSound {start} v at (Reach.next r step) =
      let (v1, i1) = Reach-IsSound v at r in
      let (v2, i2) = Step-IsSound (i1.token_escrow ∙ at) step v1 in (v2, SameIdentity-trans i1 i2)
