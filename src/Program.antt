-- ===== src/Program.antt =====
-- lib.rs: the program as a transition system. A step is one instruction that succeeds on accounts
-- as they are stored, or something that other programs do; a failing instruction changes nothing.
pub mod Stores
pub mod Sound
use cross_chain_contracts.Common.{
  ℕ, ◌≤◌, ◌≡◌, ◌≢◌, Bool, true, false, Option, some, List, ◌==◌, if◌then◌else◌,
}
use cross_chain_contracts.Errors.{Result, ok}
use cross_chain_contracts.Words.{IsU64}
use cross_chain_contracts.State.OftStore.{OftStore}
use cross_chain_contracts.State.PeerConfig.{PeerConfig}
use cross_chain_contracts.Platform.{Host}
use cross_chain_contracts.Platform.Cpi.{LzReceiveParams}
use cross_chain_contracts.Solvency.Laws.{Reading, IsLoaded}
use cross_chain_contracts.Instructions.Send.{SendContext, SendParams, Sent, send}
use cross_chain_contracts.Instructions.LzReceive.{LzReceiveContext, Received, lz_receive}
use cross_chain_contracts.Instructions.WithdrawFee.{
  WithdrawFeeContext, WithdrawFeeParams, withdraw_fee,
}
use cross_chain_contracts.Instructions.Config.{
  SetOftConfigContext, SetOftConfigParams, SetPauseContext, set_oft_config, set_pause,
}
use cross_chain_contracts.Instructions.Config.Peer.{
  SetPeerConfigContext, SetPeerConfigParams, set_peer_config,
}
use cross_chain_contracts.Instructions.Config.PeerEffects.{IsParam}

module _ (h : Host) (o : Reading h) where
  -- One store, its peers by endpoint id, and the world.
  pub record Chain : Type 0 where
    pub store : OftStore
    pub peers : ℕ → PeerConfig
    pub world : h.World

  abbrev pub set_peer : (ℕ → PeerConfig) → ℕ → PeerConfig → ℕ → PeerConfig
  set_peer peers eid p i = if i == eid then p else peers i

  pub data Step (s : Chain) : Chain → Type 0 where
    sends :
        (c : SendContext) (params : SendParams) (r : Sent h)
        → c.oft_store.value ≡ s.store
        → c.peer.value ≡ s.peers params.dst_eid
        → IsU64 params.amount_ld
        → IsLoaded h o c s.world
        → send h (o.clock s.world) c params s.world ≡ ok r
        → Step s (record {
          store = r.oft_store;
          peers = set_peer s.peers params.dst_eid r.peer;
          world = r.world;
        })
    receives :
        (c : LzReceiveContext) (params : LzReceiveParams) (r : Received h)
        → c.oft_store.value ≡ s.store
        → c.peer.value ≡ s.peers params.src_eid
        → lz_receive h (o.clock s.world) c params s.world ≡ ok r
        → Step s (record {
          store = r.oft_store;
          peers = set_peer s.peers params.src_eid r.peer;
          world = r.world;
        })
    withdraws :
        (c : WithdrawFeeContext) (params : WithdrawFeeParams) (w : h.World)
        → c.oft_store.value ≡ s.store
        → c.token_escrow.amount ≡ o.balance s.world c.token_escrow.key
        → withdraw_fee h c params s.world ≡ ok w
        → Step s (record s { world = w })
    configures :
        (c : SetOftConfigContext) (params : SetOftConfigParams) (store : OftStore) (w : h.World)
        → c.oft_store.value ≡ s.store
        → set_oft_config h c params s.world ≡ ok (store, w)
        → Step s (record s { store = store; world = w })
    pauses :
        (c : SetPauseContext) (paused : Bool) (store : OftStore)
        → c.oft_store.value ≡ s.store
        → set_pause h c paused ≡ ok store
        → Step s (record s { store = store })
    sets_peer :
        (c : SetPeerConfigContext) (params : SetPeerConfigParams) (p : PeerConfig)
        → c.oft_store.value ≡ s.store
        → c.peer.value ≡ s.peers params.remote_eid
        → IsParam params.config
        → set_peer_config h (o.clock s.world) c params ≡ ok p
        → Step s (record s { peers = set_peer s.peers params.remote_eid p })
    -- Other programs: only the store can take tokens from the escrow.
    others :
        (w : h.World)
        → o.balance s.world s.store.token_escrow ≤ o.balance w s.store.token_escrow
        → Step s (record s { world = w })

  pub data Reach (start : Chain) : Chain → Type 0 where
    here : Reach start start
    next : {s t : Chain} → Reach start s → Step s t → Reach start t
