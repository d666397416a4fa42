-- ===== src/Instructions/Addresses.antt =====
-- The program-derived addresses that init_oft.rs and set_peer_config.rs make, against the seeds of
-- the other instructions.
use cross_chain_contracts.Common.{
  ℕ, ◌≡◌, ap, arith, some, true, List, bytes_eq, bytes_eq→eq, get_elem?, false, leb, ◌-◌,
}
use cross_chain_contracts.Errors.{
  Result, ok, oft, invalid_decimals, unauthorized, constraint, seeds, require, >>=-eq-ok, >>-eq-ok,
  ok-injective, require-eq-ok,
}
use cross_chain_contracts.Words.{pow_u64}
use cross_chain_contracts.State.RateLimiter.{Clock}
use cross_chain_contracts.State.OftStore.{OftStore, LzReceiveTypesAccounts}
use cross_chain_contracts.State.PeerConfig.{PeerConfig}
use cross_chain_contracts.Platform.{Host}
use cross_chain_contracts.Platform.Cpi.{LzReceiveParams}
use cross_chain_contracts.Platform.Laws.{PdaLaws}
use cross_chain_contracts.Instructions.Accounts.{
  check_seeds, check_store, check_peer, store_seeds, peer_seeds,
}
use cross_chain_contracts.Instructions.Config.Peer.{
  SetPeerConfigContext, SetPeerConfigParams, configure, set_peer_config,
}
use cross_chain_contracts.Instructions.InitOft as InitOft
use cross_chain_contracts.Instructions.InitOft.{InitOftContext, InitOftParams, init_oft}
use cross_chain_contracts.Instructions.InitOft.Checked.{init_oft_checked}
use cross_chain_contracts.Instructions.LzReceiveTypes.{
  LzReceiveTypesContext, account, fixed_accounts,
}

module _ (h : Host) (pda : PdaLaws h) where
  pub check_seeds_lem :
      (parts : List (List ℕ)) (bump : ℕ) (key : List ℕ)
      → bytes_eq (h.find_program_address parts h.program_id).0 key ≡ true
      → (h.find_program_address parts h.program_id).1 ≡ bump
      → check_seeds h parts bump key ≡ ok tt
  unfolding check_seeds
  check_seeds_lem parts bump key same found = rw (← found, pda.found parts h.program_id, same)

  -- Where an address that is found is what its seeds and bump create: if `set_peer_config`
  -- succeeds, then the peer that it leaves, at the address of the call, passes the check of seeds
  -- of `send` and `lz_receive` for the same store and endpoint id; and among the fixed accounts of
  -- `lz_receive_types`, for a message from that endpoint id to that store, it is that address which
  -- stands at the place 1, writable and no signer.
  pub set_peer_config-check_peer :
      (clock : Result Clock) (c : SetPeerConfigContext) (params : SetPeerConfigParams)
      (t : LzReceiveTypesContext) (message : LzReceiveParams) (to_address : List ℕ) {p : PeerConfig}
      → t.oft_store.key ≡ c.oft_store.key
      → message.src_eid ≡ params.remote_eid
      → set_peer_config h clock c params ≡ ok p
      → (check_peer h (record { key = c.peer.key; value = p }) c.oft_store params.remote_eid
          ≡ ok tt)
        × (get_elem? (fixed_accounts h t message to_address) 1
            ≡ some (account c.peer.key false true))
  unfolding set_peer_config check_peer fixed_accounts
  set_peer_config-check_peer clock c params t message to_address {p} store eid e =
      let parts = peer_seeds c.oft_store.key params.remote_eid in
      let found = h.find_program_address parts h.program_id in
      let (_, placed, e1) =
        >>=-eq-ok (require (bytes_eq found.0 c.peer.key) (constraint seeds)) _ e in
      let e2 = >>-eq-ok (check_store h c.oft_store) _ e1 in
      let e3 =
        >>-eq-ok (require (bytes_eq c.oft_store.value.admin c.admin) (oft unauthorized)) _ e2 in
      let (p1, _, e4) = >>=-eq-ok (configure h clock c.peer.value params.config) _ e3 in
      let same = require-eq-ok _ (constraint seeds) placed in
      (
        check_seeds_lem parts p.bump c.peer.key same
            (ap (λ (x : PeerConfig). x.bump) (ok-injective e4)),
        rw (store, eid)
            (ap (λ (k : List ℕ). some (account k false true))
              (bytes_eq→eq found.0 c.peer.key same)),
      )

  init_oft_bump :
      (c : InitOftContext) (params : InitOftParams) (store_bump : ℕ) (w : h.World) {s : OftStore}
      {t : LzReceiveTypesAccounts} {w' : h.World}
      → InitOft.apply h c params store_bump w ≡ ok (s, t, w')
      → (s.bump ≡ store_bump) × (s.token_escrow ≡ c.token_escrow)
  unfolding InitOft.apply
  init_oft_bump c params store_bump w e =
      let e1 =
        >>-eq-ok (require (leb params.shared_decimals c.token_mint.decimals) (oft invalid_decimals))
          _ e in
      let (rate, _, e2) =
        >>=-eq-ok (pow_u64 10 (c.token_mint.decimals - params.shared_decimals)) _ e1 in
      let (w1, _, e3) =
        >>=-eq-ok
          (h.register_oapp (InitOft.endpoint_or h.endpoint_id params.endpoint_program) c.oft_store
            c.remaining_accounts _ _ w)
          _ e2 in
      (ground (arith, e3), ground (arith, e3))

  -- Where an address that is found is what its seeds and bump create: if `init_oft` succeeds, then
  -- the store that it leaves, at the address of the call, passes the check of seeds that every
  -- other instruction makes of a store.
  pub init_oft-check_store :
      (c : InitOftContext) (params : InitOftParams) (w : h.World) {s : OftStore}
      {t : LzReceiveTypesAccounts} {w' : h.World}
      → init_oft h c params w ≡ ok (s, t, w')
      → check_store h (record { key = c.oft_store; value = s }) ≡ ok tt
  unfolding init_oft check_store
  init_oft-check_store c params w {s} e =
      let (store_bump, checked, e1) = >>=-eq-ok (InitOft.check_accounts h c) _ e in
      let (placed, found) = init_oft_checked h c checked in
      let (bump, escrow) = init_oft_bump c params store_bump w e1 in
      rw (escrow, bump)
        (check_seeds_lem (store_seeds c.token_escrow) store_bump c.oft_store placed found)
