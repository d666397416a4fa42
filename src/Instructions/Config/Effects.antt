-- ===== src/Instructions/Config/Effects.antt =====
-- The settings of set_oft_config.rs and set_pause.rs, and who may call them.
use cross_chain_contracts.Common.{
  ℕ, ◌≡◌, ◌<◌, ◌⊎◌, ◌≢◌, ap, Bool-cases, bytes_eq_refl, inl, inr, refl, Bool, true, false, Option,
  none, some, subst, arith, bytes_eq, bytes_eq→eq, List,
}
use cross_chain_contracts.Errors.{
  ok, err, oft, unauthorized, require, >>=-eq-ok, >>-eq-ok, require-eq-ok,
}
use cross_chain_contracts.State.OftStore.{OftStore}
use cross_chain_contracts.State.OftStore.Identity.{SameIdentity}
use cross_chain_contracts.Platform.{Host}
use cross_chain_contracts.Solvency.Laws.{Reading, NoLoss, CallLaws}
use cross_chain_contracts.Instructions.Accounts.{check_store, is_key}
use cross_chain_contracts.Instructions.Config.{
  SetOftConfigParams, SetOftConfigContext, SetPauseContext, is_valid_signer, apply_config,
  set_oft_config, set_pause,
}

-- The settings of a store other than its identity are what the admin says; the locked value is not.
pub record ConfigEffect (s s' : OftStore) : Type 0 where
  pub same_identity : SameIdentity s s'
  pub same_tvl : s'.tvl_ld ≡ s.tvl_ld
  pub fee_low : s.default_fee_bps < 10_000 → s'.default_fee_bps < 10_000

-- The key that may set the flag to `paused`, if there is one.
abbrev pub role : Bool → OftStore → Option (List ℕ)
role true s = s.pauser
role false s = s.unpauser

is_key_cases :
    (k : Option (List ℕ)) (key : List ℕ)
    → ((k ≡ some key) × (is_key k key ≡ true)) ⊎ ((k ≢ some key) × (is_key k key ≡ false))
is_key_cases none key = inr (λ e. cc, refl)
is_key_cases (some k) key = elim (Bool-cases (bytes_eq k key)) [
  | inl same ↦ inl (ap some (bytes_eq→eq k key same), same)
  | inr other ↦ inr (λ e. cc (bytes_eq_refl k), other)
]

signer_cases :
    (signer : List ℕ) (s : OftStore) (paused : Bool)
    → ((role paused s ≡ some signer) × (is_valid_signer signer s paused ≡ true))
      ⊎ ((role paused s ≢ some signer) × (is_valid_signer signer s paused ≡ false))
unfolding is_valid_signer
signer_cases signer s true = is_key_cases s.pauser signer
signer_cases signer s false = is_key_cases s.unpauser signer

module _ (h : Host) where
  apply_config-ConfigEffect :
      (c : SetOftConfigContext) (params : SetOftConfigParams) (w : h.World) {s' : OftStore}
      {w' : h.World}
      → apply_config h c params w ≡ ok (s', w')
      → ConfigEffect c.oft_store.value s'
  unfolding apply_config
  apply_config-ConfigEffect c (SetOftConfigParams.set_admin x) w e = ground arith
  apply_config-ConfigEffect c (SetOftConfigParams.set_delegate x) w e = ground arith
  apply_config-ConfigEffect c (SetOftConfigParams.set_default_fee x) w e = ground arith
  apply_config-ConfigEffect c (SetOftConfigParams.set_paused x) w e = ground arith
  apply_config-ConfigEffect c (SetOftConfigParams.set_pauser x) w e = ground arith
  apply_config-ConfigEffect c (SetOftConfigParams.set_unpauser x) w e = ground arith

  -- `set_oft_config` succeeds only for the admin of the store. It changes neither the fields that
  -- state/oft.rs calls immutable nor the locked value, and keeps the default fee below 100%.
  pub set_oft_config-ConfigEffect :
      (c : SetOftConfigContext) (params : SetOftConfigParams) (w : h.World) {s' : OftStore}
      {w' : h.World}
      → set_oft_config h c params w ≡ ok (s', w')
      → (c.oft_store.value.admin ≡ c.admin) × ConfigEffect c.oft_store.value s'
  unfolding set_oft_config
  set_oft_config-ConfigEffect c params w e =
      let e1 = >>-eq-ok (check_store h c.oft_store) _ e in
      let (_, allowed, e2) =
        >>=-eq-ok (require (bytes_eq c.oft_store.value.admin c.admin) (oft unauthorized)) _ e1 in
      (
        bytes_eq→eq c.oft_store.value.admin c.admin (require-eq-ok _ (oft unauthorized) allowed),
        apply_config-ConfigEffect c params w e2,
      )

  -- Where the store's address is right, `set_pause` sets the flag, and nothing else, for the one
  -- key that may do it (the pauser to pause, the unpauser to unpause), and refuses all others.
  pub set_pause_lem :
      (c : SetPauseContext) (paused : Bool)
      → check_store h c.oft_store ≡ ok tt
      → ((role paused c.oft_store.value ≡ some c.signer)
          × (set_pause h c paused ≡ ok (record (c.oft_store.value) { paused = paused })))
        ⊎ ((role paused c.oft_store.value ≢ some c.signer)
            × (set_pause h c paused ≡ err (oft unauthorized)))
  unfolding set_pause
  set_pause_lem c paused e = elim (signer_cases c.signer c.oft_store.value paused) [
    | inl (mine, passes) ↦ inl (mine, rw (e, passes))
    | inr (other, fails) ↦ inr (other, rw (e, fails))
  ]

  pub set_pause-ConfigEffect :
      (c : SetPauseContext) (paused : Bool) {s' : OftStore}
      → set_pause h c paused ≡ ok s'
      → ConfigEffect c.oft_store.value s'
  unfolding set_pause
  set_pause-ConfigEffect c paused e = ground arith

module _ (h : Host) (o : Reading h) (escrow : List ℕ) (calls : CallLaws h o escrow) where
  apply_config-NoLoss :
      (c : SetOftConfigContext) (params : SetOftConfigParams) (w : h.World) {s' : OftStore}
      {w' : h.World}
      → apply_config h c params w ≡ ok (s', w')
      → NoLoss h o escrow w w'
  unfolding apply_config
  apply_config-NoLoss c (SetOftConfigParams.set_admin x) w e = ground arith
  apply_config-NoLoss c (SetOftConfigParams.set_delegate x) w {s'} {w'} e =
      let (w1, called, e1) =
        >>=-eq-ok
          (h.set_delegate c.oft_store.value.endpoint_program c.oft_store.key c.remaining_accounts _
            _ w)
          _ e in
      let same : w1 ≡ w' = ground (arith, e1) in
      subst (λ (x : h.World). NoLoss h o escrow w x) same (calls.delegate_keeps called)
  apply_config-NoLoss c (SetOftConfigParams.set_default_fee x) w e = ground arith
  apply_config-NoLoss c (SetOftConfigParams.set_paused x) w e = ground arith
  apply_config-NoLoss c (SetOftConfigParams.set_pauser x) w e = ground arith
  apply_config-NoLoss c (SetOftConfigParams.set_unpauser x) w e = ground arith

  pub set_oft_config-NoLoss :
      (c : SetOftConfigContext) (params : SetOftConfigParams) (w : h.World) {s' : OftStore}
      {w' : h.World}
      → set_oft_config h c params w ≡ ok (s', w')
      → NoLoss h o escrow w w'
  unfolding set_oft_config
  set_oft_config-NoLoss c params w e =
      let e1 = >>-eq-ok (check_store h c.oft_store) _ e in
      let e2 =
        >>-eq-ok (require (bytes_eq c.oft_store.value.admin c.admin) (oft unauthorized)) _ e1 in
      apply_config-NoLoss c params w e2
