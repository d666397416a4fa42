-- ===== src/Instructions/InitOft/Store.antt =====
-- The store that init_oft.rs leaves, as the start of the program.
use cross_chain_contracts.Common.{
  ℕ, ◌-◌, ◌^◌, ◌≤◌, ◌<◌, ◌≡◌, inr, arith, zero, suc, ap, sym, none, false, leb, bytes_eq→eq,
}
use cross_chain_contracts.Errors.{ok, oft, invalid_decimals, require, >>=-eq-ok, ok-injective}
use cross_chain_contracts.Words.{IsU64, pow_u64}
use cross_chain_contracts.State.OftStore.{OftStore, LzReceiveTypesAccounts}
use cross_chain_contracts.State.PeerConfig.{PeerConfig}
use cross_chain_contracts.Instructions.Accounts.{store_seeds}
use cross_chain_contracts.Instructions.InitOft.Checked.{init_oft_checked}
use cross_chain_contracts.State.PeerConfig.Valid.{IsValidPeer}
use cross_chain_contracts.Platform.{Host}
use cross_chain_contracts.Solvency.Laws.{Reading}
use cross_chain_contracts.Program.Stores.{IsGoodStore}
use cross_chain_contracts.Program.Sound.{IsSound}
use cross_chain_contracts.Instructions.InitOft.{
  InitOftContext, InitOftParams, check_accounts, apply, init_oft, endpoint_or,
}

pow_pos : (n : ℕ) → 0 < 10 ^ n
pow_pos zero = omega arith
pow_pos (suc n) = omega (arith, pow_pos n)

module _ (h : Host) where
  -- If `init_oft` succeeds, the mint has at least the shared decimals and the store stands at the
  -- address that its seeds find. It is open and empty, without fee, pauser and unpauser, with the
  -- bump that was found, the type and the admin of the parameters, the mint and the escrow of the
  -- call, the endpoint of the parameters or else the default one, and a rate that is the power of
  -- ten between local and shared decimals and fits a u64; this is a well-formed store. The account
  -- for `lz_receive_types` holds the addresses of the store and of the mint.
  pub init_oft-store :
      (c : InitOftContext) (params : InitOftParams) (w : h.World) {s : OftStore}
      {t : LzReceiveTypesAccounts} {w' : h.World}
      → init_oft h c params w ≡ ok (s, t, w')
      → let (store, store_bump) =
          h.find_program_address (store_seeds c.token_escrow) h.program_id in
        (params.shared_decimals ≤ c.token_mint.decimals)
        × (store ≡ c.oft_store)
        × (s ≡ record {
          oft_type = params.oft_type;
          ld2sd_rate = 10 ^ (c.token_mint.decimals - params.shared_decimals);
          token_mint = c.token_mint.key;
          token_escrow = c.token_escrow;
          endpoint_program = endpoint_or h.endpoint_id params.endpoint_program;
          bump = store_bump;
          tvl_ld = 0;
          admin = params.admin;
          default_fee_bps = 0;
          paused = false;
          pauser = none;
          unpauser = none;
        })
        × (t ≡ record { oft_store = c.oft_store; token_mint = c.token_mint.key })
        × IsU64 s.ld2sd_rate
        × IsGoodStore s
  unfolding init_oft apply pow_u64
  init_oft-store c params w {s} {t} {w'} e =
      let exponent : ℕ = c.token_mint.decimals - params.shared_decimals in
      let endpoint = endpoint_or h.endpoint_id params.endpoint_program in
      let (store_bump, checked, e1) = >>=-eq-ok (check_accounts h c) _ e in
      let (placed, found) = init_oft_checked h c checked in
      let (_, enough, e2) =
        >>=-eq-ok
          (require (leb params.shared_decimals c.token_mint.decimals) (oft invalid_decimals)) _
          e1 in
      let (rate, power, e3) = >>=-eq-ok (pow_u64 10 exponent) _ e2 in
      let (w1, _, e4) =
        >>=-eq-ok (h.register_oapp endpoint c.oft_store c.remaining_accounts _ _ w) _ e3 in
      let left = ok-injective e4 in
      let raised : (rate ≡ 10 ^ exponent) × IsU64 rate = ground (arith, power) in
      let kept : s.ld2sd_rate ≡ rate = ground (arith, e4) in
      (
        ground (arith, enough),
        bytes_eq→eq _ c.oft_store placed,
        rw (found, ← raised.0) (sym (ap (λ x. x.0) left)),
        sym (ap (λ x. x.1) left),
        omega (arith, kept, raised),
        record {
          rate_pos = omega (arith, kept, raised, pow_pos exponent);
          fee_low = ground (arith, e4);
          native_empty = inr (ground (arith, e4));
        },
      )

-- If `init_oft` succeeds, the chain that it starts is sound with any valid peers, whatever the
-- escrow holds.
pub init_oft-IsSound :
    (h : Host) (o : Reading h) (c : InitOftContext) (params : InitOftParams) (w : h.World)
    (peers : ℕ → PeerConfig) {s : OftStore} {t : LzReceiveTypesAccounts} {w' : h.World}
    → ((eid : ℕ) → IsValidPeer (peers eid))
    → init_oft h c params w ≡ ok (s, t, w')
    → IsSound h o (record { store = s; peers = peers; world = w' })
init_oft-IsSound h o c params w peers valid e =
    let (_, _, fields, _, _, good) = init_oft-store h c params w e in
    record {
      good = good;
      covered = omega (arith, ap (λ (x : OftStore). x.tvl_ld) fields);
      peers_valid = valid;
    }
