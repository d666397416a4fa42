-- ===== src/State/OftStore/Identity.antt =====
-- The fields that the comment in state/oft.rs calls immutable.
use cross_chain_contracts.Common.{◌≡◌, refl, ap, false, ◌∙◌}
use cross_chain_contracts.State.OftStore.{OftStore, is_adapter}

pub record SameIdentity (s s' : OftStore) : Type 0 where
  pub oft_type : s'.oft_type ≡ s.oft_type
  pub ld2sd_rate : s'.ld2sd_rate ≡ s.ld2sd_rate
  pub token_mint : s'.token_mint ≡ s.token_mint
  pub token_escrow : s'.token_escrow ≡ s.token_escrow
  pub endpoint_program : s'.endpoint_program ≡ s.endpoint_program
  pub bump : s'.bump ≡ s.bump

pub SameIdentity-refl : (s : OftStore) → SameIdentity s s
SameIdentity-refl s = record {
  oft_type = refl;
  ld2sd_rate = refl;
  token_mint = refl;
  token_escrow = refl;
  endpoint_program = refl;
  bump = refl;
}

pub SameIdentity-trans : {s t u : OftStore} → SameIdentity s t → SameIdentity t u → SameIdentity s u
SameIdentity-trans a b = record {
  oft_type = b.oft_type ∙ a.oft_type;
  ld2sd_rate = b.ld2sd_rate ∙ a.ld2sd_rate;
  token_mint = b.token_mint ∙ a.token_mint;
  token_escrow = b.token_escrow ∙ a.token_escrow;
  endpoint_program = b.endpoint_program ∙ a.endpoint_program;
  bump = b.bump ∙ a.bump;
}

-- A change of the locked value alone, and of an adapter only.
pub record MovesTvl (s s' : OftStore) : Type 0 where
  pub same : s' ≡ record s { tvl_ld = s'.tvl_ld }
  pub native_same : is_adapter s.oft_type ≡ false → s' ≡ s

pub MovesTvl-SameIdentity : {s s' : OftStore} → MovesTvl s s' → SameIdentity s s'
MovesTvl-SameIdentity m = record {
  oft_type = ap (λ (x : OftStore). x.oft_type) m.same;
  ld2sd_rate = ap (λ (x : OftStore). x.ld2sd_rate) m.same;
  token_mint = ap (λ (x : OftStore). x.token_mint) m.same;
  token_escrow = ap (λ (x : OftStore). x.token_escrow) m.same;
  endpoint_program = ap (λ (x : OftStore). x.endpoint_program) m.same;
  bump = ap (λ (x : OftStore). x.bump) m.same;
}
