-- ===== src/State/OftStore/Conversion.antt =====
-- The conversions of state/oft.rs and its dust removal.
use cross_chain_contracts.Common.{ℕ, ◌-◌, ◌*◌, ◌/◌, ◌≤◌, ◌<◌, ◌≡◌, refl, ◌∙◌, arith}
use cross_chain_contracts.Errors.{ok, ◌>>=◌}
use cross_chain_contracts.Words.{IsU64, div_u64, rem_u64, mul_u64, sub_u64}
use cross_chain_contracts.State.OftStore.{OftStore, ld2sd, sd2ld, remove_dust}
use native.Mathlib.Nat.{div-add-mod, mul-div_cancel, mul-sub, mul_comm}
use mathlib.Core.Path.{ap₂}

-- The amount is a whole number of shared units.
pub record IsClean (rate amount : ℕ) : Type 0 where
  pub units : ℕ
  pub whole : units * rate ≡ amount

-- The largest whole number of shared units in an amount.
abbrev pub cleaned : ℕ → ℕ → ℕ
cleaned rate amount = amount / rate * rate

pub cleaned-le : (rate amount : ℕ) → cleaned rate amount ≤ amount
cleaned-le rate amount = omega (arith, div-add-mod amount rate)

pub cleaned-IsClean : (rate amount : ℕ) → IsClean rate (cleaned rate amount)
cleaned-IsClean rate amount = record { units = amount / rate; whole = refl }

pub remove_dust_lem :
    (s : OftStore) (amount : ℕ)
    → 0 < s.ld2sd_rate
    → remove_dust s amount ≡ ok (cleaned s.ld2sd_rate amount)
unfolding remove_dust rem_u64 sub_u64
remove_dust_lem s amount h = ground (arith, div-add-mod amount s.ld2sd_rate)

sub_mul : (u v rate : ℕ) → (u - v) * rate ≡ u * rate - v * rate
sub_mul u v rate =
    mul_comm (u - v) rate
    ∙ mul-sub rate u v
    ∙ ap₂ (λ (x : ℕ) (y : ℕ). x - y) (mul_comm rate u) (mul_comm rate v)

pub sub-IsClean : {rate a b : ℕ} → IsClean rate a → IsClean rate b → IsClean rate (a - b)
sub-IsClean {rate} c d = record {
  units = c.units - d.units;
  whole = sub_mul c.units d.units rate ∙ ap₂ (λ (x : ℕ) (y : ℕ). x - y) c.whole d.whole;
}

-- A clean amount is converted to shared decimals without loss: it divides to its whole number of
-- units, and what the receiver computes from that is the amount.
pub ld2sd_lem :
    (s : OftStore) {amount : ℕ}
    → 0 < s.ld2sd_rate
    → IsClean s.ld2sd_rate amount
    → (units : ℕ) × (units ≤ amount) × (ld2sd s amount ≡ ok units) × (units * s.ld2sd_rate ≡ amount)
unfolding ld2sd div_u64
ld2sd_lem s {amount} h c =
    let e : amount / s.ld2sd_rate ≡ c.units = rw (← c.whole) (mul-div_cancel c.units h) in
    (c.units, grind arith, ground (arith, e), c.whole)

-- For a rate that is not 0, a u64 amount without dust survives the wire: what the sender divides by
-- the rate, the receiver multiplies back to the same amount, and neither step fails.
pub sd2ld-ld2sd :
    (s : OftStore) {amount : ℕ}
    → 0 < s.ld2sd_rate
    → IsU64 amount
    → IsClean s.ld2sd_rate amount
    → (ld2sd s amount >>= sd2ld s) ≡ ok amount
unfolding sd2ld mul_u64
sd2ld-ld2sd s h fits c =
    let (units, _, sent, whole) = ld2sd_lem s h c in rw sent (ground (arith, whole))
