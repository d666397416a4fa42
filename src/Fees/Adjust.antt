-- ===== src/Fees/Adjust.antt =====
-- `compute_fee_and_adjust_amount` of instructions/quote_send.rs: its three amounts, for both types
-- of OFT.
use cross_chain_contracts.Common.{
  ℕ, ◌+◌, ◌-◌, ◌≤◌, ◌<◌, ◌≡◌, arith, true, false, Option, Bool-cases, inl, inr,
}
use cross_chain_contracts.Errors.{Result, ok, >>=-eq-ok}
use cross_chain_contracts.Words.{IsU64, sub_u64}
use cross_chain_contracts.State.RateLimiter.{Clock}
use cross_chain_contracts.State.OftStore.{OftStore, is_adapter}
use cross_chain_contracts.State.OftStore.Conversion.{
  IsClean, cleaned, cleaned-le, cleaned-IsClean, remove_dust_lem, sub-IsClean,
}
use cross_chain_contracts.Platform.{Host}
use cross_chain_contracts.Platform.Cpi.{Mint}
use cross_chain_contracts.Platform.Laws.{FeeLaws}
use cross_chain_contracts.Fees.{
  final_fee_bps, get_post_fee_amount_ld, compute_fee_and_adjust_amount,
}
use cross_chain_contracts.Fees.OftFee.{share, share-le, calculate_fee_lem}
use cross_chain_contracts.Fees.Withheld.{post_fee_le, pre_fee_of_post}

-- The OFT fee on a gross amount: the share of it, less dust.
abbrev pub oft_fee : ℕ → ℕ → ℕ → ℕ
oft_fee rate bps gross = cleaned rate (share bps gross)

-- What a successful answer promises.
pub record IsSplit (h : Host) (clock : Result Clock) (s : OftStore) (m : Mint)
    (amount sent received fee : ℕ) : Type 0 where
  pub received_clean : IsClean s.ld2sd_rate received
  pub fee_clean : IsClean s.ld2sd_rate fee
  pub covered : received + fee ≤ sent
  pub offered : sent ≤ amount
  pub arrives :
      is_adapter s.oft_type ≡ true
      → (arrived : ℕ) × (get_post_fee_amount_ld h clock m sent ≡ ok arrived)
        × (received + fee ≤ arrived)

module _ (h : Host) (clock : Result Clock) (s : OftStore) (m : Mint) (amount : ℕ)
    (fee_bps : Option ℕ) (rate_pos : 0 < s.ld2sd_rate)
    (low : final_fee_bps s.default_fee_bps fee_bps ≤ 10_000) (fits : IsU64 amount) where
  abbrev bps : ℕ
  bps = final_fee_bps s.default_fee_bps fee_bps

  oft_fee-le : (gross : ℕ) → oft_fee s.ld2sd_rate bps gross ≤ gross
  oft_fee-le gross =
      omega (arith, cleaned-le s.ld2sd_rate (share bps gross), share-le bps gross low)

  -- With a rate that is not 0, a fee of at most 100% and a u64 amount, a native OFT never fails: it
  -- sends the amount less its dust, and takes off the OFT fee, the share in basis points less its
  -- dust.
  pub native_amounts :
      is_adapter s.oft_type ≡ false
      → let gross = cleaned s.ld2sd_rate amount in
        let fee = oft_fee s.ld2sd_rate bps gross in
        compute_fee_and_adjust_amount h clock amount s m fee_bps ≡ ok (gross, gross - fee, fee)
  unfolding compute_fee_and_adjust_amount sub_u64
  native_amounts kind =
      let gross : ℕ = cleaned s.ld2sd_rate amount in
      let small : IsU64 gross = omega (arith, cleaned-le s.ld2sd_rate amount) in
      rw
        (
          kind,
          remove_dust_lem s amount rate_pos,
          calculate_fee_lem gross s.default_fee_bps fee_bps small low,
          remove_dust_lem s (share bps gross) rate_pos,
        )
        (ground (arith, oft_fee-le gross))

  -- With a rate that is not 0, a fee of at most 100%, a u64 amount and a mint fee that keeps its
  -- laws, an adapter succeeds where the transfer fee of the mint can be read. The gross amount is
  -- what arrives of the amount offered, less dust; the receiver gets it less the OFT fee. What the
  -- sender is asked for is at most the amount offered, and enough that the gross amount arrives in
  -- the escrow.
  pub adapter_amounts :
      FeeLaws h
      → {q : ℕ} → is_adapter s.oft_type ≡ true
      → get_post_fee_amount_ld h clock m amount ≡ ok q
      → let gross = cleaned s.ld2sd_rate q in
        let fee = oft_fee s.ld2sd_rate bps gross in
        (sent : ℕ) × (arrived : ℕ) × (compute_fee_and_adjust_amount h clock amount s m fee_bps
          ≡ ok (sent, gross - fee, fee))
        × (get_post_fee_amount_ld h clock m sent ≡ ok arrived)
        × (sent ≤ amount)
        × (gross ≤ arrived)
  unfolding compute_fee_and_adjust_amount sub_u64
  adapter_amounts laws {q} kind post =
      let gross : ℕ = cleaned s.ld2sd_rate q in
      let below = post_fee_le h laws clock m amount fits post in
      let small : IsU64 gross = omega (arith, cleaned-le s.ld2sd_rate q) in
      let (sent, arrived, pre, post', cheap, enough) =
        pre_fee_of_post h laws clock m amount gross fits post (cleaned-le s.ld2sd_rate q) in
      (
        sent,
        arrived,
        rw
            (
              kind,
              post,
              remove_dust_lem s q rate_pos,
              pre,
              calculate_fee_lem gross s.default_fee_bps fee_bps small low,
              remove_dust_lem s (share bps gross) rate_pos,
            )
            (ground (arith, oft_fee-le gross)),
        post',
        cheap,
        enough,
      )

  IsSplit-native :
      {sent received fee : ℕ}
      → is_adapter s.oft_type ≡ false
      → compute_fee_and_adjust_amount h clock amount s m fee_bps ≡ ok (sent, received, fee)
      → IsSplit h clock s m amount sent received fee
  IsSplit-native {sent} {received} {fee} kind e =
      let gross : ℕ = cleaned s.ld2sd_rate amount in
      let f : ℕ = oft_fee s.ld2sd_rate bps gross in
      let same : (gross ≡ sent) × (gross - f ≡ received) × (f ≡ fee) =
        ground (arith, native_amounts kind) in
      let fee_is_clean : IsClean s.ld2sd_rate f = cleaned-IsClean s.ld2sd_rate (share bps gross) in
      record {
        received_clean =
            rw same.1 at (sub-IsClean (cleaned-IsClean s.ld2sd_rate amount) fee_is_clean);
        fee_clean = rw same.2 at fee_is_clean;
        covered = omega (arith, oft_fee-le gross);
        offered = omega (arith, cleaned-le s.ld2sd_rate amount);
        arrives = λ other. cc;
      }

  adapter_reads_fee :
      {t : ℕ × ℕ × ℕ}
      → is_adapter s.oft_type ≡ true
      → compute_fee_and_adjust_amount h clock amount s m fee_bps ≡ ok t
      → (q : ℕ) × (get_post_fee_amount_ld h clock m amount ≡ ok q)
  unfolding compute_fee_and_adjust_amount
  adapter_reads_fee kind e =
      let (q, post, _) = >>=-eq-ok (get_post_fee_amount_ld h clock m amount) _ (rw kind at e) in
      (q, post)

  IsSplit-adapter :
      FeeLaws h
      → {sent received fee : ℕ} → is_adapter s.oft_type ≡ true
      → compute_fee_and_adjust_amount h clock amount s m fee_bps ≡ ok (sent, received, fee)
      → IsSplit h clock s m amount sent received fee
  IsSplit-adapter laws {sent} {received} {fee} kind e =
      let (q, post) = adapter_reads_fee kind e in
      let gross : ℕ = cleaned s.ld2sd_rate q in
      let f : ℕ = oft_fee s.ld2sd_rate bps gross in
      let (sent', arrived, done, post', cheap, enough) = adapter_amounts laws kind post in
      let same : (sent' ≡ sent) × (gross - f ≡ received) × (f ≡ fee) = ground (arith, done) in
      let fee_is_clean : IsClean s.ld2sd_rate f = cleaned-IsClean s.ld2sd_rate (share bps gross) in
      let here : get_post_fee_amount_ld h clock m sent ≡ ok arrived = rw same.0 at post' in
      record {
        received_clean = rw same.1 at (sub-IsClean (cleaned-IsClean s.ld2sd_rate q) fee_is_clean);
        fee_clean = rw same.2 at fee_is_clean;
        covered =
            omega (arith, oft_fee-le gross, post_fee_le h laws clock m sent (omega arith) here);
        offered = omega arith;
        arrives = λ _. (arrived, here, omega (arith, oft_fee-le gross));
      }

-- A successful answer (sent, received, fee) under fee rates of at most 10,000 basis points:
-- `received` and `fee` are whole numbers of shared units, they sum to at most `sent`, `sent` is at
-- most the amount offered, and from an adapter's transfer of `sent` at least their sum arrives.
pub compute-IsSplit :
    (h : Host) (clock : Result Clock) (s : OftStore) (m : Mint) (amount : ℕ) (fee_bps : Option ℕ)
    (rate_pos : 0 < s.ld2sd_rate) (low : final_fee_bps s.default_fee_bps fee_bps ≤ 10_000)
    (fits : IsU64 amount) {sent received fee : ℕ}
    → FeeLaws h
    → compute_fee_and_adjust_amount h clock amount s m fee_bps ≡ ok (sent, received, fee)
    → IsSplit h clock s m amount sent received fee
compute-IsSplit h clock s m amount fee_bps rate_pos low fits laws e =
    elim (Bool-cases (is_adapter s.oft_type)) [
      | inl kind ↦ IsSplit-adapter h clock s m amount fee_bps rate_pos low fits laws kind e
      | inr kind ↦ IsSplit-native h clock s m amount fee_bps rate_pos low fits kind e
    ]
