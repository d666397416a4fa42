-- ===== src/Fees/Withheld.antt =====
-- `get_post_fee_amount_ld` and `get_pre_fee_amount_ld` of instructions/quote_send.rs.
use cross_chain_contracts.Common.{ℕ, ◌≤◌, ◌≡◌, arith, Option, none, some, Option-cases, inl, inr}
use cross_chain_contracts.Errors.{Result, ok, ok_or, invalid_argument, >>=-eq-ok}
use cross_chain_contracts.Words.{IsU64}
use cross_chain_contracts.State.RateLimiter.{Clock}
use cross_chain_contracts.Platform.{Host}
use cross_chain_contracts.Platform.Cpi.{Mint, TransferFee}
use cross_chain_contracts.Platform.Laws.{FeeLaws, IsFee, post_fee}
use cross_chain_contracts.Fees.{get_post_fee_amount_ld, get_pre_fee_amount_ld}
use cross_chain_contracts.Fees.PreFee.{calculate_pre_fee_amount}
use cross_chain_contracts.Fees.PreFee.Inverse.{pre_fee_enough, pre_fee_least}
use native.Mathlib.Nat.{le_refl}

module _ (h : Host) (laws : FeeLaws h) (clock : Result Clock) (m : Mint) where
  -- What a mint's data says of the fee: none, or one that is valid.
  data FeeOf : Option TransferFee → Type 0 where
    free :
        ((a : ℕ) → get_post_fee_amount_ld h clock m a ≡ ok a)
        → ((a : ℕ) → get_pre_fee_amount_ld h clock m a ≡ ok a)
        → FeeOf none
    charged :
        (fee : TransferFee)
        → IsFee fee
        → ((a : ℕ)
            → get_post_fee_amount_ld h clock m a
              ≡ ok_or (h.calculate_post_fee_amount fee a) invalid_argument)
        → ((a : ℕ)
            → get_pre_fee_amount_ld h clock m a
              ≡ ok_or (calculate_pre_fee_amount fee a) invalid_argument)
        → FeeOf (some fee)

  fee_of :
      (a : ℕ) {q : ℕ}
      → get_post_fee_amount_ld h clock m a ≡ ok q
      → (f : Option TransferFee) × FeeOf f
  unfolding get_post_fee_amount_ld get_pre_fee_amount_ld
  fee_of a e =
      let (bytes, read, e1) = >>=-eq-ok m.bytes _ e in
      let (ext, unpacked, e2) = >>=-eq-ok (h.unpack bytes) _ e1 in
      elim (Option-cases (h.get_extension ext)) [
        | inl absent ↦
            (none, free (λ b. rw (read, unpacked, absent)) (λ b. rw (read, unpacked, absent)))
        | inr (config, present) ↦
            let (c, now, _) = >>=-eq-ok clock _ (rw present at e2) in
            (
              some (h.get_epoch_fee config c.epoch),
              charged (h.get_epoch_fee config c.epoch) (laws.epoch_fee config c.epoch)
                  (λ b. rw (read, unpacked, present, now)) (λ b. rw (read, unpacked, present, now)),
            )
      ]

  post_fee_le_of :
      {f : Option TransferFee} (a : ℕ) {q : ℕ}
      → FeeOf f
      → IsU64 a
      → get_post_fee_amount_ld h clock m a ≡ ok q
      → q ≤ a
  post_fee_le_of a (free post _) fits e = ground (arith, post a)
  post_fee_le_of a (charged fee good post _) fits e =
      ground (arith, post a, laws.post_fee_amount fee a good fits)

  -- No more arrives than is sent.
  pub post_fee_le : (a : ℕ) {q : ℕ} → IsU64 a → get_post_fee_amount_ld h clock m a ≡ ok q → q ≤ a
  post_fee_le a fits e = post_fee_le_of a (fee_of a e).1 fits e

  pre-FeeOf_post :
      {f : Option TransferFee} (a wanted : ℕ) {q : ℕ}
      → FeeOf f
      → IsU64 a
      → get_post_fee_amount_ld h clock m a ≡ ok q
      → wanted ≤ q
      → (p : ℕ) × (arrived : ℕ) × (get_pre_fee_amount_ld h clock m wanted ≡ ok p)
        × (get_post_fee_amount_ld h clock m p ≡ ok arrived)
        × (p ≤ a)
        × (wanted ≤ arrived)
  pre-FeeOf_post a wanted (free post pre) fits e le =
      (wanted, wanted, pre wanted, post wanted, ground (arith, post a), le_refl wanted)
  pre-FeeOf_post a wanted (charged fee good post pre) fits e le =
      let reaches : wanted ≤ post_fee fee a =
        ground (arith, post a, laws.post_fee_amount fee a good fits) in
      let (p, found, least) = pre_fee_least fee wanted a good (omega arith) fits reaches in
      (
        p,
        post_fee fee p,
        rw (pre wanted, found),
        rw (post p, laws.post_fee_amount fee p good (omega arith)),
        least,
        pre_fee_enough fee wanted p good (omega arith) found,
      )

  -- If `a` leaves the wanted amount or more, then `get_pre_fee_amount_ld` answers an amount of at
  -- most `a`, of which the wanted amount or more arrives.
  pub pre_fee_of_post :
      (a wanted : ℕ) {q : ℕ}
      → IsU64 a
      → get_post_fee_amount_ld h clock m a ≡ ok q
      → wanted ≤ q
      → (p : ℕ) × (arrived : ℕ) × (get_pre_fee_amount_ld h clock m wanted ≡ ok p)
        × (get_post_fee_amount_ld h clock m p ≡ ok arrived)
        × (p ≤ a)
        × (wanted ≤ arrived)
  pre_fee_of_post a wanted fits e le = pre-FeeOf_post a wanted (fee_of a e).1 fits e le
