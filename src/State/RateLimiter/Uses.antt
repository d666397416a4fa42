-- ===== src/State/RateLimiter/Uses.antt =====
-- Runs of `refill` and `try_consume` of the limiter of state/peer_config.rs.
use cross_chain_contracts.Common.{ℕ, ◌+◌, ◌-◌, ◌*◌, ◌≤◌, ◌≡◌, refl, ◌∙◌, arith}
use cross_chain_contracts.Errors.{Result, ok, >>=-eq-ok}
use cross_chain_contracts.Words.{checked_sub}
use cross_chain_contracts.State.RateLimiter.{Clock, RateLimiter, unix_time, refill, try_consume}
use cross_chain_contracts.State.RateLimiter.Bounds.{
  IsValid, refill_lem, refill-IsValid, try_consume-IsValid,
}

-- A run from `start`, by `spent` tokens consumed and `given` extra tokens refilled, in which the
-- clock does not go back. Calls that fail are rolled back with their transaction.
pub data Uses (start : RateLimiter) : ℕ → ℕ → RateLimiter → Type 0 where
  begin : Uses start 0 0 start
  consume :
      {spent given : ℕ} {r r' : RateLimiter} (clock : Result Clock) (amount : ℕ)
      → Uses start spent given r
      → r.last_refill_time ≤ r'.last_refill_time
      → try_consume clock r amount ≡ ok r'
      → Uses start (spent + amount) given r'
  refund :
      {spent given : ℕ} {r r' : RateLimiter} (clock : Result Clock) (extra : ℕ)
      → Uses start spent given r
      → r.last_refill_time ≤ r'.last_refill_time
      → refill clock r extra ≡ ok r'
      → Uses start spent (given + extra) r'

-- What is known of a state of the run.
record Ledger (start : RateLimiter) (spent given : ℕ) (r : RateLimiter) : Type 0 where
  valid : IsValid r
  same_capacity : r.capacity ≡ start.capacity
  same_rate : r.refill_per_second ≡ start.refill_per_second
  time_grows : start.last_refill_time ≤ r.last_refill_time
  balance :
      spent + r.tokens
      ≤ start.tokens
        + given
        + (r.last_refill_time - start.last_refill_time) * start.refill_per_second

-- What one refill adds.
refill_adds :
    (clock : Result Clock) (r : RateLimiter) (extra : ℕ) {r' : RateLimiter}
    → IsValid r
    → refill clock r extra ≡ ok r'
    → (r'.capacity ≡ r.capacity)
      × (r'.refill_per_second ≡ r.refill_per_second)
      × (r'.tokens
          ≤ r.tokens + extra + (r'.last_refill_time - r.last_refill_time) * r.refill_per_second)
unfolding refill
refill_adds clock r extra v h =
    let (now, time, _) = >>=-eq-ok (unix_time clock) _ h in
    ground (arith, refill_lem clock r extra now v.capacity_fits time)

consume_takes :
    (clock : Result Clock) (r : RateLimiter) (amount : ℕ) {r' : RateLimiter}
    → IsValid r
    → try_consume clock r amount ≡ ok r'
    → (r'.capacity ≡ r.capacity)
      × (r'.refill_per_second ≡ r.refill_per_second)
      × (amount + r'.tokens
          ≤ r.tokens + (r'.last_refill_time - r.last_refill_time) * r.refill_per_second)
unfolding try_consume checked_sub
consume_takes clock r amount v h =
    let (r1, refilled, _) = >>=-eq-ok (refill clock r 0) _ h in
    ground (arith, refill_adds clock r 0 v refilled)

elapsed_split :
    (t0 t1 t2 rate : ℕ) → t0 ≤ t1 → t1 ≤ t2 → (t2 - t0) * rate ≡ (t1 - t0) * rate + (t2 - t1) * rate
elapsed_split t0 t1 t2 rate h k =
    let e : t2 - t0 ≡ (t1 - t0) + (t2 - t1) = omega arith in rw e (omega arith)

Uses-Ledger :
    {start r : RateLimiter} {spent given : ℕ}
    → IsValid start
    → Uses start spent given r
    → Ledger start spent given r
Uses-Ledger {start} v begin = record {
  valid = v;
  same_capacity = refl;
  same_rate = refl;
  time_grows = omega arith;
  balance = omega arith;
}
Uses-Ledger {start} v (consume {r = r} {r' = r'} clock amount u later h) =
    let l = Uses-Ledger v u in
    let (c, q, takes) = consume_takes clock r amount l.valid h in
    record {
      valid = try_consume-IsValid clock r amount l.valid h;
      same_capacity = c ∙ l.same_capacity;
      same_rate = q ∙ l.same_rate;
      time_grows = omega arith;
      balance = omega (
        arith,
        rw l.same_rate at takes,
        elapsed_split start.last_refill_time r.last_refill_time r'.last_refill_time
            start.refill_per_second l.time_grows later,
      );
    }
Uses-Ledger {start} v (refund {r = r} {r' = r'} clock extra u later h) =
    let l = Uses-Ledger v u in
    let (c, q, adds) = refill_adds clock r extra l.valid h in
    record {
      valid = refill-IsValid clock r extra l.valid h;
      same_capacity = c ∙ l.same_capacity;
      same_rate = q ∙ l.same_rate;
      time_grows = omega arith;
      balance = omega (
        arith,
        rw l.same_rate at adds,
        elapsed_split start.last_refill_time r.last_refill_time r'.last_refill_time
            start.refill_per_second l.time_grows later,
      );
    }

-- From a valid limiter, while the clock does not go back, any run of successful `try_consume` and
-- `refill` calls (`set_rate` and `set_capacity` are not called in a run) consumes at most the
-- capacity, what its refill calls gave back, and the rate times the time that has passed; and the
-- limiter at its end is valid with the capacity and the rate unchanged.
pub Uses-bounded :
    {start r : RateLimiter} {spent given : ℕ}
    → IsValid start
    → Uses start spent given r
    → (spent
        ≤ start.capacity
          + given
          + (r.last_refill_time - start.last_refill_time) * start.refill_per_second)
      × IsValid r
      × (r.capacity ≡ start.capacity)
      × (r.refill_per_second ≡ start.refill_per_second)
Uses-bounded v u =
    let l = Uses-Ledger v u in
    (omega (arith, l.balance, v.within), l.valid, l.same_capacity, l.same_rate)
