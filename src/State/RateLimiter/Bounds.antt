-- ===== src/State/RateLimiter/Bounds.antt =====
-- The bucket of state/peer_config.rs against a level without saturation, and `try_consume`.
use cross_chain_contracts.Common.{ℕ, ◌+◌, ◌-◌, ◌*◌, ◌≤◌, ◌<◌, ◌≡◌, ◌⊎◌, arith, min}
use cross_chain_contracts.Errors.{Result, ok, err, oft, rate_limit_exceeded, >>=-eq-ok}
use cross_chain_contracts.Words.{IsU64, saturating_add_u64, saturating_mul_u64, checked_sub}
use cross_chain_contracts.State.RateLimiter.{
  Clock, RateLimiter, unix_time, refill, set_rate, set_capacity, try_consume,
}

-- The fields are u64, and the bucket holds no more than its capacity.
pub record IsValid (r : RateLimiter) : Type 0 where
  pub within : r.tokens ≤ r.capacity
  pub capacity_fits : IsU64 r.capacity
  pub rate_fits : IsU64 r.refill_per_second

-- The tokens after a refill at the time `now`, without saturation.
abbrev pub level : RateLimiter → ℕ → ℕ → ℕ
level r now extra =
    min r.capacity (r.tokens + (extra + (now - r.last_refill_time) * r.refill_per_second))

-- Saturation at the u64 maximum is never seen: the capacity is below it.
pub refill_lem :
    (clock : Result Clock) (r : RateLimiter) (extra now : ℕ)
    → IsU64 r.capacity
    → unix_time clock ≡ ok now
    → refill clock r extra ≡ ok (record r { tokens = level r now extra; last_refill_time = now })
unfolding refill saturating_add_u64 saturating_mul_u64
refill_lem clock r extra now fits time = rw time (ground arith)

-- On a valid limiter, where the time can be read, `try_consume` takes the amount off the refilled
-- bucket if it is there, and reports `RateLimitExceeded` exactly if it is not.
pub try_consume_lem :
    (clock : Result Clock) (r : RateLimiter) (amount now : ℕ)
    → IsValid r
    → unix_time clock ≡ ok now
    → ((amount ≤ level r now 0)
        × (try_consume clock r amount
            ≡ ok (record r { tokens = level r now 0 - amount; last_refill_time = now })))
      ⊎ ((level r now 0 < amount) × (try_consume clock r amount ≡ err (oft rate_limit_exceeded)))
unfolding try_consume checked_sub
try_consume_lem clock r amount now v time =
    rw (refill_lem clock r 0 now v.capacity_fits time) (ground arith)

-- Every operation that succeeds keeps the limiter valid, whatever the clock says.
pub refill-IsValid :
    (clock : Result Clock) (r : RateLimiter) (extra : ℕ) {r' : RateLimiter}
    → IsValid r
    → refill clock r extra ≡ ok r'
    → IsValid r'
unfolding refill
refill-IsValid clock r extra v h = ground arith

pub set_rate-IsValid :
    (clock : Result Clock) (r : RateLimiter) (rate : ℕ) {r' : RateLimiter}
    → IsU64 rate
    → IsValid r
    → set_rate clock r rate ≡ ok r'
    → IsValid r'
unfolding set_rate
set_rate-IsValid clock r rate fits v h = grind (arith, refill-IsValid)

pub set_capacity-IsValid :
    (clock : Result Clock) (r : RateLimiter) (capacity : ℕ) {r' : RateLimiter}
    → IsU64 capacity
    → IsValid r
    → set_capacity clock r capacity ≡ ok r'
    → IsValid r'
unfolding set_capacity
set_capacity-IsValid clock r capacity fits v h = ground arith

pub try_consume-IsValid :
    (clock : Result Clock) (r : RateLimiter) (amount : ℕ) {r' : RateLimiter}
    → IsValid r
    → try_consume clock r amount ≡ ok r'
    → IsValid r'
unfolding try_consume checked_sub
try_consume-IsValid clock r amount v h =
    let (r1, refilled, rest) = >>=-eq-ok (refill clock r 0) _ h in
    let v1 = refill-IsValid clock r 0 v refilled in ground arith
