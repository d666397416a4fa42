-- ===== src/State/RateLimiter/Tests.antt =====
-- The limiter of state/peer_config.rs at concrete times, and the theorems on it.
use cross_chain_contracts.Common.{ℕ, ◌+◌, ◌-◌, ◌*◌, ◌≤◌, ◌<◌, ◌≡◌, ◌⊎◌, refl, arith}
use cross_chain_contracts.Errors.{Result, ok, err, oft, rate_limit_exceeded}
use cross_chain_contracts.Words.{
  pos, to_u64_unwrap, saturating_add_u64, saturating_mul_u64, checked_sub,
}
use cross_chain_contracts.State.RateLimiter.{Clock, RateLimiter, unix_time, refill, try_consume}
use cross_chain_contracts.State.RateLimiter.Bounds.{IsValid, level, try_consume_lem}
use cross_chain_contracts.State.RateLimiter.Uses.{Uses, Uses-bounded}

abbrev at : ℕ → Result Clock
at t = ok (record { unix_timestamp = pos t; epoch = 0 })

-- A bucket of 100 that gains 5 each second.
abbrev bucket : ℕ → ℕ → RateLimiter
bucket tokens t = record {
  capacity = 100;
  tokens = tokens;
  refill_per_second = 5;
  last_refill_time = t;
}

consumes : try_consume (at 14) (bucket 90 10) 60 ≡ ok (bucket 40 14)
unfolding try_consume refill unix_time to_u64_unwrap saturating_add_u64 saturating_mul_u64
    checked_sub
consumes = refl

refuses : try_consume (at 14) (bucket 40 14) 41 ≡ err (oft rate_limit_exceeded)
unfolding try_consume refill unix_time to_u64_unwrap saturating_add_u64 saturating_mul_u64
    checked_sub
refuses = refl

refunds : refill (at 15) (bucket 40 14) 30 ≡ ok (bucket 75 15)
unfolding refill unix_time to_u64_unwrap saturating_add_u64 saturating_mul_u64
refunds = refl

bucket-IsValid : IsValid (bucket 90 10)
bucket-IsValid = omega arith

is_time : unix_time (at 14) ≡ ok 14
unfolding unix_time to_u64_unwrap
is_time = refl

try_consume_lem_example :
    ((60 ≤ level (bucket 90 10) 14 0) × (try_consume (at 14) (bucket 90 10) 60 ≡ ok (bucket 40 14)))
    ⊎ ((level (bucket 90 10) 14 0 < 60)
        × (try_consume (at 14) (bucket 90 10) 60 ≡ err (oft rate_limit_exceeded)))
try_consume_lem_example = try_consume_lem (at 14) (bucket 90 10) 60 14 bucket-IsValid is_time

-- 60 consumed at 14 and 30 given back at 15.
used : Uses (bucket 90 10) 60 30 (bucket 75 15)
used =
    Uses.refund (at 15) 30 (Uses.consume (at 14) 60 Uses.begin (omega arith) consumes) (omega arith)
      refunds

Uses-bounded_example :
    (60 ≤ 100 + 30 + (15 - 10) * 5)
    × IsValid (bucket 75 15)
    × ((bucket 75 15).capacity ≡ (bucket 90 10).capacity)
    × ((bucket 75 15).refill_per_second ≡ (bucket 90 10).refill_per_second)
Uses-bounded_example = Uses-bounded bucket-IsValid used
