-- ===== src/State/RateLimiter.antt =====
-- state/peer_config.rs: `RateLimiter`, a bucket of `tokens` that refills with time.
pub mod Bounds
pub mod Uses
mod Tests
use cross_chain_contracts.Common.{ℕ, ◌-◌, Bool, Option, none, some, ltb, if◌then◌else◌, min}
use cross_chain_contracts.Errors.{Result, ok, err, Error, oft, rate_limit_exceeded, ◌>>=◌}
use cross_chain_contracts.Words.{
  ℤ, to_u64_unwrap, saturating_add_u64, saturating_mul_u64, checked_sub,
}

-- What the program reads of the `Clock` sysvar. `Clock::get()` is a runtime call: its result is an
-- argument of what calls it.
pub record Clock : Type 0 where
  pub unix_timestamp : ℤ
  pub epoch : ℕ

-- `Clock::get()?.unix_timestamp.try_into().unwrap()`
unfoldable pub unix_time : Result Clock → Result ℕ
unfolding to_u64_unwrap
unix_time clock = do c ← clock; to_u64_unwrap c.unix_timestamp

pub record RateLimiter : Type 0 where
  pub capacity : ℕ
  pub tokens : ℕ
  pub refill_per_second : ℕ
  pub last_refill_time : ℕ

-- `RateLimiter::default()`
abbrev pub default : RateLimiter
default = record { capacity = 0; tokens = 0; refill_per_second = 0; last_refill_time = 0 }

unfoldable pub refill : Result Clock → RateLimiter → ℕ → Result RateLimiter
refill clock r extra_tokens = do
  current_time ← unix_time clock
  let time_elapsed_in_seconds = current_time - r.last_refill_time
  let new_tokens =
      if ltb r.last_refill_time current_time
      then saturating_add_u64 extra_tokens
          (saturating_mul_u64 time_elapsed_in_seconds r.refill_per_second)
      else extra_tokens
  ok (record r {
    tokens = min r.capacity (saturating_add_u64 r.tokens new_tokens);
    last_refill_time = current_time;
  })

unfoldable pub set_rate : Result Clock → RateLimiter → ℕ → Result RateLimiter
set_rate clock r refill_per_second = do
  r' ← refill clock r 0
  ok (record r' { refill_per_second = refill_per_second })

unfoldable pub set_capacity : Result Clock → RateLimiter → ℕ → Result RateLimiter
set_capacity clock r capacity = do
  current_time ← unix_time clock
  ok (record r { capacity = capacity; tokens = capacity; last_refill_time = current_time })

unfoldable pub try_consume : Result Clock → RateLimiter → ℕ → Result RateLimiter
try_consume clock r amount = do
  r' ← refill clock r 0
  elim (checked_sub r'.tokens amount) [
    | some new_tokens ↦ ok (record r' { tokens = new_tokens })
    | none ↦ err (oft rate_limit_exceeded)
  ]
