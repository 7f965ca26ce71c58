-- ===== src/Risk/TokenBucket.antt =====
-- cpp/risk/token_bucket.hpp: TokenBucketLimiter. The steady clock is an argument.
use quantforge_engine.Prelude.{ℕ, ◌+◌, ◌-◌, ◌%◌, ◌^◌, Bool, true, false, if◌then◌else◌}
use quantforge_engine.Prelude.Int.{ℤ, pos, ◌*ℤ◌, ltb_ℤ}
use quantforge_engine.Doubles.{Double, of_ℕ, fmin}

pub record TokenBucket (D : Type 0) : Type 0 where
  pub max_rate : ℤ
  pub burst : ℤ
  pub tokens : D
  pub last_refill_ns : ℕ

-- A negative burst stands for twice the rate.
abbrev pub burst_or_default : ℤ → ℤ → ℤ
burst_or_default max_rate burst = if ltb_ℤ burst (pos 0) then max_rate *ℤ pos 2 else burst

module _ {D : Type 0} ⦃d : Double D⦄ where
  unfoldable pub bucket_init : ℤ → ℤ → ℕ → TokenBucket D
  bucket_init max_rate burst now = record {
    max_rate = max_rate;
    burst = burst_or_default max_rate burst;
    tokens = d.of_int (burst_or_default max_rate burst);
    last_refill_ns = now;
  }

  -- The seconds since the last refill; the difference of two uint64_t wraps.
  unfoldable pub elapsed_s : TokenBucket D → ℕ → D
  elapsed_s b now = d.div (of_ℕ ((now + 2 ^ 64 - b.last_refill_ns) % 2 ^ 64)) (of_ℕ 1_000_000_000)

  -- The tokens after the refill, capped at the burst.
  unfoldable pub refilled : TokenBucket D → ℕ → D
  refilled b now =
      fmin (d.add b.tokens (d.mul (elapsed_s b now) (d.of_int b.max_rate))) (d.of_int b.burst)

  unfoldable pub try_consume : TokenBucket D → ℕ → TokenBucket D × Bool
  try_consume b now =
      let t = refilled b now in
      if d.le (of_ℕ 1) t
      then (record b { tokens = d.sub t (of_ℕ 1); last_refill_ns = now }, true)
      else (record b { tokens = t; last_refill_ns = now }, false)

  unfoldable pub bucket_reset : TokenBucket D → ℕ → TokenBucket D
  bucket_reset b now = record b { tokens = d.of_int b.burst; last_refill_ns = now }
