-- ===== src/RateLimit.antt =====
-- server/src/main.rs: the token bucket, which limits signaling messages and connections.
--
-- The source counts tokens in f64. Here a token is 10 ^ 9 units and time is in nanoseconds, so
-- `elapsed * refill_rate` is exact; the rounding of f64 is not modelled.
mod Bounds
pub mod Accept
mod Examples
use voicemcu.Base.{ℕ, ◌+◌, ◌-◌, ◌*◌, Bool, true, false, List, [], ◌∷◌, leb, if◌then◌else◌, min}

abbrev pub token : ℕ
token = 1000000000

-- Tokens and capacity in units; the rate in tokens per second, which is units per nanosecond.
pub record TokenBucket : Type 0 where
  pub tokens : ℕ
  pub capacity : ℕ
  pub refill_rate : ℕ
  pub last_refill : ℕ

-- `capacity` is in tokens, as at the calls; `now` is the clock's reading.
unfoldable pub new : ℕ → ℕ → ℕ → TokenBucket
new capacity refill_rate now = record {
  tokens = capacity * token;
  capacity = capacity * token;
  refill_rate = refill_rate;
  last_refill = now;
}

-- A clock that goes back counts as no time passed: `duration_since` saturates, as `-` does.
unfoldable pub refill : TokenBucket → ℕ → TokenBucket
refill b now = record b {
  tokens = min (b.tokens + (now - b.last_refill) * b.refill_rate) b.capacity;
  last_refill = now;
}

unfoldable pub consume : TokenBucket → TokenBucket × Bool
consume b =
    if leb token b.tokens then (record b { tokens = b.tokens - token }, true) else (b, false)

unfoldable pub try_consume : TokenBucket → ℕ → TokenBucket × Bool
unfolding refill consume
try_consume b now = consume (refill b now)
