-- ===== src/RateLimit/Accept.antt =====
-- server/src/main.rs, `accept_loop`: a bucket for each address, and the sweep that forgets full ones.
pub mod Sweep
use voicemcu.Base.{ℕ, ◌+◌, ◌-◌, ◌*◌, Bool, Option, none, some, List, [], ◌∷◌, ltb, if◌then◌else◌}
use voicemcu.Base.Assoc.{ℕ_eq, lookup, insert, retain}
use voicemcu.RateLimit.{TokenBucket, token, new, try_consume}

-- `connect_burst_per_ip` and `connect_rate_per_ip` of the configuration.
pub record Limits : Type 0 where
  pub burst : ℕ
  pub rate : ℕ

pub record AcceptState : Type 0 where
  pub conn_buckets : List (ℕ × TokenBucket)
  pub last_cleanup : ℕ

-- An incoming connection: its address, and the clock as the loop, `TokenBucket::new` and
-- `try_consume` read it in turn.
pub record Incoming : Type 0 where
  pub ip : ℕ
  pub now : ℕ
  pub created : ℕ
  pub consumed : ℕ

abbrev pub cleanup_period : ℕ
cleanup_period = 60 * 1000000000

pub is_filling : ℕ → TokenBucket → Bool
is_filling now b = ltb (b.tokens + (now - b.last_refill) * b.refill_rate) b.capacity

pub sweep : AcceptState → ℕ → AcceptState
sweep s now =
    if ltb cleanup_period (now - s.last_cleanup)
    then record {
      conn_buckets = retain (λ _ b. is_filling now b) s.conn_buckets;
      last_cleanup = now;
    }
    else s

pub or_insert : Limits → Option TokenBucket → ℕ → TokenBucket
or_insert c (some b) created = b
or_insert c none created = new c.burst c.rate created

-- The bucket of the address, a new one for a new address, and its decision.
pub admit : Limits → AcceptState → Incoming → AcceptState × Bool
admit c s i =
    let bucket = or_insert c (lookup i.ip s.conn_buckets) i.created in
    let (bucket', passed) = try_consume bucket i.consumed in
    (record s { conn_buckets = insert i.ip bucket' s.conn_buckets }, passed)

-- One turn of the loop: true if the connection is handled, false if it is refused.
pub accept : Limits → AcceptState → Incoming → AcceptState × Bool
accept c s i = admit c (sweep s i.now) i
