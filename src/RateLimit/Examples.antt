-- ===== src/RateLimit/Examples.antt =====
-- Buckets from the tests of server/src/main.rs, and the theorems at inputs.
use voicemcu.Base.{◌+◌, ◌-◌, ◌*◌, ◌≤◌, ◌≡◌, refl, true, false, List, [], ◌∷◌, arith}
use voicemcu.RateLimit.{TokenBucket, token, try_consume}
use voicemcu.RateLimit.Bounds.{run, run_bounded, consume_after_wait}
use voicemcu.RateLimit.Accept.{AcceptState, Incoming, admit, accept}
use voicemcu.RateLimit.Accept.Sweep.{decisions, sweep_invisible}

-- `token_bucket_fractional_refill`: 50 ms at 10 per second are half a token.
abbrev drained : TokenBucket
drained = record { tokens = 0; capacity = 10 * token; refill_rate = 10; last_refill = 0 }

fractional : (try_consume drained 50000000).1 ≡ false
unfolding try_consume
fractional = refl

fractional_twice : (run drained (50000000 ∷ 110000000 ∷ [])).1 ≡ 1
unfolding run try_consume
fractional_twice = refl

run_bounded_example :
    (run drained (50000000 ∷ 110000000 ∷ [])).1 * token ≤ drained.tokens + (200000000 - 0) * 10
run_bounded_example = run_bounded drained 200000000 (50000000 ∷ 110000000 ∷ []) (omega arith)

consume_after_wait_example : (try_consume drained 100000000).1 ≡ true
consume_after_wait_example = consume_after_wait drained 100000000 (omega arith) (omega arith)

abbrev two_visits : List Incoming
two_visits =
    record { ip = 1; now = 1; created = 2; consumed = 3 }
    ∷ record { ip = 1; now = 90000000000; created = 90000000001; consumed = 90000000002 }
    ∷ []

sweep_invisible_example :
    let start : AcceptState = record { conn_buckets = []; last_cleanup = 0 } in
    decisions accept (record { burst = 10; rate = 5 }) start two_visits
    ≡ decisions admit (record { burst = 10; rate = 5 }) start two_visits
sweep_invisible_example =
    sweep_invisible (record { burst = 10; rate = 5 }) 0 two_visits (omega arith)
