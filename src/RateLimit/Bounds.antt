-- ===== src/RateLimit/Bounds.antt =====
-- How many calls a bucket lets through, and when it must let one through.
use voicemcu.Base.{
  ℕ, ◌+◌, ◌-◌, ◌*◌, ◌≤◌, ◌≡◌, refl, Bool, true, false, List, [], ◌∷◌, arith, if◌then◌else◌, min,
  replicate, zero, suc,
}
use voicemcu.RateLimit.{TokenBucket, token, new, refill, try_consume}

-- The calls at the given times: the bucket after them and the number that were let through.
unfoldable pub run : TokenBucket → List ℕ → TokenBucket × ℕ
run b [] = (b, 0)
run b (now ∷ times) =
    let (b', passed) = try_consume b now in
    let (b'', n) = run b' times in (b'', if passed then n + 1 else n)

-- Times that do not go back, from `start` to `end` at most.
abbrev pub Ordered : ℕ → ℕ → List ℕ → Type 0
Ordered start end [] = start ≤ end
Ordered start end (t ∷ ts) = (start ≤ t) × Ordered t end ts

Ordered-le : (start end : ℕ) (ts : List ℕ) → Ordered start end ts → start ≤ end
Ordered-le start end [] h = h
Ordered-le start end (t ∷ ts) h = omega (arith, Ordered-le t end ts h.1)

-- One call: what it spends and leaves is covered by what was there and what came in.
spent : Bool → ℕ
spent true = token
spent false = 0

try_consume-pays :
    (b : TokenBucket) (now : ℕ)
    → let (b', passed) = try_consume b now in
      (spent passed + b'.tokens ≤ b.tokens + (now - b.last_refill) * b.refill_rate)
      × (b'.tokens ≤ b.capacity)
      × (b'.last_refill ≡ now)
      × (b'.refill_rate ≡ b.refill_rate)
      × (b'.capacity ≡ b.capacity)
unfolding try_consume spent
try_consume-pays b now = ground arith

-- The units that come in over two intervals come in over their sum.
interval_add : (a b c r : ℕ) → a ≤ b → b ≤ c → (b - a) * r + (c - b) * r ≡ (c - a) * r
interval_add a b c r h k = grind arith

add_call :
    (passed : Bool) (n left start came later : ℕ)
    → spent passed + left ≤ start + came
    → n * token ≤ left + later
    → {total : ℕ} → came + later ≡ total
    → (if passed then n + 1 else n) * token ≤ start + total
unfolding spent
add_call true n left start came later h k e = omega arith
add_call false n left start came later h k e = omega arith

-- Over any calls whose times do not go back, the tokens given out are at most those in the bucket
-- at the start and those that flow in until the end.
pub run_bounded :
    (b : TokenBucket) (end : ℕ) (times : List ℕ)
    → Ordered b.last_refill end times
    → (run b times).1 * token ≤ b.tokens + (end - b.last_refill) * b.refill_rate
unfolding run
run_bounded b end [] h = omega arith
run_bounded b end (now ∷ times) h =
    let (paid, _, at, rate, _) = try_consume-pays b now in
    let later = run_bounded (try_consume b now).0 end times (rw at h.1) in
    add_call (try_consume b now).1 (run (try_consume b now).0 times).1 _ _ _ _ paid
      (rw (at, rate) at later)
      (interval_add b.last_refill now end b.refill_rate h.0 (Ordered-le now end times h.1))

-- A bucket is never above its capacity, so a burst is bounded by it however long the wait before.
pub burst_bounded :
    (b : TokenBucket) (now end : ℕ) (times : List ℕ)
    → Ordered now end times
    → (run (refill b now) times).1 * token ≤ b.capacity + (end - now) * b.refill_rate
unfolding refill
burst_bounded b now end times h = omega (arith, run_bounded (refill b now) end times h)

-- A call is let through as soon as a whole token has come in since the last one, whatever that
-- one left, if the bucket can hold a token at all.
pub consume_after_wait :
    (b : TokenBucket) (now : ℕ)
    → token ≤ b.capacity
    → token ≤ (now - b.last_refill) * b.refill_rate
    → (try_consume b now).1 ≡ true
unfolding try_consume
consume_after_wait b now h k = ground arith

-- A bucket that holds `k` whole tokens and gets no time to fill.
abbrev Holds : TokenBucket → ℕ → ℕ → Type 0
Holds b now k = (b.tokens ≡ k * token) × (b.tokens ≤ b.capacity) × (b.last_refill ≡ now)

idle : (now last rate : ℕ) → last ≡ now → (now - last) * rate ≡ 0
idle now last rate e = grind arith

take_one :
    (b : TokenBucket) (now k : ℕ)
    → Holds b now (suc k)
    → Holds (try_consume b now).0 now k × ((try_consume b now).1 ≡ true)
unfolding try_consume
take_one b now k h = ground (arith, idle now b.last_refill b.refill_rate h.2)

take_none :
    (b : TokenBucket) (now : ℕ)
    → Holds b now 0
    → Holds (try_consume b now).0 now 0 × ((try_consume b now).1 ≡ false)
unfolding try_consume
take_none b now h = ground (arith, idle now b.last_refill b.refill_rate h.2)

run_now : (b : TokenBucket) (now n k : ℕ) → Holds b now k → (run b (replicate n now)).1 ≡ min n k
unfolding run
run_now b now zero k h = omega arith
run_now b now (suc n) zero h =
    let (left, no_token) = take_none b now h in
    rw no_token (omega (arith, run_now (try_consume b now).0 now n 0 left))
run_now b now (suc n) (suc k) h =
    let (left, one_token) = take_one b now k h in
    rw one_token (omega (arith, run_now (try_consume b now).0 now n k left))

-- A new bucket lets exactly its capacity of simultaneous calls through.
pub run_burst :
    (capacity rate now n : ℕ) → (run (new capacity rate now) (replicate n now)).1 ≡ min n capacity
unfolding new
run_burst capacity rate now n =
    run_now (new capacity rate now) now n capacity (refl, omega arith, refl)
