-- ===== src/Audio/Examples.antt =====
-- Samples that are numbers, and the theorem at an input.
use voicemcu.Base.{ℕ, ◌+◌, ◌-◌, ◌*◌, leb}
use voicemcu.Audio.{Float}

-- The threshold is 1.
abbrev pub counting : Float
counting = record {
  Sample = ℕ;
  zero_sample = 0;
  add = λ a b. a + b;
  sub = λ a b. a - b;
  mul = λ a b. a * b;
  div = λ a b. a;
  le = λ a b. leb a b;
  sqrt = λ a. a;
  tanh = λ a. a;
  sin = λ a. a;
  of_ℕ = λ n. n;
  from_bits = λ n. 1;
}
