-- ===== src/Devices/Resampling.antt =====
-- How many samples a call of the resampler puts out, on exact positions.
use voicemcu.Base.{
  ℕ, zero, suc, ◌+◌, ◌-◌, ◌*◌, ◌≤◌, ◌<◌, ◌≡◌, refl, ◌⊎◌, inl, inr, Option, some, List, [], ◌∷◌,
  length, arith, ltb, Bool-cases, ltb→lt, ltb-false→le,
}
use voicemcu.Audio.{Float}
use voicemcu.Devices.{Resampler, interpolate, resample, process, last_or}

module _ (f : Float) where
  open f use {Sample}

  -- The loop ended: past the input, by less than a step if it took one, and a step for each sample.
  record Ended (r : Resampler f) (size pos : ℕ) (result : Option (ℕ × List Sample)) : Type 0 where
    last : ℕ
    output : List Sample
    ended : result ≡ some (last, output)
    stepped : last ≡ pos + length output * r.src_rate
    past : size ≤ last
    near : (last < size + r.src_rate) ⊎ (last ≡ pos)

  resample-Ended :
      (fuel : ℕ) (r : Resampler f) (input : List Sample) (pos : ℕ)
      → 0 < r.src_rate
      → length input * r.dst_rate < pos + fuel
      → 0 < fuel
      → Ended r (length input * r.dst_rate) pos (resample f fuel r input pos)
  unfolding resample
  resample-Ended zero r input pos h enough some_fuel = absurd (omega arith)
  resample-Ended (suc fuel) r input pos h enough some_fuel =
      elim (Bool-cases (ltb pos (length input * r.dst_rate))) [
        | inl more ↦
            let lt = ltb→lt pos (length input * r.dst_rate) more in
            let rest =
              resample-Ended fuel r input (pos + r.src_rate) h (omega (arith, lt))
                (omega (arith, lt)) in
            record {
              last = rest.last;
              output = interpolate f r input pos ∷ rest.output;
              ended = rw (more, rest.ended) refl;
              stepped = omega (arith, rest.stepped);
              past = rest.past;
              near = elim rest.near [ inl n ↦ inl n | inr e ↦ inl (omega (arith, e, lt)) ];
            }
        | inr done ↦ record {
          last = pos;
          output = [];
          ended = rw done refl;
          stepped = omega arith;
          past = ltb-false→le pos (length input * r.dst_rate) done;
          near = inr refl;
        }
      ]

  -- A call of `process` that returns: the rates stay, the position is within a step, and the input
  -- that came and the output that went agree.
  pub record Processed (r : Resampler f) (input : List Sample)
      (result : Option (Resampler f × List Sample)) : Type 0 where
    pub after : Resampler f
    pub output : List Sample
    pub returned : result ≡ some (after, output)
    pub same_src : after.src_rate ≡ r.src_rate
    pub same_dst : after.dst_rate ≡ r.dst_rate
    pub within : after.pos < r.src_rate
    pub balance : r.pos + length output * r.src_rate ≡ length input * r.dst_rate + after.pos

  pub process-Processed :
      (r : Resampler f) (input : List Sample)
      → r.pos < r.src_rate
      → Processed r input (process f r input)
  unfolding process
  process-Processed r [] h = record {
    after = r;
    output = [];
    returned = refl;
    same_src = refl;
    same_dst = refl;
    within = h;
    balance = omega arith;
  }
  process-Processed r (s ∷ samples) h =
      let input = s ∷ samples in
      let e =
        resample-Ended (length input * r.dst_rate + 1) r input r.pos (omega (arith, h))
          (omega arith) (omega arith) in
      record {
        after = record r {
          prev_sample = last_or f s samples;
          pos = e.last - length input * r.dst_rate;
        };
        output = e.output;
        returned = rw (e.ended, process) refl;
        same_src = refl;
        same_dst = refl;
        within = elim e.near [
          | inl n ↦ omega (arith, n, e.past, h)
          | inr k ↦ omega (arith, k, e.past, h)
        ];
        balance = omega (arith, e.stepped, e.past);
      }
