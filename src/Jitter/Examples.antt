-- ===== src/Jitter/Examples.antt =====
-- Runs of the jitter buffer from the tests of common/src/jitter.rs, and the theorems at inputs.
use voicemcu.Base.{ℕ, ◌≡◌, ◌≢◌, refl, true, false, none, some, List, [], ◌∷◌, arith, replicate, inl}
use voicemcu.Jitter.{
  JitterBuffer, new, prime, resync, store, insert, pop, slot_frame, take_frame, advance_expected,
}
use voicemcu.Jitter.Invariant.{IsValid}
use voicemcu.Jitter.View.{at, InWindow}
use voicemcu.Jitter.Insert.{
  Operation, inserts, pops, advances, resets, run, step, window_start, insert_accepts, run-IsValid,
}
use voicemcu.Jitter.Playout.{
  IsPrimed, insert_all, playout, tick, pass_over, latest, consecutive, playout-insert_all,
}
use voicemcu.Jitter.Wrap.{last_multiple, wrap_loses_frame}

-- Four slots, primed at 100, with the frame 1 under 100.
abbrev one_frame : JitterBuffer ℕ
one_frame = record {
  slots = some (100, 1) ∷ none ∷ none ∷ none ∷ [];
  depth = 4;
  read_seq = 100;
  initialized = true;
}

one_frame_made :
    run
      (record { slots = replicate 4 none; depth = 4; read_seq = 0; initialized = false })
      (inserts 100 1 ∷ [])
    ≡ one_frame
unfolding run step insert prime resync store
one_frame_made = refl

abbrev empty4 : JitterBuffer ℕ
empty4 = record { slots = replicate 4 none; depth = 4; read_seq = 0; initialized = false }

new-empty4 : new 4 ≡ some empty4
unfolding new
new-empty4 = refl

one_frame-IsValid : IsValid one_frame
unfolding run step insert prime resync store
one_frame-IsValid = run-IsValid 4 (inserts 100 1 ∷ []) (omega arith) new-empty4 (omega arith)

one_frame-IsPrimed : IsPrimed one_frame
one_frame-IsPrimed = record { valid = one_frame-IsValid; primed = refl }

-- `overrun_preserves_frames_already_buffered_in_window`, with the frames 1 to 5.
overrun_preserves_frames :
    playout 4 (insert_all empty4 ((100, 1) ∷ (101, 2) ∷ (102, 3) ∷ (103, 4) ∷ (104, 5) ∷ []))
    ≡ some 2 ∷ some 3 ∷ some 4 ∷ some 5 ∷ []
unfolding playout tick pass_over pop slot_frame take_frame insert_all insert prime resync store
overrun_preserves_frames = refl

-- An insert far ahead, which moves the window.
overrun_accepted : (insert one_frame 104 5).1 ≡ true
unfolding insert prime resync store
overrun_accepted = refl

insert_accepts_example :
    ((insert one_frame 104 5).0.read_seq ≡ window_start one_frame 104)
    × ((insert one_frame 104 5).0.depth ≡ 4)
    × InWindow (insert one_frame 104 5).0 104
    × (at (insert one_frame 104 5).0 104 ≡ some 5)
    × ((s : ℕ)
        → InWindow (insert one_frame 104 5).0 s
        → s ≢ 104
        → at (insert one_frame 104 5).0 s ≡ at one_frame s)
insert_accepts_example =
    insert_accepts one_frame 104 5 one_frame-IsValid (inl refl) (omega arith) overrun_accepted

abbrev history : List (Operation ℕ)
history = inserts 0xffff_ffff 1 ∷ inserts 0 2 ∷ pops ∷ advances ∷ resets ∷ inserts 7 3 ∷ []

run-IsValid_example : IsValid (run empty4 history)
run-IsValid_example = run-IsValid 4 history (omega arith) new-empty4 (omega arith)

-- Packets out of order, one of them twice, and a gap at 102.
abbrev arrivals : List (ℕ × ℕ)
arrivals = (103, 4) ∷ (101, 2) ∷ (103, 9) ∷ []

playout-insert_all_example :
    playout 4 (insert_all one_frame arrivals)
    ≡ consecutive (λ s. latest arrivals s (at one_frame s)) 4 100
playout-insert_all_example =
    playout-insert_all one_frame arrivals 4 one_frame-IsPrimed (inl refl) (omega arith)
      (omega arith)

playout-arrivals : playout 4 (insert_all one_frame arrivals) ≡ some 1 ∷ some 2 ∷ none ∷ some 9 ∷ []
unfolding playout tick pass_over pop slot_frame take_frame insert_all insert prime resync store
    advance_expected
playout-arrivals = refl

abbrev empty3 : JitterBuffer ℕ
empty3 = record { slots = replicate 3 none; depth = 3; read_seq = 0; initialized = false }

new-empty3 : new 3 ≡ some empty3
unfolding new
new-empty3 = refl

wrap_loses_frame_example :
    let (b1, first_accepted) = insert empty3 (last_multiple 3) 1 in
    let (b2, second_accepted) = insert b1 0 2 in
    (first_accepted ≡ true) × InWindow b1 0 × (second_accepted ≡ true) × (pop b2 ≡ (b2, none))
wrap_loses_frame_example = wrap_loses_frame 3 1 2 (omega arith) (omega arith) new-empty3
