-- ===== src/Jitter.antt =====
-- common/src/jitter.rs: the jitter buffer that reorders frames by their u32 sequence number.
pub mod Arith
pub mod Invariant
mod Examples
mod Insert
pub mod Playout
pub mod View
mod Wrap
pub mod Occupied
pub mod Depth
use voicemcu.Base.{
  ℕ, ◌+◌, ◌-◌, ◌/◌, ◌%◌, Bool, true, false, not, ◌&&◌, ◌||◌, Option, none, some, List, ltb, leb,
  ◌==◌, if◌then◌else◌, get_elem?, set, replicate, length,
}
use voicemcu.Base.Words.{u32_mod, u32_max, wrapping_add, wrapping_sub}

-- A frame is any type: the buffer never looks inside one.
pub record JitterBuffer {ℓ} (A : Type ℓ) : Type ℓ where
  pub slots : List (Option (ℕ × A))
  pub depth : ℕ
  pub read_seq : ℕ
  pub initialized : Bool

abbrev pub default_jitter_depth : ℕ
default_jitter_depth = 8

module _ {ℓ} {A : Type ℓ} where
  -- `none` is the panic of `assert!(depth > 0)`.
  unfoldable pub new : ℕ → Option (JitterBuffer A)
  new depth =
      if ltb 0 depth
      then some (record {
        slots = replicate depth none;
        depth = depth;
        read_seq = 0;
        initialized = false;
      })
      else none

  -- The first insert sets the read position.
  unfoldable pub prime : JitterBuffer A → ℕ → JitterBuffer A
  prime b seq = if b.initialized then b else record b { read_seq = seq; initialized = true }

  -- The overrun branch: the window moves so that `seq` is its last sequence number.
  unfoldable pub resync : JitterBuffer A → ℕ → ℕ → JitterBuffer A
  resync b seq ahead =
      if leb b.depth ahead
      then record b { read_seq = wrapping_sub seq (b.depth % u32_mod - 1) }
      else b

  unfoldable pub store : JitterBuffer A → ℕ → A → JitterBuffer A
  store b seq frame = record b { slots = set b.slots (seq % b.depth) (some (seq, frame)) }

  -- Returns false, and stores nothing, when the packet is too old.
  unfoldable pub insert : JitterBuffer A → ℕ → A → JitterBuffer A × Bool
  insert b seq frame =
      let primed = prime b seq in
      let diff = wrapping_sub seq primed.read_seq in
      if ltb (u32_max / 2) diff
      then (primed, false)
      else (store (resync primed seq diff) seq frame, true)

  -- `match self.slots[idx]` with its guard on the sequence number.
  pub slot_frame : Option (Option (ℕ × A)) → ℕ → Option A
  slot_frame none s = none
  slot_frame (some none) s = none
  slot_frame (some (some (slot_seq, frame))) s = if slot_seq == s then some frame else none

  pub take_frame : JitterBuffer A → Option A → JitterBuffer A × Option A
  take_frame b none = (b, none)
  take_frame b (some frame) = (
    record b {
      slots = set b.slots (b.read_seq % b.depth) none;
      read_seq = wrapping_add b.read_seq 1;
    },
    some frame,
  )

  pub pop : JitterBuffer A → JitterBuffer A × Option A
  pop b =
      if not b.initialized
      then (b, none)
      else take_frame b (slot_frame (get_elem? b.slots (b.read_seq % b.depth)) b.read_seq)

  pub advance_expected : JitterBuffer A → JitterBuffer A
  advance_expected b =
      if b.initialized then record b { read_seq = wrapping_add b.read_seq 1 } else b

  pub reset : JitterBuffer A → JitterBuffer A
  reset b = record b { slots = replicate (length b.slots) none; read_seq = 0; initialized = false }
