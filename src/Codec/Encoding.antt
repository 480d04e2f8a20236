-- ===== src/Codec/Encoding.antt =====
-- `OpusEncoder::encode`: the loop ends, and what it gives fits a datagram, whatever becomes of the
-- bitrates that it tries.
use voicemcu.Base.{
  ℕ, zero, suc, ◌+◌, ◌≤◌, ◌<◌, ◌≡◌, refl, ◌==◌, min, ltb, Option, none, some, List, length, Result,
  ok, err, arith, inl, inr, Bool-cases, ltb→lt,
}
use voicemcu.Protocol.{VoiceError, codec, max_opus_wire_payload}
use voicemcu.Codec.{
  Opus, OpusError, buffer_too_small, other, fallback, restore, Attempt, retry, give_up,
  after_attempt, encode_loop, encode_with, encode,
}

-- `encode_float` of `audiopus` writes into the slice that it is given.
pub record IsLawful {Sample : Type 0} (opus : Opus Sample) : Type 0 where
  pub fits :
      (pcm : List Sample) (room : ℕ) (inner : opus.Encoder) (packet : List ℕ)
      → (opus.encode_float pcm room inner).1 ≡ ok packet
      → length packet ≤ room

-- A loop that has fuel left when it returns, with what it then returns.
abbrev pub Returns {ℓ} : {A : Type ℓ} → Option A → (A → Type 0) → Type 0
Returns none p = ⊥
Returns (some r) p = p r

module _ {Sample : Type 0} (opus : Opus Sample) (law : IsLawful opus) where
  open opus use {Encoder, Bitrate, bitrate, set_bitrate, encode_float}

  -- The encoder is left as wanted, and a packet fits.
  abbrev pub Encoded : (Encoder → Type 0) → ℕ → Encoder × Result VoiceError (List ℕ) → Type 0
  Encoded Good room (inner, ok packet) = Good inner × (length packet ≤ room)
  Encoded Good room (inner, err e) = Good inner

  -- A refused setting of a lower bitrate ends the loop, and leaves the encoder as wanted.
  abbrev pub Refuses : (Encoder → Type 0) → Type 0
  Refuses Good =
      (attempt : ℕ) (inner : Encoder) (e : OpusError)
      → (set_bitrate (fallback opus attempt) inner).1 ≡ err e
      → Good (set_bitrate (fallback opus attempt) inner).0

  module _ (Good : Encoder → Type 0) (saved : Bitrate)
      (restores : (inner : Encoder) → Good (set_bitrate saved inner).0) (refuses : Refuses Good)
      (pcm : List Sample) (room : ℕ) where
    restore_lem :
        (attempt : ℕ) (inner : Encoder)
        → (attempt ≡ 0 → Good inner)
        → Good (restore opus saved attempt inner)
    unfolding restore
    restore_lem zero inner h = h refl
    restore_lem (suc attempt) inner h = ground (arith, restores inner)

    give_up_lem :
        (inner : Encoder) (e : OpusError) → Returns (give_up opus saved inner e) (Encoded Good room)
    unfolding give_up
    give_up_lem inner e = restores inner

    retry_lem :
        (again : Encoder → Attempt opus) (r : Encoder × Result OpusError (Unit {0}))
        → ((e : OpusError) → r.1 ≡ err e → Good r.0)
        → ((lowered : Encoder) → Returns (again lowered) (Encoded Good room))
        → Returns (retry opus again r) (Encoded Good room)
    unfolding retry
    retry_lem again (lowered, ok u) refused h = h lowered
    retry_lem again (lowered, err e) refused h = refused e refl

    after_attempt_lem :
        (again : Encoder → Attempt opus) (attempt : ℕ) (r : Encoder × Result OpusError (List ℕ))
        → (attempt < 2 → (lowered : Encoder) → Returns (again lowered) (Encoded Good room))
        → (attempt ≡ 0 → Good r.0)
        → ((packet : List ℕ) → r.1 ≡ ok packet → length packet ≤ room)
        → Returns (after_attempt opus again saved attempt r) (Encoded Good room)
    unfolding after_attempt
    after_attempt_lem again attempt (inner, ok packet) h before small =
        (restore_lem attempt inner before, small packet refl)
    after_attempt_lem again attempt (inner, err (other why)) h before small =
        give_up_lem inner (other why)
    after_attempt_lem again attempt (inner, err buffer_too_small) h before small =
        elim (Bool-cases (ltb attempt 2)) [
          | inl more ↦ rw more (
              retry_lem again (set_bitrate (fallback opus attempt) inner) (refuses attempt inner)
                (h (ltb→lt attempt 2 more)))
          | inr last ↦ rw last (give_up_lem inner buffer_too_small)
        ]

    -- Each round raises `attempt`, and at 2 the loop does not go on.
    encode_loop-Returns :
        (fuel attempt : ℕ) (inner : Encoder)
        → 3 ≤ fuel + attempt
        → 0 < fuel
        → (attempt ≡ 0 → Good (encode_float pcm room inner).0)
        → Returns (encode_loop opus fuel saved pcm room attempt inner) (Encoded Good room)
    unfolding encode_loop
    encode_loop-Returns zero attempt inner h k before = absurd (omega arith)
    encode_loop-Returns (suc fuel) attempt inner h k before =
        after_attempt_lem _ attempt (encode_float pcm room inner)
          (λ more lowered.
            encode_loop-Returns fuel (suc attempt) lowered (omega arith) (omega arith)
              (λ z. absurd (omega arith)))
          before (law.fits pcm room inner)

  -- With fuel for three rounds the encoder returns; a packet fits both the buffer and the payload of
  -- a datagram; and what the laws of the library let the loop keep of the encoder is kept.
  pub encode_with-Returns :
      (Good : Encoder → Type 0) (fuel : ℕ) (pcm : List Sample) (output_len : ℕ) (inner : Encoder)
      → 3 ≤ fuel
      → Refuses Good
      → Good inner
      → ((room : ℕ) → Good (encode_float pcm room inner).0)
      → ((saved : Bitrate)
          → bitrate inner ≡ ok saved
          → (later : Encoder) → Good (set_bitrate saved later).0)
      → Returns
          (encode_with opus fuel pcm output_len inner)
          (Encoded Good (min output_len max_opus_wire_payload))
  unfolding encode_with
  encode_with-Returns Good fuel pcm output_len inner h refuses good encodes restores =
      elim (Bool-cases (min output_len max_opus_wire_payload == 0)) [
        | inl empty ↦ rw (empty, encode_with) good
        | inr some_room ↦ rw (some_room, encode_with) (reported (bitrate inner) refl)
      ]
    where
      reported :
          (b : Result OpusError Bitrate)
          → bitrate inner ≡ b
          → Returns
              (elim b as (λ x. Attempt opus) [
                | err e ↦ some (inner, err (codec (opus.text e)))
                | ok saved ↦
                    encode_loop opus fuel saved pcm (min output_len max_opus_wire_payload) 0 inner
              ])
              (Encoded Good (min output_len max_opus_wire_payload))
      reported (err e) k = good
      reported (ok saved) k =
          encode_loop-Returns Good saved (restores saved k) refuses pcm
            (min output_len max_opus_wire_payload) fuel 0 inner (omega arith) (omega arith)
            (λ z. encodes _)

  -- What `encode` gives fits as well.
  pub encode-length :
      (pcm : List Sample) (output_len : ℕ) (inner : Encoder) (packet : List ℕ)
      → (encode opus pcm output_len inner).1 ≡ ok packet
      → length packet ≤ min output_len max_opus_wire_payload
  unfolding encode
  encode-length pcm output_len inner packet e =
      of_attempt (encode_with opus 3 pcm output_len inner) e (
        encode_with-Returns (λ x. Unit {0}) 3 pcm output_len inner (omega arith)
          (λ attempt x why k. tt) tt (λ room. tt) (λ saved k later. tt))
    where
      of_attempt :
          (r : Attempt opus)
          → (elim r as (λ x. Encoder × Result VoiceError (List ℕ)) [
            | none ↦ (inner, err (codec "no result"))
            | some r ↦ r
          ]).1
            ≡ ok packet
          → Returns r (Encoded (λ x. Unit {0}) (min output_len max_opus_wire_payload))
          → length packet ≤ min output_len max_opus_wire_payload
      of_attempt none k h = absurd h
      of_attempt (some (inner', ok p)) k h = ground (arith, k, h.1)
      of_attempt (some (inner', err why)) k h = absurd cc
