-- ===== src/Codec/Rates.antt =====
-- The bitrate of an encoder that `OpusEncoder::new` made, over any packets.
use voicemcu.Base.{
  ℕ, ◌≤◌, ◌≡◌, refl, sym, ◌∙◌, subst, inl, inr, none, some, List, [], ◌∷◌, min, ◌==◌, Result, ok,
  err, ok-injective, arith, Bool-cases,
}
use voicemcu.Base.Int.{pos}
use voicemcu.Protocol.{VoiceError, max_opus_wire_payload}
use voicemcu.Codec.{
  Opus, OpusError, Attempt, fallback, configured, and_then, new_encoder, encode_with,
}
use voicemcu.Codec.Encoding.{IsLawful, Returns, Encoded, Refuses, encode_with-Returns}

-- libopus on OPUS_SET_BITRATE, for an encoder of one channel: a rate from 500 to 300000 bits per
-- second is accepted; it is then the rate of the encoder, which OPUS_GET_BITRATE reads, until another
-- is set: coding and the other settings leave it. Nothing is said of rates beyond these, which the
-- library clamps, nor of encoders that were left to choose a rate.
pub record KeepsRates {Sample : Type 0} (opus : Opus Sample) : Type 1 where
  pub HasRate : ℕ → opus.Encoder → Type 0
  pub sets :
      (k : ℕ) (inner : opus.Encoder)
      → 500 ≤ k
      → k ≤ 300000
      → ((opus.set_bitrate (opus.bits_per_second (pos k)) inner).1 ≡ ok tt)
        × HasRate k (opus.set_bitrate (opus.bits_per_second (pos k)) inner).0
  pub reads :
      (k : ℕ) (inner : opus.Encoder)
      → HasRate k inner
      → opus.bitrate inner ≡ ok (opus.bits_per_second (pos k))
  pub encodes :
      (k : ℕ) (pcm : List Sample) (room : ℕ) (inner : opus.Encoder)
      → HasRate k inner
      → HasRate k (opus.encode_float pcm room inner).0
  pub vbr_kept :
      (k : ℕ) (inner : opus.Encoder) → HasRate k inner → HasRate k (opus.disable_vbr inner).0
  pub bandwidth_kept :
      (k : ℕ) (inner : opus.Encoder) → HasRate k inner → HasRate k (opus.set_max_narrowband inner).0

module _ {Sample : Type 0} (opus : Opus Sample) (law : IsLawful opus) (k : ℕ) where
  open opus use {Encoder, bitrate, bits_per_second}

  -- Each frame, with the length of the buffer for its packet, is coded by the encoder that the one
  -- before left: the loop returns, a packet fits, and the rate that is read is always the same.
  unfoldable pub CodesAll : ℕ → Encoder → List (List Sample × ℕ) → Type 0
  CodesAll fuel inner [] = bitrate inner ≡ ok (bits_per_second (pos k))
  CodesAll fuel inner ((pcm, output_len) ∷ frames) =
      (bitrate inner ≡ ok (bits_per_second (pos k)))
      × Returns (encode_with opus fuel pcm output_len inner) (
          Encoded opus law (λ left. CodesAll fuel left frames)
            (min output_len max_opus_wire_payload))

module _ {Sample : Type 0} (opus : Opus Sample) (law : IsLawful opus) (rates : KeepsRates opus)
    (k : ℕ) (low : 500 ≤ k) (high : k ≤ 300000) where
  open opus use {Encoder, bitrate, set_bitrate, bits_per_second, encoder_new}
  open rates use {HasRate}

  configured_ok :
      (r : Encoder × Result OpusError (Unit {0})) (inner : Encoder)
      → configured opus r ≡ ok inner
      → r.0 ≡ inner
  unfolding configured
  configured_ok (made, ok u) inner h = ok-injective made inner h
  configured_ok (made, err e) inner h = absurd cc

  and_then_ok :
      (r : Result VoiceError Encoder) (set : Encoder → Encoder × Result OpusError (Unit {0}))
      (inner : Encoder)
      → and_then opus r set ≡ ok inner
      → (made : Encoder) × (r ≡ ok made) × ((set made).0 ≡ inner)
  unfolding and_then
  and_then_ok (ok made) set inner h = (made, refl, configured_ok (set made) inner h)
  and_then_ok (err e) set inner h = absurd cc

  new_encoder-HasRate :
      (call : ℕ) (inner : Encoder) → new_encoder opus call (pos k) ≡ ok inner → HasRate k inner
  unfolding new_encoder
  new_encoder-HasRate call inner h =
      let (b, hb, eb) = and_then_ok _ opus.set_max_narrowband inner h in
      let (a, ha, ea) = and_then_ok _ opus.disable_vbr b hb in
      let (first, hf, ef) = and_then_ok _ (set_bitrate (bits_per_second (pos k))) a ha in
      subst (HasRate k) eb (
        rates.bandwidth_kept k b (
          subst (HasRate k) ea
            (rates.vbr_kept k a (subst (HasRate k) ef (rates.sets k first low high).1))))

  fallback-accepted :
      (attempt : ℕ) (inner : Encoder) → (set_bitrate (fallback opus attempt) inner).1 ≡ ok tt
  fallback-accepted attempt inner = elim (Bool-cases (attempt == 0)) [
    | inl first ↦ rw (first, fallback) (rates.sets 16000 inner (omega arith) (omega arith)).0
    | inr later ↦ rw (later, fallback) (rates.sets 12000 inner (omega arith) (omega arith)).0
  ]

  HasRate-refuses : Refuses opus law (HasRate k)
  HasRate-refuses attempt inner e h = let accepted = fallback-accepted attempt inner in absurd cc

  HasRate-restores :
      (saved : opus.Bitrate) (inner later : Encoder)
      → HasRate k inner
      → bitrate inner ≡ ok saved
      → HasRate k (set_bitrate saved later).0
  HasRate-restores saved inner later has read =
      let same : bits_per_second (pos k) ≡ saved =
        ok-injective _ saved (sym (rates.reads k inner has) ∙ read) in
      subst (λ b. HasRate k (set_bitrate b later).0) same (rates.sets k later low high).1

  CodesAll-HasRate :
      (fuel : ℕ) (inner : Encoder) (frames : List (List Sample × ℕ))
      → 3 ≤ fuel
      → HasRate k inner
      → CodesAll opus law k fuel inner frames
  unfolding CodesAll
  CodesAll-HasRate fuel inner [] enough has = rates.reads k inner has
  CodesAll-HasRate fuel inner ((pcm, output_len) ∷ frames) enough has = (
    rates.reads k inner has,
    Returns-map (encode_with opus fuel pcm output_len inner) (min output_len max_opus_wire_payload)
        (λ left kept. CodesAll-HasRate fuel left frames enough kept)
        (encode_with-Returns opus law (HasRate k) fuel pcm output_len inner enough HasRate-refuses
          has (λ room. rates.encodes k pcm room inner has)
          (λ saved read later. HasRate-restores saved inner later has read)),
  )
    where
      Returns-map :
          (r : Attempt opus) (room : ℕ)
          → ((left : Encoder) → HasRate k left → CodesAll opus law k fuel left frames)
          → Returns r (Encoded opus law (HasRate k) room)
          → Returns r (Encoded opus law (λ left. CodesAll opus law k fuel left frames) room)
      Returns-map none room f h = h
      Returns-map (some (left, ok packet)) room f h = (f left h.0, h.1)
      Returns-map (some (left, err e)) room f h = f left h

  -- An encoder that is made for a rate from 500 to 300000 codes any frames into buffers of any
  -- lengths: each time the loop returns, with fuel for three rounds; a packet fits its buffer and the
  -- payload of a datagram; and whatever came of the attempts at lower rates, before each frame and
  -- after the last the encoder reports the rate that it was made for.
  pub new_encoder-CodesAll :
      (call fuel : ℕ) (inner : Encoder) (frames : List (List Sample × ℕ))
      → 3 ≤ fuel
      → new_encoder opus call (pos k) ≡ ok inner
      → CodesAll opus law k fuel inner frames
  new_encoder-CodesAll call fuel inner frames enough made =
      CodesAll-HasRate fuel inner frames enough (new_encoder-HasRate call inner made)
