-- ===== src/Codec.antt =====
-- common/src/codec.rs: the Opus encoder and decoder. `audiopus` is a parameter: the state of its
-- coders is opaque, and a call of it gives the new state and its result.
pub mod Encoding
pub mod Rates
pub mod Examples
use Prim.Native.String.{String}
use voicemcu.Base.{
  ℕ, zero, suc, ◌-◌, ◌==◌, min, ltb, Bool, true, false, Option, none, some, List, if◌then◌else◌,
  Result, ok, err,
}
use voicemcu.Base.Int.{ℤ, pos}
use voicemcu.Protocol.{VoiceError, codec, protocol, max_opus_wire_payload}

pub data OpusError : Type 0 where
  buffer_too_small : OpusError
  other : (text : String) → OpusError

-- `encode_float` is given the room for its output, and gives the bytes that it wrote; `decode_float`
-- is given the frame that it writes to, and gives that frame afterwards. The number of `encoder_new`
-- and `decoder_new` stands for the call.
pub record Opus (Sample : Type 0) : Type 1 where
  pub Encoder : Type 0
  pub Decoder : Type 0
  pub Bitrate : Type 0
  pub bits_per_second : ℤ → Bitrate
  pub encoder_new : ℕ → Result OpusError Encoder
  pub decoder_new : ℕ → Result OpusError Decoder
  pub bitrate : Encoder → Result OpusError Bitrate
  pub set_bitrate : Bitrate → Encoder → Encoder × Result OpusError (Unit {0})
  pub disable_vbr : Encoder → Encoder × Result OpusError (Unit {0})
  pub set_max_narrowband : Encoder → Encoder × Result OpusError (Unit {0})
  pub encode_float : List Sample → ℕ → Encoder → Encoder × Result OpusError (List ℕ)
  pub decode_float :
      Option (List ℕ) → List Sample → Decoder → Decoder × List Sample × Result OpusError ℕ
  pub text : OpusError → String

module _ {Sample : Type 0} (opus : Opus Sample) where
  open opus use {
    Encoder, Decoder, Bitrate, bits_per_second, encoder_new, decoder_new, bitrate, set_bitrate,
    disable_vbr, set_max_narrowband, encode_float, decode_float, text,
  }

  -- `?` on a call of the library.
  abbrev pub from_opus : {A : Type 0} → Result OpusError A → Result VoiceError A
  from_opus (ok a) = ok a
  from_opus (err e) = err (codec (text e))

  -- A setting on an encoder that is being built: an error drops it.
  pub configured : Encoder × Result OpusError (Unit {0}) → Result VoiceError Encoder
  configured (inner, ok u) = ok inner
  configured (inner, err e) = err (codec (text e))

  pub and_then :
      Result VoiceError Encoder
      → (Encoder → Encoder × Result OpusError (Unit {0}))
      → Result VoiceError Encoder
  and_then (ok inner) set = configured (set inner)
  and_then (err e) set = err e

  -- `OpusEncoder::new`.
  pub new_encoder : ℕ → ℤ → Result VoiceError Encoder
  new_encoder call bitrate_bps =
      and_then
        (and_then
          (and_then (from_opus (encoder_new call)) (set_bitrate (bits_per_second bitrate_bps)))
          disable_vbr)
        set_max_narrowband

  -- `OpusDecoder::new`.
  unfoldable pub new_decoder : ℕ → Result VoiceError Decoder
  new_decoder call = from_opus (decoder_new call)

  -- The bitrate of the next attempt.
  abbrev pub fallback : ℕ → Bitrate
  fallback attempt = bits_per_second (if attempt == 0 then pos 16000 else pos 12000)

  -- A packet that was written: the bitrate is put back, if it was changed.
  pub restore : Bitrate → ℕ → Encoder → Encoder
  restore saved attempt inner = if ltb 0 attempt then (set_bitrate saved inner).0 else inner

  abbrev pub Attempt : Type 0
  Attempt = Option (Encoder × Result VoiceError (List ℕ))

  -- The next round, at a lower bitrate; `?` ends the loop if that is refused.
  pub retry : (Encoder → Attempt) → Encoder × Result OpusError (Unit {0}) → Attempt
  retry again (lowered, ok u) = again lowered
  retry again (lowered, err e) = some (lowered, err (codec (text e)))

  -- An error that ends the loop.
  pub give_up : Bitrate → Encoder → OpusError → Attempt
  give_up saved inner e = some ((set_bitrate saved inner).0, err (codec (text e)))

  pub after_attempt :
      (Encoder → Attempt) → Bitrate → ℕ → Encoder × Result OpusError (List ℕ) → Attempt
  after_attempt again saved attempt (inner, ok packet) =
      some (restore saved attempt inner, ok packet)
  after_attempt again saved attempt (inner, err buffer_too_small) =
      if ltb attempt 2
      then retry again (set_bitrate (fallback attempt) inner)
      else give_up saved inner buffer_too_small
  after_attempt again saved attempt (inner, err (other why)) = give_up saved inner (other why)

  -- The loop; `none` means that the fuel ran out.
  pub encode_loop : ℕ → Bitrate → List Sample → ℕ → ℕ → Encoder → Attempt
  encode_loop zero saved pcm room attempt inner = none
  encode_loop (suc fuel) saved pcm room attempt inner =
      after_attempt (λ lowered. encode_loop fuel saved pcm room (suc attempt) lowered) saved attempt
        (encode_float pcm room inner)

  -- `OpusEncoder::encode` into a buffer of that length, for the packet in place of its length.
  pub encode_with : ℕ → List Sample → ℕ → Encoder → Attempt
  encode_with fuel pcm output_len inner =
      let room = min output_len max_opus_wire_payload in
      if room == 0
      then some (inner, err (protocol "opus encode output buffer has zero usable length"))
      else elim (bitrate inner) [
        | err e ↦ some (inner, err (codec (text e)))
        | ok saved ↦ encode_loop fuel saved pcm room 0 inner
      ]

  -- Three rounds are enough. The last case does not arise.
  pub encode : List Sample → ℕ → Encoder → Encoder × Result VoiceError (List ℕ)
  encode pcm output_len inner = elim (encode_with 3 pcm output_len inner) [
    | none ↦ (inner, err (codec "no result"))
    | some r ↦ r
  ]

  -- `OpusDecoder::decode` and `plc`: the decoder, the frame, and the number of samples.
  unfoldable pub decode :
      List ℕ → List Sample → Decoder → Decoder × List Sample × Result VoiceError ℕ
  decode packet output inner =
      let (inner', output', result) = decode_float (some packet) output inner in
      (inner', output', from_opus result)

  pub plc : List Sample → Decoder → Decoder × List Sample × Result VoiceError ℕ
  plc output inner =
      let (inner', output', result) = decode_float none output inner in
      (inner', output', from_opus result)
