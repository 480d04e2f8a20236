-- ===== src/Protocol/Examples.antt =====
-- Datagrams and frames from the tests of common/src/protocol.rs, and the theorems at inputs.
use Prim.Native.String.{String}
use voicemcu.Base.{
  ℕ, ◌*◌, ◌<◌, ◌≡◌, refl, ◌⊎◌, List, [], ◌∷◌, ◌++◌, Result, ok, err, arith, length, take, ◌==◌,
  if◌then◌else◌, replicate,
}
use voicemcu.Base.Bytes.{to_be_bytes, from_be_bytes}
use voicemcu.Protocol.{
  end_of_stream, AudioFrameHeader, SignalMessage, leave, kick, Postcard, protocol, too_large,
  header_size, to_bytes, encode_audio_datagram, decode_audio_datagram, encode_signal, read_signal,
  write_signal, read_exact, read_or_end,
}
use voicemcu.Protocol.Datagram.{decode-encode, encode-decode}
use voicemcu.Protocol.Framing.{RoundTrips, read-write, read-truncated}

-- `audio_header_round_trip`.
abbrev sample_header : AudioFrameHeader
sample_header = record { client_id = 0xDEAD_BEEF_CAFE_BABE; sequence = 42; timestamp = 960 * 42 }

header_bytes :
    to_bytes sample_header
    ≡ 0xDE ∷ 0xAD ∷ 0xBE ∷ 0xEF ∷ 0xCA ∷ 0xFE ∷ 0xBA ∷ 0xBE ∷ 0 ∷ 0 ∷ 0 ∷ 42 ∷ 0 ∷ 0 ∷ 0x9D ∷ 0x80
      ∷ []
unfolding to_bytes to_be_bytes
header_bytes = refl

decode-encode_example :
    decode_audio_datagram (encode_audio_datagram sample_header (1 ∷ 2 ∷ 3 ∷ []))
    ≡ ok (sample_header, 1 ∷ 2 ∷ 3 ∷ [])
decode-encode_example = decode-encode sample_header (1 ∷ 2 ∷ 3 ∷ []) (omega arith)

-- `audio_datagram_too_short`.
abbrev short_datagram : List ℕ
short_datagram = replicate 15 0

encode-decode_example :
    ((length short_datagram < header_size)
      × (decode_audio_datagram short_datagram ≡ err (protocol "datagram too short for header")))
    ⊎ ((h : AudioFrameHeader) × (payload : List ℕ) × (decode_audio_datagram short_datagram
          ≡ ok (h, payload))
        × (encode_audio_datagram h payload ≡ short_datagram))
encode-decode_example = encode-decode short_datagram (omega arith)

-- A serializer for two of the messages that meets what is asked of `postcard`.
abbrev pub toy_encode : SignalMessage → Result String (List ℕ)
toy_encode leave = ok (1 ∷ [])
toy_encode (kick target) = ok (3 ∷ target ∷ [])
toy_encode _ = err "unsupported"

abbrev pub toy_decode : List ℕ → Result String SignalMessage
toy_decode (tag ∷ []) = if tag == 1 then ok leave else err "tag"
toy_decode (tag ∷ target ∷ []) = if tag == 3 then ok (kick target) else err "tag"
toy_decode _ = err "length"

abbrev pub toy : Postcard
toy = record { to_allocvec = toy_encode; from_slice = toy_decode }

pub toy-RoundTrips : RoundTrips toy
toy-RoundTrips leave bytes h = ground arith
toy-RoundTrips (kick target) bytes h = ground arith
toy-RoundTrips _ bytes h = cc

abbrev pub kick_frame : List ℕ
kick_frame = 0 ∷ 0 ∷ 0 ∷ 2 ∷ 3 ∷ 42 ∷ []

pub kick_written : write_signal toy (kick 42) ≡ ok kick_frame
unfolding write_signal encode_signal to_be_bytes
kick_written = refl

-- `framed_signal_round_trip`, with bytes behind the frame.
read-write_example : read_signal toy (kick_frame ++ 7 ∷ 8 ∷ []) ≡ ok (kick 42, 7 ∷ 8 ∷ [])
read-write_example =
    read-write toy toy-RoundTrips (kick 42) kick_frame kick_written (7 ∷ 8 ∷ []) (omega arith)

read-truncated_example : read_signal toy (take 5 kick_frame) ≡ err end_of_stream
read-truncated_example =
    read-truncated toy toy-RoundTrips (kick 42) kick_frame kick_written 5 (omega arith)
      (omega arith)

-- `framed_signal_rejects_oversized`.
oversized : read_signal toy (0 ∷ 1 ∷ 0 ∷ 1 ∷ []) ≡ err too_large
unfolding read_signal read_or_end read_exact from_be_bytes
oversized = refl
