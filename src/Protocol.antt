-- ===== src/Protocol.antt =====
-- common/src/protocol.rs and common/src/error.rs: the signaling messages, the audio header and the
-- wire formats.
pub mod Datagram
pub mod Framing
pub mod Examples
use mathlib.Core.List.{◌++◌}
use voicemcu.Base.{
  ℕ, ◌%◌, ◌*◌, ◌/◌, ◌^◌, ◌≡◌, Bool, true, false, Option, none, some, List, Result, ok, err, ◌>>=◌,
  ◌>>◌, map_err, ensure, leb, ltb, if◌then◌else◌, length, take, drop,
}
use voicemcu.Base.Bytes.{to_be_bytes, from_be_bytes}
use Prim.Native.String.{String}

-- `f32`, `audiopus` and the sockets are elsewhere; a failure of the codec or of the transport
-- carries only its text.
pub data VoiceError : Type 0 where
  codec : String → VoiceError
  protocol : String → VoiceError
  io : String → VoiceError

abbrev pub ClientId : Type 0
ClientId = ℕ

abbrev pub sample_rate : ℕ
sample_rate = 48000

abbrev pub frame_duration_ms : ℕ
frame_duration_ms = 20

abbrev pub frame_size : ℕ
frame_size = sample_rate * frame_duration_ms / 1000

abbrev pub max_opus_packet_size : ℕ
max_opus_packet_size = 1275

abbrev pub max_opus_wire_payload : ℕ
max_opus_wire_payload = 480

abbrev pub default_bitrate : ℕ
default_bitrate = 24000

pub record ClientInfo : Type 0 where
  pub client_id : ClientId
  pub display_name : String
  pub muted : Bool
  pub server_muted : Bool
  pub is_host : Bool

pub data SignalMessage : Type 0 where
  join : (room_code display_name : String) → SignalMessage
  leave : SignalMessage
  mute : (muted : Bool) → SignalMessage
  kick : (target : ClientId) → SignalMessage
  server_mute : (target : ClientId) (muted : Bool) → SignalMessage
  block_peer : (target : ClientId) → SignalMessage
  unblock_peer : (target : ClientId) → SignalMessage
  joined : (client_id : ClientId) → SignalMessage
  room_info : (clients : List ClientInfo) → SignalMessage
  client_joined : (client_id : ClientId) (display_name : String) → SignalMessage
  client_left : (client_id : ClientId) → SignalMessage
  you_are_host : SignalMessage
  kicked : (reason : String) → SignalMessage
  peer_muted : (client_id : ClientId) (muted by_server : Bool) → SignalMessage
  error : (message : String) → SignalMessage

pub record AudioFrameHeader : Type 0 where
  pub client_id : ClientId
  pub sequence : ℕ
  pub timestamp : ℕ

abbrev pub header_size : ℕ
header_size = 16

pub to_bytes : AudioFrameHeader → List ℕ
to_bytes h = to_be_bytes 8 h.client_id ++ (to_be_bytes 4 h.sequence ++ to_be_bytes 4 h.timestamp)

unfoldable pub from_bytes : List ℕ → AudioFrameHeader
from_bytes buf = record {
  client_id = from_be_bytes (take 8 buf);
  sequence = from_be_bytes (take 4 (drop 8 buf));
  timestamp = from_be_bytes (take 4 (drop 12 buf));
}

pub encode_audio_datagram : AudioFrameHeader → List ℕ → List ℕ
encode_audio_datagram header opus_payload = to_bytes header ++ opus_payload

-- The conversion of a slice of length 16 to an array of length 16 cannot fail.
unfoldable pub decode_audio_datagram : List ℕ → Result VoiceError (AudioFrameHeader × List ℕ)
decode_audio_datagram bytes =
    if ltb (length bytes) header_size
    then err (protocol "datagram too short for header")
    else ok (from_bytes (take header_size bytes), drop header_size bytes)

-- The serializer `postcard`, which the messages go through. Its errors are seen by their text only.
pub record Postcard : Type 0 where
  pub to_allocvec : SignalMessage → Result String (List ℕ)
  pub from_slice : List ℕ → Result String SignalMessage

abbrev pub max_signal_len : ℕ
max_signal_len = 65536

-- `read_exact`: the bytes that were asked for and the rest of the stream, or the end of the stream.
unfoldable pub read_exact : ℕ → List ℕ → Option (List ℕ × List ℕ)
read_exact n stream = if leb n (length stream) then some (take n stream, drop n stream) else none

-- The ways in which `read_signal` fails; every caller then gives the stream up.
pub data ReadError : Type 0 where
  end_of_stream : ReadError
  too_large : ReadError
  undecodable : VoiceError → ReadError

unfoldable pub read_or_end : ℕ → List ℕ → Result ReadError (List ℕ × List ℕ)
read_or_end n stream = elim (read_exact n stream) [ none ↦ err end_of_stream | some r ↦ ok r ]

module _ (postcard : Postcard) where
  unfoldable pub encode_signal : SignalMessage → Result VoiceError (List ℕ)
  encode_signal msg = map_err protocol (postcard.to_allocvec msg)

  unfoldable pub decode_signal : List ℕ → Result VoiceError SignalMessage
  decode_signal bytes = map_err protocol (postcard.from_slice bytes)

  -- The message, and what is left of the stream.
  unfoldable pub read_signal : List ℕ → Result ReadError (SignalMessage × List ℕ)
  read_signal stream = do
    (len_buf, rest) ← read_or_end 4 stream
    let len = from_be_bytes len_buf
    ensure (leb len max_signal_len) too_large
    (bytes, rest') ← read_or_end len rest
    msg ← map_err undecodable (decode_signal bytes)
    ok (msg, rest')

  -- The bytes that the two `write_all` calls put on a stream that takes them.
  unfoldable pub write_signal : SignalMessage → Result VoiceError (List ℕ)
  write_signal msg = do
    bytes ← encode_signal msg
    ok (to_be_bytes 4 (length bytes % 2 ^ 32) ++ bytes)

  -- server/src/main.rs: the same frame as one buffer, or nothing if the message has no encoding.
  pub frame_signal : SignalMessage → Option (List ℕ)
  frame_signal msg = elim (encode_signal msg) [
    | err e ↦ none
    | ok bytes ↦ some (to_be_bytes 4 (length bytes % 2 ^ 32) ++ bytes)
  ]
