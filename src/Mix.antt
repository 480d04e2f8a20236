-- ===== src/Mix.antt =====
-- server/src/main.rs, `recv_datagrams` and `room_mix_loop`: the audio of a room. Here what comes in:
-- the channels of packets, the commands, the decoding, and the loop for a client that is alone.
-- Mix/Tick is the tick of a room.
--
-- The order in which a map is gone through is that of the list. Whether the commands' channel is
-- closed, and how a coder starts, comes from outside.
mod Drain
mod Invariant
pub mod Tick
mod Examples
use Prim.Native.String.{String}
use voicemcu.Base.{
  ℕ, zero, suc, ◌+◌, ◌*◌, ◌%◌, min, Bool, true, false, not, ◌&&◌, Option, none, some, List, [], ◌∷◌,
  ◌++◌, length, ltb, leb, ◌==◌, if◌then◌else◌, Result, ok, err, drop, map,
}
use voicemcu.Base.Words.{wrapping_add, wrapping_mul}
use voicemcu.Base.Assoc.{ℕ_eq, String_eq, lookup, insert, remove}
use voicemcu.Protocol.{
  ClientId, AudioFrameHeader, frame_size, max_opus_packet_size, header_size, VoiceError,
  decode_audio_datagram, encode_audio_datagram,
}
use voicemcu.Config.{ServerConfig}
use voicemcu.Audio.{Float, PcmFrame, silence_frame, is_voice_active, mix_frames, soft_clip_frame}
use voicemcu.Codec.{Opus, new_encoder, new_decoder, encode, decode, plc}
use voicemcu.Jitter
use voicemcu.Jitter.{JitterBuffer, pop, advance_expected, reset}
use voicemcu.Server.{MixCommand, add_client, remove_client, ClientState, Room, Server}
use voicemcu.Server.Signaling.{member}

pub record AudioPacket : Type 0 where
  pub sequence : ℕ
  pub payload : List ℕ

-- The audio channels, by connection.
abbrev pub Channels : Type 0
Channels = List (ℕ × List AudioPacket)

abbrev pub audio_capacity : ℕ
audio_capacity = 256

abbrev pub queued : ℕ → Channels → List AudioPacket
queued connection channels = elim (lookup connection channels) [
  | none ↦ []
  | some packets ↦ packets
]

-- `try_send`: a full channel drops the packet.
pub push_packet : Channels → ℕ → AudioPacket → Channels
push_packet channels connection packet =
    let packets = queued connection channels in
    if ltb (length packets) audio_capacity
    then insert connection (packets ++ packet ∷ []) channels
    else channels

-- One turn of `recv_datagrams` with a datagram: a malformed one is skipped.
pub recv_datagram : Channels → ℕ → List ℕ → Channels
recv_datagram channels connection bytes = elim (decode_audio_datagram bytes) [
  | err e ↦ channels
  | ok (header, payload) ↦
      push_packet channels connection
        (record { sequence = header.sequence; payload = drop header_size bytes })
]

module _ (f : Float) (opus : Opus f.Sample) where
  open f use {Sample, from_bits}
  open opus use {Encoder, Decoder}

  pub record MixClientState : Type 0 where
    pub jitter_buffer : JitterBuffer (PcmFrame f)
    pub decoder : Decoder
    pub encoder : Encoder
    pub audio_rx : ℕ
    pub out_sequence : ℕ
    pub plc_streak : ℕ
    pub had_rx_this_tick : Bool

  abbrev pub MixClients : Type 0
  MixClients = List (ClientId × MixClientState)

  -- `none` is the panic of a depth of 0.
  pub new_mix_client : ℕ → Decoder → Encoder → ℕ → Option MixClientState
  new_mix_client jitter_depth decoder encoder audio_rx =
      elim (Jitter.new {A = PcmFrame f} jitter_depth) [
        | none ↦ none
        | some jitter_buffer ↦ some (record {
          jitter_buffer = jitter_buffer;
          decoder = decoder;
          encoder = encoder;
          audio_rx = audio_rx;
          out_sequence = 0;
          plc_streak = 0;
          had_rx_this_tick = false;
        })
      ]

  abbrev pub or_same : MixClients → ClientId → Option MixClientState → MixClients
  or_same clients client_id none = clients
  or_same clients client_id (some ms) = insert client_id ms clients

  -- A coder that does not start leaves the client out. The panic does not arise where the depth
  -- is that of a valid configuration.
  pub apply_command : ServerConfig → MixClients → MixCommand → MixClients
  apply_command config clients (add_client client_id audio_rx) = elim (new_decoder opus client_id) [
    | err e ↦ clients
    | ok decoder ↦ elim (new_encoder opus client_id config.bitrate) [
      | err e ↦ clients
      | ok encoder ↦
          or_same clients client_id (new_mix_client config.jitter_depth decoder encoder audio_rx)
    ]
  ]
  apply_command config clients (remove_client client_id) = remove client_id clients

  pub apply_commands : ServerConfig → MixClients → List MixCommand → MixClients
  apply_commands config clients [] = clients
  apply_commands config clients (c ∷ commands) =
      apply_commands config (apply_command config clients c) commands

  -- A packet of the channel: its frame, or silence in its place, goes to the jitter buffer.
  pub take_packet : MixClientState → AudioPacket → MixClientState
  take_packet ms packet =
      let (decoder, pcm, result) = decode opus packet.payload (silence_frame f) ms.decoder in
      let frame = elim result as (λ r. PcmFrame f) [ ok samples ↦ pcm | err e ↦ silence_frame f ] in
      record ms {
        decoder = decoder;
        jitter_buffer = (Jitter.insert ms.jitter_buffer packet.sequence frame).0;
        had_rx_this_tick = true;
      }

  pub take_packets : MixClientState → List AudioPacket → MixClientState
  take_packets ms [] = ms
  take_packets ms (packet ∷ packets) = take_packets (take_packet ms packet) packets

  pub drain_client : Channels → MixClientState → MixClientState
  drain_client channels ms =
      take_packets (record ms { had_rx_this_tick = false }) (queued ms.audio_rx channels)

  pub drain_all : Channels → MixClients → MixClients
  drain_all channels [] = []
  drain_all channels ((id, ms) ∷ clients) =
      (id, drain_client channels ms) ∷ drain_all channels clients

  -- The channels that a mix client reads are empty after it.
  pub emptied : MixClients → Channels → Channels
  emptied [] channels = channels
  emptied ((id, ms) ∷ clients) channels = emptied clients (insert ms.audio_rx [] channels)

  -- `while ms.jitter_buffer.pop().is_some() {}`, on fuel.
  pub pop_all : ℕ → JitterBuffer (PcmFrame f) → JitterBuffer (PcmFrame f)
  pop_all zero b = b
  pop_all (suc fuel) b = elim (pop b).1 [ none ↦ (pop b).0 | some frame ↦ pop_all fuel (pop b).0 ]

  pub drain_jitter : MixClientState → MixClientState
  drain_jitter ms = record ms {
    jitter_buffer = pop_all (length ms.jitter_buffer.slots + 1) ms.jitter_buffer;
  }

  pub solo : MixClients → MixClients
  solo [] = []
  solo ((id, ms) ∷ clients) = (id, drain_jitter ms) ∷ solo clients
