-- ===== src/Mix/Tick.antt =====
-- server/src/main.rs, `room_mix_loop`: a turn of the loop. It is a function of the room's mix state, of
-- what the channels hold and of the server's room.
pub mod Invariant
mod Heard
pub mod Hearing
pub mod Runs
pub mod Numbering
pub mod Others
pub mod Streams
pub mod Delivery
use Prim.Native.String.{String}
use voicemcu.Base.{
  ℕ, zero, suc, ◌+◌, ◌*◌, ◌%◌, min, Bool, true, false, not, ◌&&◌, Option, none, some, List, [], ◌∷◌,
  ◌++◌, length, ltb, leb, ◌==◌, if◌then◌else◌, Result, ok, err, drop, map,
}
use voicemcu.Base.Words.{wrapping_add, wrapping_mul}
use voicemcu.Base.Assoc.{ℕ_eq, String_eq, lookup, insert, remove}
use voicemcu.Protocol.{
  ClientId, AudioFrameHeader, frame_size, max_opus_packet_size, header_size, VoiceError,
  decode_audio_datagram, encode_audio_datagram,
}
use voicemcu.Config.{ServerConfig}
use voicemcu.Audio.{Float, PcmFrame, silence_frame, is_voice_active, mix_frames, soft_clip_frame}
use voicemcu.Codec.{Opus, new_encoder, new_decoder, encode, decode, plc}
use voicemcu.Jitter
use voicemcu.Jitter.{JitterBuffer, pop, advance_expected, reset}
use voicemcu.Server.{MixCommand, add_client, remove_client, ClientState, Room, Server}
use voicemcu.Server.Signaling.{member}
use voicemcu.Mix.{
  AudioPacket, Channels, MixClientState, MixClients, apply_commands, drain_all, emptied, solo,
}

abbrev pub plc_reset_streak : ℕ
plc_reset_streak = 50

-- `saturating_add(1)` on a u16.
abbrev pub saturating_suc_u16 : ℕ → ℕ
saturating_suc_u16 n = min (n + 1) 65535

module _ (f : Float) (opus : Opus f.Sample) where
  open f use {Sample, from_bits}
  open opus use {Encoder, Decoder}

  -- The frame of a client in this tick, if there is one.
  pub conceal : MixClientState f opus → MixClientState f opus × Option (PcmFrame f)
  conceal ms =
      let (decoder, frame, _) = plc opus (silence_frame f) ms.decoder in
      (
        record ms { decoder = decoder; jitter_buffer = advance_expected ms.jitter_buffer },
        some frame,
      )

  pub underrun : MixClientState f opus → MixClientState f opus × Option (PcmFrame f)
  underrun ms =
      let streak = saturating_suc_u16 ms.plc_streak in
      if leb plc_reset_streak streak
      then (record ms { jitter_buffer = reset ms.jitter_buffer; plc_streak = 0 }, none)
      else if not ms.had_rx_this_tick
      then (record ms { plc_streak = streak }, none)
      else conceal (record ms { plc_streak = streak })

  pub next_frame : MixClientState f opus → MixClientState f opus × Option (PcmFrame f)
  next_frame ms =
      let (b, popped) = pop ms.jitter_buffer in
      elim popped [
        | some frame ↦ (record ms { jitter_buffer = b; plc_streak = 0 }, some frame)
        | none ↦
            if not b.initialized
            then (record ms { jitter_buffer = b }, none)
            else underrun (record ms { jitter_buffer = b })
      ]

  abbrev pub MixFrame : Type 0
  MixFrame = ClientId × PcmFrame f × Bool

  pub is_active : ServerConfig → Room → ClientId → PcmFrame f → Bool
  is_active config room id frame = elim (lookup id room.clients) [
    | none ↦ false
    | some state ↦
        not state.muted
        && not state.server_muted
        && is_voice_active f frame (from_bits config.vad_threshold)
  ]

  abbrev pub mix_frame : ServerConfig → Room → ClientId → Option (PcmFrame f) → List MixFrame
  mix_frame config room id none = []
  mix_frame config room id (some frame) = (id, frame, is_active config room id frame) ∷ []

  pub collect : ServerConfig → Room → MixClients f opus → MixClients f opus × List MixFrame
  collect config room [] = ([], [])
  collect config room ((id, ms) ∷ clients) =
      let (ms', frame) = next_frame ms in
      let (clients', frames) = collect config room clients in
      ((id, ms') ∷ clients', mix_frame config room id frame ++ frames)

  -- What one client hears.
  pub sources : ClientId → List ClientId → List MixFrame → List (PcmFrame f)
  sources dest_id blocked [] = []
  sources dest_id blocked ((id, frame, active) ∷ frames) =
      let rest = sources dest_id blocked frames in
      if not (id == dest_id) && active && not (member id blocked) then frame ∷ rest else rest

  -- A datagram on its way to a client; the connection may refuse it.
  pub record Sent : Type 0 where
    pub dest : ClientId
    pub connection : ℕ
    pub datagram : List ℕ

  abbrev pub mix_header : ClientId → ℕ → AudioFrameHeader
  mix_header dest_id seq = record {
    client_id = dest_id;
    sequence = seq;
    timestamp = wrapping_mul seq frame_size;
  }

  -- Mixing and encoding of a list of sources that is not empty.
  pub send_mix :
      ClientId
      → ClientState
      → List (PcmFrame f)
      → MixClientState f opus
      → MixClientState f opus × List Sent
  send_mix dest_id state heard ms =
      let (encoder, result) =
        encode opus (soft_clip_frame f (mix_frames f heard)) max_opus_packet_size ms.encoder in
      elim result [
        | err e ↦ (record ms { encoder = encoder }, [])
        | ok packet ↦ (
          record ms { encoder = encoder; out_sequence = wrapping_add ms.out_sequence 1 },
          record {
            dest = dest_id;
            connection = state.connection;
            datagram = encode_audio_datagram (mix_header dest_id ms.out_sequence) packet;
          }
              ∷ [],
        )
      ]

  abbrev pub mix_heard :
      ClientId
      → ClientState
      → List (PcmFrame f)
      → MixClientState f opus
      → MixClientState f opus × List Sent
  mix_heard dest_id state [] ms = (ms, [])
  mix_heard dest_id state (frame ∷ heard) ms = send_mix dest_id state (frame ∷ heard) ms

  pub mix_for :
      Room → List MixFrame → ClientId → MixClientState f opus → MixClientState f opus × List Sent
  mix_for room frames dest_id ms = elim (lookup dest_id room.clients) [
    | none ↦ (ms, [])
    | some state ↦ mix_heard dest_id state (sources dest_id state.blocked_peers frames) ms
  ]

  pub mix_all : Room → List MixFrame → MixClients f opus → MixClients f opus × List Sent
  mix_all room frames [] = ([], [])
  mix_all room frames ((dest_id, ms) ∷ clients) =
      let (ms', sent) = mix_for room frames dest_id ms in
      let (clients', sent') = mix_all room frames clients in
      ((dest_id, ms') ∷ clients', sent ++ sent')

  -- How a tick ends.
  pub data TickEnd : Type 0 where
    goes_on : (clients : MixClients f opus) (channels : Channels) (sent : List Sent) → TickEnd
    ends : TickEnd

  pub mix_room : ServerConfig → Room → MixClients f opus → MixClients f opus × List Sent
  mix_room config room clients =
      let (popped, frames) = collect config room clients in mix_all room frames popped

  -- One turn of the loop, with the commands that are in the channel and whether it is then closed.
  pub mix_tick : Server → String → List MixCommand → Bool → MixClients f opus → Channels → TickEnd
  mix_tick server room_code commands closed clients channels =
      if closed
      then ends
      else (let joined = apply_commands f opus server.config clients commands in
          let drained = drain_all f opus channels joined in
          let channels' = emptied f opus joined channels in
          if ltb (length drained) 2
          then goes_on (solo f opus drained) channels' []
          else elim (lookup room_code server.rooms) [
            | none ↦ ends
            | some room ↦
                let (mixed, sent) = mix_room server.config room drained in
                goes_on mixed channels' sent
          ])
