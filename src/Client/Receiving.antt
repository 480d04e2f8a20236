-- ===== src/Client/Receiving.antt =====
-- `recv_decode_loop` of client/src/main.rs: datagrams go to a jitter buffer, and each 20 ms a frame
-- of it goes to the loudspeaker. An event is what `select!`
-- takes; the end of the connection is the end of the events.
pub mod Playing
pub mod Reached
mod Examples
use voicemcu.Base.{
  ℕ, ◌+◌, min, leb, not, Bool, true, false, Option, none, some, List, [], ◌∷◌, ◌++◌, if◌then◌else◌,
  Result, ok, err,
}
use voicemcu.Protocol.{VoiceError, AudioFrameHeader, decode_audio_datagram}
use voicemcu.Audio.{Float, PcmFrame, silence_frame}
use voicemcu.Codec.{Opus, new_decoder, decode, plc}
use voicemcu.Jitter
use voicemcu.Jitter.{JitterBuffer, default_jitter_depth, pop, advance_expected}
use voicemcu.Client.Sending.{codec_reset_threshold, saturating_suc_u8}

module _ (f : Float) (opus : Opus f.Sample) where
  open f use {Sample}
  open opus use {Decoder}

  pub record RecvState : Type 0 where
    pub decode_fail_streak : ℕ
    pub decoder : Decoder
    pub jitter_buf : JitterBuffer (PcmFrame f)

  -- `none` would be the panic of a depth of 0.
  pub with_decoder : Decoder → Option RecvState
  with_decoder decoder = elim (Jitter.new {A = PcmFrame f} default_jitter_depth) [
    | none ↦ none
    | some jitter_buf ↦
        some (record { decode_fail_streak = 0; decoder = decoder; jitter_buf = jitter_buf })
  ]

  abbrev pub or_unchanged : RecvState → Option RecvState → RecvState
  or_unchanged s none = s
  or_unchanged s (some fresh) = fresh

  -- The first statements of the task; a decoder that does not start ends it.
  pub start_receiving : ℕ → Option RecvState
  start_receiving call = elim (new_decoder opus call) [
    | err e ↦ none
    | ok decoder ↦ with_decoder decoder
  ]

  pub reset_decoder : ℕ → RecvState → RecvState
  reset_decoder call s = elim (new_decoder opus call) [
    | err e ↦ s
    | ok decoder ↦ or_unchanged s (with_decoder decoder)
  ]

  pub decode_failed : ℕ → RecvState → RecvState
  decode_failed call s =
      let streak = saturating_suc_u8 s.decode_fail_streak in
      let failed = record s { decode_fail_streak = streak } in
      if leb codec_reset_threshold streak then reset_decoder call failed else failed

  pub decoded_frame : ℕ → RecvState → ℕ → Decoder × PcmFrame f × Result VoiceError ℕ → RecvState
  decoded_frame call s sequence (decoder, pcm, err e) =
      decode_failed call (record s { decoder = decoder })
  decoded_frame call s sequence (decoder, pcm, ok samples) = record {
    decode_fail_streak = 0;
    decoder = decoder;
    jitter_buf = (Jitter.insert s.jitter_buf sequence pcm).0;
  }

  -- `call` is the number of the call that makes a new decoder, if there is one.
  pub receive : ℕ → List ℕ → RecvState → RecvState
  receive call bytes s = elim (decode_audio_datagram bytes) [
    | err e ↦ s
    | ok (header, opus_payload) ↦
        decoded_frame call s header.sequence (decode opus opus_payload (silence_frame f) s.decoder)
  ]

  -- The frame that the timer sends to the ring of the loudspeaker.
  pub next_or_concealed :
      RecvState → JitterBuffer (PcmFrame f) × Option (PcmFrame f) → RecvState × Option (PcmFrame f)
  next_or_concealed s (b, some frame) = (record s { jitter_buf = b }, some frame)
  next_or_concealed s (b, none) =
      let (decoder, frame, _) = plc opus (silence_frame f) s.decoder in
      (record s { decoder = decoder; jitter_buf = advance_expected b }, some frame)

  pub play : RecvState → RecvState × Option (PcmFrame f)
  play s =
      if not s.jitter_buf.initialized then (s, none) else next_or_concealed s (pop s.jitter_buf)

  pub data RecvEvent : Type 0 where
    arrives : (call : ℕ) (bytes : List ℕ) → RecvEvent
    ticks : RecvEvent

  pub recv_turn : RecvEvent → RecvState → RecvState × Option (PcmFrame f)
  recv_turn (arrives call bytes) s = (receive call bytes s, none)
  recv_turn ticks s = play s

  abbrev pub pushed : Option (PcmFrame f) → List (PcmFrame f)
  pushed none = []
  pushed (some frame) = frame ∷ []

  -- The loop over some events, with the frames that it sends to the ring.
  pub recv_decode_loop : RecvState → List RecvEvent → RecvState × List (PcmFrame f)
  recv_decode_loop s [] = (s, [])
  recv_decode_loop s (e ∷ events) =
      let (s', frame) = recv_turn e s in
      let (last, frames) = recv_decode_loop s' events in (last, pushed frame ++ frames)
