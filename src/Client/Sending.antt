-- ===== src/Client/Sending.antt =====
-- `capture_encode_loop` and `test_tone_loop` of client/src/main.rs. A turn begins when the timer
-- fires; what the microphone has added since, and whether the connection takes the datagram, come
-- from outside.
pub mod Stream
use voicemcu.Base.{
  ℕ, zero, suc, ◌+◌, ◌≤◌, min, leb, Bool, true, false, Option, none, some, List, [], ◌∷◌, ◌++◌,
  length, drop, if◌then◌else◌, Result, ok, err,
}
use voicemcu.Base.Int.{ℤ}
use voicemcu.Base.Words.{wrapping_add, wrapping_mul}
use voicemcu.Protocol.{
  ClientId, AudioFrameHeader, frame_size, sample_rate, max_opus_packet_size, encode_audio_datagram,
}
use voicemcu.Audio.{Float, PcmFrame, silence_frame}
use voicemcu.Codec.{Opus, new_encoder, encode}

abbrev pub codec_reset_threshold : ℕ
codec_reset_threshold = 3

-- `saturating_add(1)` on a u8.
abbrev pub saturating_suc_u8 : ℕ → ℕ
saturating_suc_u8 n = min (n + 1) 255

-- The ring between two threads: `pop_slice` gives at most that many samples, `push_slice` takes
-- some, and tells how many.
pub record Ring (Sample : Type 0) : Type 1 where
  pub Buffer : Type 0
  pub pop_slice : ℕ → Buffer → Buffer × List Sample
  pub push_slice : List Sample → Buffer → Buffer × ℕ

module _ (f : Float) where
  open f use {Sample, zero_sample, add, sub, mul, div, le, sin, of_ℕ, from_bits}

  -- One sample of the test tone, and the phase after it. The bits are those of pi and of 0.3.
  pub tone_sample : Sample → Sample × Sample
  tone_sample phase =
      let next = add phase (div (of_ℕ 440) (of_ℕ sample_rate)) in
      (
        mul (sin (mul (mul phase (of_ℕ 2)) (from_bits 1078530011))) (from_bits 1050253722),
        if le (of_ℕ 1) next then sub next (of_ℕ 1) else next,
      )

  pub tone : ℕ → Sample → Sample × PcmFrame f
  tone zero phase = (phase, [])
  tone (suc n) phase =
      let (sample, next) = tone_sample phase in
      let (last, samples) = tone n next in (last, sample ∷ samples)

  -- The frame of a turn of the capture loop: silence, over which the samples of the ring are written.
  pub capture_frame : (ring : Ring Sample) → List Sample → ring.Buffer → ring.Buffer × PcmFrame f
  capture_frame ring captured buffer =
      let (rest, samples) = ring.pop_slice frame_size (ring.push_slice captured buffer).0 in
      (rest, samples ++ drop (length samples) (silence_frame f))

module _ (f : Float) (opus : Opus f.Sample) where
  open f use {Sample, zero_sample}
  open opus use {Encoder}

  pub record SendState : Type 0 where
    pub encoder : Encoder
    pub encode_fail_streak : ℕ
    pub sequence : ℕ

  -- What a turn finds: the samples captured since the last one, and whether the connection is open.
  -- `call` is the number of the call that makes a new encoder, if there is one.
  pub record SendTurn : Type 0 where
    pub captured : List Sample
    pub call : ℕ
    pub is_open : Bool

  pub reset_encoder : ℕ → ℤ → SendState → SendState
  reset_encoder call bitrate s = elim (new_encoder opus call bitrate) [
    | err e ↦ s
    | ok encoder ↦ record s { encoder = encoder; encode_fail_streak = 0 }
  ]

  pub encode_failed : ℕ → ℤ → SendState → SendState
  encode_failed call bitrate s =
      let streak = saturating_suc_u8 s.encode_fail_streak in
      let failed = record s { encode_fail_streak = streak } in
      if leb codec_reset_threshold streak then reset_encoder call bitrate failed else failed

  abbrev pub send_header : ClientId → ℕ → AudioFrameHeader
  send_header client_id sequence = record {
    client_id = client_id;
    sequence = sequence;
    timestamp = wrapping_mul sequence frame_size;
  }

  -- What a turn leaves: the state after it and what it sent, or the end of the loop.
  pub data Turned : Type 0 where
    goes_on : (s : SendState) (sent : Option (List ℕ)) → Turned
    stops : Turned

  pub send_packet : ClientId → SendState → List ℕ → Bool → Turned
  send_packet client_id s packet is_open =
      if is_open
      then goes_on (record s { sequence = wrapping_add s.sequence 1 })
          (some (encode_audio_datagram (send_header client_id s.sequence) packet))
      else stops

  pub send_frame : ClientId → ℤ → SendTurn → PcmFrame f → SendState → Turned
  send_frame client_id bitrate turn pcm s =
      let (encoder, result) = encode opus pcm max_opus_packet_size s.encoder in
      elim result [
        | err e ↦ goes_on (encode_failed turn.call bitrate (record s { encoder = encoder })) none
        | ok packet ↦
            send_packet client_id (record s { encoder = encoder; encode_fail_streak = 0 }) packet
              turn.is_open
      ]

  abbrev pub sent_list : Option (List ℕ) → List (List ℕ)
  sent_list none = []
  sent_list (some datagram) = datagram ∷ []

  module _ {Source : Type 0} (frame : List Sample → Source → Source × PcmFrame f)
      (client_id : ClientId) (bitrate : ℤ) where
    -- The loop, with the datagrams that it sends over some turns.
    pub send_loop : List SendTurn → Source → SendState → List (List ℕ)
    send_loop [] source s = []
    send_loop (turn ∷ turns) source s =
        let (source', pcm) = frame turn.captured source in
        elim (send_frame client_id bitrate turn pcm s) [
          | stops ↦ []
          | goes_on s' sent ↦ sent_list sent ++ send_loop turns source' s'
        ]

    -- An encoder that does not start ends the task at once.
    pub start_loop : ℕ → List SendTurn → Source → List (List ℕ)
    start_loop call turns source = elim (new_encoder opus call bitrate) [
      | err e ↦ []
      | ok encoder ↦
          send_loop turns source
            (record { encoder = encoder; encode_fail_streak = 0; sequence = 0 })
    ]

  pub capture_encode_loop :
      (ring : Ring Sample) → ClientId → ℤ → ℕ → List SendTurn → ring.Buffer → List (List ℕ)
  capture_encode_loop ring client_id bitrate = start_loop (capture_frame f ring) client_id bitrate

  pub test_tone_loop : ClientId → ℤ → ℕ → List SendTurn → List (List ℕ)
  test_tone_loop client_id bitrate call turns =
      start_loop (λ captured phase. tone f frame_size phase) client_id bitrate call turns
        zero_sample
