-- ===== src/Client/Receiving/Reached.antt =====
-- The states that the receiving loop reaches, and what is played from them.
use voicemcu.Base.{
  ℕ, ◌%◌, ◌≤◌, ◌<◌, ◌≡◌, ap, ◌∙◌, subst, inl, inr, true, not, Option, none, some, List, [], ◌∷◌,
  ◌++◌, replicate, arith, if_all, leb, Option-cases, Result-cases, Result, ok, err,
}
use voicemcu.Base.Bytes.{IsBytes}
use voicemcu.Base.Words.{u32_mod}
use voicemcu.Protocol.{VoiceError, decode_audio_datagram}
use voicemcu.Protocol.Datagram.{sequence-lt}
use voicemcu.Audio.{Float, PcmFrame, silence_frame}
use voicemcu.Codec.{Opus, new_decoder, decode}
use voicemcu.Jitter
use voicemcu.Jitter.{JitterBuffer, default_jitter_depth, pop, advance_expected}
use voicemcu.Jitter.Depth.{new-depth, insert-depth, pop-depth, advance_expected-depth}
use voicemcu.Jitter.Invariant.{
  IsValid, new-IsValid, insert-IsValid, pop-IsValid, advance_expected-IsValid,
}
use voicemcu.Jitter.View.{at}
use voicemcu.Jitter.Playout.{AllInWindow, latest, consecutive}
use voicemcu.Client.Sending.{codec_reset_threshold, saturating_suc_u8}
use voicemcu.Client.Receiving.{
  RecvState, RecvEvent, arrives, ticks, with_decoder, start_receiving, reset_decoder, decode_failed,
  decoded_frame, receive, next_or_concealed, play, recv_turn, recv_decode_loop,
}
use voicemcu.Client.Receiving.Playing.{Plays, arrivals, decoded_packets, recv_decode_loop-Plays}

module _ (f : Float) (opus : Opus f.Sample) where
  open opus use {Decoder}

  -- A datagram is a list of bytes.
  abbrev pub IsEvent : RecvEvent f opus → Type 0
  IsEvent (arrives call bytes) = IsBytes bytes
  IsEvent ticks = Unit

  abbrev pub AreEvents : List (RecvEvent f opus) → Type 0
  AreEvents [] = Unit
  AreEvents (e ∷ events) = IsEvent e × AreEvents events

  abbrev IsSound : JitterBuffer (PcmFrame f) → Type 0
  IsSound b = IsValid b × (b.depth ≡ default_jitter_depth)

  abbrev IsReady : RecvState f opus → Type 0
  IsReady s = IsSound s.jitter_buf

  with_decoder-IsReady :
      (decoder : Decoder) (s : RecvState f opus) → with_decoder f opus decoder ≡ some s → IsReady s
  unfolding with_decoder
  with_decoder-IsReady decoder s e =
      elim (Option-cases (Jitter.new {A = PcmFrame f} default_jitter_depth)) [
        | inl k ↦ absurd (ground (arith, e, k))
        | inr (b, k) ↦
            let same : b ≡ s.jitter_buf = ground (arith, e, k) in
            subst IsSound same
              (new-IsValid default_jitter_depth (omega arith) k, new-depth default_jitter_depth b k)
      ]

  start_receiving-IsReady :
      (call : ℕ) (s : RecvState f opus) → start_receiving f opus call ≡ some s → IsReady s
  unfolding start_receiving
  start_receiving-IsReady call s e = elim (Result-cases (new_decoder opus call)) [
    | inl (why, k) ↦ absurd (ground (arith, e, k))
    | inr (decoder, k) ↦ with_decoder-IsReady decoder s (rw (k, start_receiving) at e)
  ]

  reset_decoder-IsReady :
      (call : ℕ) (s : RecvState f opus) → IsReady s → IsReady (reset_decoder f opus call s)
  unfolding reset_decoder
  reset_decoder-IsReady call s h = elim (Result-cases (new_decoder opus call)) [
    | inl (why, k) ↦ rw (k, reset_decoder) h
    | inr (decoder, k) ↦
        rw (k, reset_decoder)
          (elim (Option-cases (with_decoder f opus decoder)) [
            | inl e ↦ rw e h
            | inr (fresh, e) ↦ rw e (with_decoder-IsReady decoder fresh e)
          ])
  ]

  decode_failed-IsReady :
      (call : ℕ) (s : RecvState f opus) → IsReady s → IsReady (decode_failed f opus call s)
  unfolding decode_failed
  decode_failed-IsReady call s h =
      let failed : RecvState f opus = record s {
        decode_fail_streak = saturating_suc_u8 s.decode_fail_streak;
      } in
      if_all IsReady (leb codec_reset_threshold (saturating_suc_u8 s.decode_fail_streak))
        (reset_decoder f opus call failed) failed (reset_decoder-IsReady call failed h) h

  decoded_frame-IsReady :
      (call : ℕ) (s : RecvState f opus) (sequence : ℕ)
      (r : Decoder × PcmFrame f × Result VoiceError ℕ)
      → sequence < u32_mod
      → IsReady s
      → IsReady (decoded_frame f opus call s sequence r)
  unfolding decoded_frame
  decoded_frame-IsReady call s sequence (decoder, pcm, err e) k h =
      decode_failed-IsReady call (record s { decoder = decoder }) h
  decoded_frame-IsReady call s sequence (decoder, pcm, ok samples) k h =
      (insert-IsValid sequence pcm k h.0, insert-depth s.jitter_buf sequence pcm ∙ h.1)

  receive-IsReady :
      (call : ℕ) (bytes : List ℕ) (s : RecvState f opus)
      → IsBytes bytes
      → IsReady s
      → IsReady (receive f opus call bytes s)
  unfolding receive
  receive-IsReady call bytes s b h = elim (Result-cases (decode_audio_datagram bytes)) [
    | inl (e, k) ↦ rw (k, receive) h
    | inr ((header, payload), k) ↦
        rw (k, receive)
          (decoded_frame-IsReady call s header.sequence
            (decode opus payload (silence_frame f) s.decoder) (sequence-lt bytes header payload b k)
            h)
  ]

  next_or_concealed-IsReady :
      (s : RecvState f opus) (r : JitterBuffer (PcmFrame f) × Option (PcmFrame f))
      → IsSound r.0
      → IsReady (next_or_concealed f opus s r).0
  unfolding next_or_concealed
  next_or_concealed-IsReady s (b, some frame) h = h
  next_or_concealed-IsReady s (b, none) h =
      (advance_expected-IsValid h.0, advance_expected-depth b ∙ h.1)

  play-IsReady : (s : RecvState f opus) → IsReady s → IsReady (play f opus s).0
  unfolding play
  play-IsReady s h =
      if_all (λ (r : RecvState f opus × Option (PcmFrame f)). IsReady r.0)
        (not s.jitter_buf.initialized) (s, none) (next_or_concealed f opus s (pop s.jitter_buf)) h
        (next_or_concealed-IsReady s (pop s.jitter_buf)
          (pop-IsValid h.0, pop-depth s.jitter_buf ∙ h.1))

  loop-IsReady :
      (events : List (RecvEvent f opus)) (s : RecvState f opus)
      → AreEvents events
      → IsReady s
      → IsReady (recv_decode_loop f opus s events).0
  unfolding recv_decode_loop recv_turn
  loop-IsReady [] s a h = h
  loop-IsReady (arrives call bytes ∷ events) s a h =
      loop-IsReady events (receive f opus call bytes s) a.1 (receive-IsReady call bytes s a.0 h)
  loop-IsReady (ticks ∷ events) s a h = loop-IsReady events (play f opus s).0 a.1 (play-IsReady s h)

  -- The state after some events.
  abbrev pub reached : RecvState f opus → List (RecvEvent f opus) → RecvState f opus
  reached start events = (recv_decode_loop f opus start events).0

  -- After any history of the receiving loop, from its start, in which a first datagram has reached the
  -- jitter buffer: datagrams arrive, in any order and with duplicates, that decode and whose numbers
  -- are in the window of 8 from the next one to be played; then the timer fires, at most 8 times. Each
  -- time one frame goes to the ring, in the order of the numbers: where a datagram with the number has
  -- arrived it is the frame decoded from the last such; else it is what the buffer already held, or,
  -- where that is nothing, some frame in its place.
  pub start_receiving-Plays :
      (call : ℕ) (start : RecvState f opus) (history : List (RecvEvent f opus))
      (datagrams : List (List ℕ)) (n : ℕ) (last : Decoder) (packets : List (ℕ × PcmFrame f))
      → start_receiving f opus call ≡ some start
      → AreEvents history
      → (reached start history).jitter_buf.initialized ≡ true
      → decoded_packets f opus datagrams (reached start history).decoder ≡ some (last, packets)
      → AllInWindow (reached start history).jitter_buf packets
      → n ≤ default_jitter_depth
      → Plays f opus
          (consecutive
            (λ k. latest packets k (at (reached start history).jitter_buf k))
            n
            (reached start history).jitter_buf.read_seq)
          (recv_decode_loop f opus
            (reached start history)
            (arrivals f opus datagrams ++ replicate n ticks)).1
  start_receiving-Plays call start history datagrams n last packets e a primed k ws h =
      let sound : IsSound (reached start history).jitter_buf =
        loop-IsReady history start a (start_receiving-IsReady call start e) in
      recv_decode_loop-Plays f opus (reached start history) datagrams n last packets
        (record { valid = sound.0; primed = primed }) (inl (ap (λ d. u32_mod % d) sound.1)) k ws
        (omega (arith, sound.1, h))
