-- ===== src/Client/Receiving/Playing.antt =====
-- What a client plays: the frames of the datagrams, in the order of their numbers.
use mathlib.Core.List.{append_assoc}
use voicemcu.Base.{
  if_split, not, ℕ, zero, suc, ◌≤◌, ◌≡◌, refl, sym, ap, ◌∙◌, inl, inr, true, Option, none, some,
  List, [], ◌∷◌, ◌++◌, map, replicate, arith, Option-cases, Result-cases, Result, ok, err,
}
use voicemcu.Protocol.{VoiceError, AudioFrameHeader, decode_audio_datagram}
use voicemcu.Audio.{Float, PcmFrame, silence_frame}
use voicemcu.Codec.{Opus, decode}
use voicemcu.Jitter
use voicemcu.Jitter.{JitterBuffer, pop}
use voicemcu.Jitter.View.{at}
use voicemcu.Jitter.Arith.{HasDistinctSlots}
use voicemcu.Jitter.Playout.{
  insert_all, pass_over, tick, playout, latest, consecutive, AllInWindow, IsPrimed,
  playout-insert_all, insert_all-IsPrimed, tick-Ticked,
}
use voicemcu.Client.Receiving.{
  RecvState, RecvEvent, arrives, ticks, decoded_frame, receive, next_or_concealed, play, recv_turn,
  pushed, recv_decode_loop,
}

module _ (f : Float) (opus : Opus f.Sample) where
  open opus use {Decoder}

  -- The packets that datagrams amount to: each with its number and the frame that the decoder makes
  -- of it when it comes to it. `none` if one is malformed or does not decode.
  unfoldable pub decoded_packet :
      Result VoiceError (AudioFrameHeader × List ℕ) → Decoder → Option (Decoder × ℕ × PcmFrame f)
  decoded_packet (err e) decoder = none
  decoded_packet (ok (header, payload)) decoder =
      let (decoder', pcm, result) = decode opus payload (silence_frame f) decoder in
      elim result [ err e ↦ none | ok samples ↦ some (decoder', header.sequence, pcm) ]

  unfoldable pub decoded_packets :
      List (List ℕ) → Decoder → Option (Decoder × List (ℕ × PcmFrame f))
  decoded_packets [] decoder = some (decoder, [])
  decoded_packets (bytes ∷ datagrams) decoder =
      elim (decoded_packet (decode_audio_datagram bytes) decoder) [
        | none ↦ none
        | some (decoder', sequence, frame) ↦ elim (decoded_packets datagrams decoder') [
          | none ↦ none
          | some (last, packets) ↦ some (last, (sequence, frame) ∷ packets)
        ]
      ]

  -- The frames that were played against those that were due: a frame that is there is the one
  -- played, and where there is none some frame takes its place.
  abbrev pub Plays : List (Option (PcmFrame f)) → List (PcmFrame f) → Type 0
  Plays [] [] = Unit
  Plays [] (played ∷ frames) = ⊥
  Plays (due ∷ dues) [] = ⊥
  Plays (none ∷ dues) (played ∷ frames) = Plays dues frames
  Plays (some frame ∷ dues) (played ∷ frames) = (played ≡ frame) × Plays dues frames

  abbrev pub arrivals : List (List ℕ) → List (RecvEvent f opus)
  arrivals = map (λ bytes. arrives 0 bytes)

  -- A datagram that amounts to a packet puts it into the jitter buffer.
  abbrev pub Takes : Decoder → ℕ → PcmFrame f → RecvState f opus → RecvState f opus → Type 0
  Takes decoder sequence frame s s' =
      (s'.decoder ≡ decoder) × (s'.jitter_buf ≡ (Jitter.insert s.jitter_buf sequence frame).0)

  decoded_frame-Takes :
      (s : RecvState f opus) (call number : ℕ) (r : Decoder × PcmFrame f × Result VoiceError ℕ)
      (decoder : Decoder) (sequence : ℕ) (frame : PcmFrame f)
      → elim r.2 as (λ x. Option (Decoder × ℕ × PcmFrame f)) [
        | err e ↦ none
        | ok samples ↦ some (r.0, number, r.1)
      ]
        ≡ some (decoder, sequence, frame)
      → Takes decoder sequence frame s (decoded_frame f opus call s number r)
  unfolding decoded_frame
  decoded_frame-Takes s call number (decoder', pcm, err e) decoder sequence frame k = absurd cc
  decoded_frame-Takes s call number (decoder', pcm, ok samples) decoder sequence frame k =
      ground (arith, k)

  receive-Takes :
      (s : RecvState f opus) (call : ℕ) (bytes : List ℕ) (decoder : Decoder) (sequence : ℕ)
      (frame : PcmFrame f)
      → decoded_packet (decode_audio_datagram bytes) s.decoder ≡ some (decoder, sequence, frame)
      → Takes decoder sequence frame s (receive f opus call bytes s)
  unfolding decoded_packet receive
  receive-Takes s call bytes decoder sequence frame k =
      elim (Result-cases (decode_audio_datagram bytes)) [
        | inl (e, r) ↦ absurd (ground (arith, k, r))
        | inr ((header, payload), r) ↦
            rw (r, receive)
              (decoded_frame-Takes s call header.sequence
                (decode opus payload (silence_frame f) s.decoder) decoder sequence frame
                (rw r at k))
      ]

  arrivals-insert_all :
      (datagrams : List (List ℕ)) (s : RecvState f opus) (last : Decoder)
      (packets : List (ℕ × PcmFrame f))
      → decoded_packets datagrams s.decoder ≡ some (last, packets)
      → ((recv_decode_loop f opus s (arrivals datagrams)).0.jitter_buf
          ≡ insert_all s.jitter_buf packets)
        × ((recv_decode_loop f opus s (arrivals datagrams)).1 ≡ [])
  unfolding decoded_packets recv_decode_loop recv_turn insert_all
  arrivals-insert_all [] s last packets k = ground (arith, k)
  arrivals-insert_all (bytes ∷ datagrams) s last packets k =
      elim (Option-cases (decoded_packet (decode_audio_datagram bytes) s.decoder)) [
        | inl e ↦ absurd (ground (arith, k, e))
        | inr ((decoder, sequence, frame), e) ↦
            let s' : RecvState f opus = receive f opus 0 bytes s in
            let takes : Takes decoder sequence frame s s' =
              receive-Takes s 0 bytes decoder sequence frame e in
            elim (Option-cases (decoded_packets datagrams decoder)) [
              | inl e' ↦ absurd (ground (arith, k, e, e'))
              | inr ((last', packets'), e') ↦
                  let rest = arrivals-insert_all datagrams s' last' packets' (rw takes.0 e') in
                  let all : packets ≡ (sequence, frame) ∷ packets' = ground (arith, k, e, e') in
                  (
                    rest.0
                        ∙ ap (λ b. insert_all b packets') takes.1
                        ∙ ap (insert_all s.jitter_buf) (sym all),
                    rest.1,
                  )
            ]
      ]

  -- A timer event plays what a tick of the jitter buffer gives, or a frame in its place.
  abbrev pub Plays1 : Option (PcmFrame f) → Option (PcmFrame f) → Type 0
  Plays1 due none = ⊥
  Plays1 none (some played) = Unit
  Plays1 (some frame) (some played) = played ≡ frame

  next_or_concealed-pass_over :
      (s : RecvState f opus) (r : JitterBuffer (PcmFrame f) × Option (PcmFrame f))
      → ((next_or_concealed f opus s r).0.jitter_buf ≡ (pass_over r).0)
        × Plays1 (pass_over r).1 (next_or_concealed f opus s r).1
  unfolding next_or_concealed pass_over
  next_or_concealed-pass_over s (b, some frame) = (refl, refl)
  next_or_concealed-pass_over s (b, none) = (refl, tt)

  play-tick :
      (s : RecvState f opus)
      → s.jitter_buf.initialized ≡ true
      → ((play f opus s).0.jitter_buf ≡ (tick s.jitter_buf).0)
        × Plays1 (tick s.jitter_buf).1 (play f opus s).1
  unfolding play tick
  play-tick s h =
      if_split
        (λ (r : RecvState f opus × Option (PcmFrame f)).
          (r.0.jitter_buf ≡ (tick s.jitter_buf).0) × Plays1 (tick s.jitter_buf).1 r.1)
        (not s.jitter_buf.initialized) (s, none) (next_or_concealed f opus s (pop s.jitter_buf))
        (λ unprimed. absurd (ground (arith, h, unprimed)))
        (λ primed. next_or_concealed-pass_over s (pop s.jitter_buf))

  Plays-step :
      (due played : Option (PcmFrame f)) (dues : List (Option (PcmFrame f)))
      (frames : List (PcmFrame f))
      → Plays1 due played
      → Plays dues frames
      → Plays (due ∷ dues) (pushed f opus played ++ frames)
  Plays-step due none dues frames h k = absurd h
  Plays-step none (some played) dues frames h k = k
  Plays-step (some frame) (some played) dues frames h k = (h, k)

  ticks-Plays :
      (n : ℕ) (s : RecvState f opus)
      → IsPrimed s.jitter_buf
      → Plays (playout n s.jitter_buf) (recv_decode_loop f opus s (replicate n ticks)).1
  unfolding playout recv_decode_loop recv_turn
  ticks-Plays zero s p = tt
  ticks-Plays (suc n) s p =
      let (buffer, played) = play-tick s p.primed in
      Plays-step (tick s.jitter_buf).1 (play f opus s).1 _ _ played
        (rw (← buffer) (ticks-Plays n (play f opus s).0 (rw buffer (tick-Ticked s.jitter_buf p).0)))

  loop-append :
      (xs ys : List (RecvEvent f opus)) (s : RecvState f opus)
      → (recv_decode_loop f opus s (xs ++ ys)).1
        ≡ (recv_decode_loop f opus s xs).1
          ++ (recv_decode_loop f opus (recv_decode_loop f opus s xs).0 ys).1
  unfolding recv_decode_loop
  loop-append [] ys s = refl
  loop-append (e ∷ xs) ys s =
      ap (λ frames. pushed f opus (recv_turn f opus e s).1 ++ frames)
        (loop-append xs ys (recv_turn f opus e s).0)
      ∙ sym (append_assoc (pushed f opus (recv_turn f opus e s).1) _ _)

  -- A client whose jitter buffer has a first frame, and slots that are distinct in its window, receives datagrams, in any order and with
  -- duplicates, that decode and whose numbers are in the buffer's window; then the timer fires, at
  -- most as often as the buffer is deep. Each time one frame goes to the ring, and in the order of the
  -- numbers: where a datagram with the number has arrived it is the frame decoded from the last such;
  -- else it is what the buffer already held, or, where that is nothing, some frame in its place.
  pub recv_decode_loop-Plays :
      (s : RecvState f opus) (datagrams : List (List ℕ)) (n : ℕ) (last : Decoder)
      (packets : List (ℕ × PcmFrame f))
      → IsPrimed s.jitter_buf
      → HasDistinctSlots s.jitter_buf.depth s.jitter_buf.read_seq
      → decoded_packets datagrams s.decoder ≡ some (last, packets)
      → AllInWindow s.jitter_buf packets
      → n ≤ s.jitter_buf.depth
      → Plays
          (consecutive (λ k. latest packets k (at s.jitter_buf k)) n s.jitter_buf.read_seq)
          (recv_decode_loop f opus s (arrivals datagrams ++ replicate n ticks)).1
  recv_decode_loop-Plays s datagrams n last packets p distinct k ws h =
      let arrived : RecvState f opus = (recv_decode_loop f opus s (arrivals datagrams)).0 in
      let (buffer, silent) = arrivals-insert_all datagrams s last packets k in
      rw (loop-append (arrivals datagrams) (replicate n ticks) s, silent)
        (rw (← playout-insert_all s.jitter_buf packets n p distinct ws h, ← buffer)
          (ticks-Plays n arrived (rw buffer (insert_all-IsPrimed s.jitter_buf packets p ws).0)))
