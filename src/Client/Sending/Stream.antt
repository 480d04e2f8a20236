-- ===== src/Client/Sending/Stream.antt =====
-- The datagrams of a client are one stream: numbered from 0 without a gap, and each within the limit.
use voicemcu.Base.{
  ℕ, suc, ◌+◌, ◌%◌, ◌≤◌, ◌<◌, ◌≡◌, refl, ◌∙◌, inl, inr, Bool, true, false, none, some, List, [],
  ◌∷◌, ◌++◌, length, arith, Result-cases, ok,
}
use voicemcu.Base.Bytes.{bytes_bound}
use voicemcu.Base.Int.{ℤ}
use voicemcu.Base.Words.{u32_mod}
use voicemcu.Protocol.{
  ClientId, header_size, max_opus_packet_size, max_opus_wire_payload, encode_audio_datagram,
  decode_audio_datagram,
}
use voicemcu.Protocol.Datagram.{decode-encode, HeaderInRange, length-datagram}
use voicemcu.Audio.{Float, PcmFrame}
use voicemcu.Codec.{Opus, new_encoder, encode}
use voicemcu.Codec.Encoding.{IsLawful, encode-length}
use voicemcu.Client.Sending.{
  Ring, SendState, SendTurn, reset_encoder, encode_failed, send_header, send_packet, send_frame,
  Turned, goes_on, stops, sent_list, send_loop, start_loop, capture_encode_loop, test_tone_loop,
}

module _ (f : Float) (opus : Opus f.Sample) where
  -- The datagram with number k: it decodes to the header of the client, with k and its time in
  -- samples as u32, and it is not longer than a header and the largest payload.
  pub record IsNumbered (client_id : ClientId) (k : ℕ) (datagram : List ℕ) : Type 0 where
    pub payload : List ℕ
    pub decodes :
        decode_audio_datagram datagram ≡ ok (send_header f opus client_id (k % u32_mod), payload)
    pub fits : length datagram ≤ header_size + max_opus_wire_payload

  abbrev pub IsStream : ClientId → ℕ → List (List ℕ) → Type 0
  IsStream client_id k [] = Unit
  IsStream client_id k (datagram ∷ datagrams) =
      IsNumbered client_id k datagram × IsStream client_id (suc k) datagrams

  module _ (law : IsLawful opus) (client_id : ClientId) (small : client_id < bytes_bound 8) where
    send_header-HeaderInRange : (k : ℕ) → HeaderInRange (send_header f opus client_id (k % u32_mod))
    send_header-HeaderInRange k = record {
      client_id = small;
      sequence = omega arith;
      timestamp = omega arith;
    }

    pub packet-IsNumbered :
        (k : ℕ) (packet : List ℕ)
        → length packet ≤ max_opus_wire_payload
        → IsNumbered client_id k
            (encode_audio_datagram (send_header f opus client_id (k % u32_mod)) packet)
    packet-IsNumbered k packet h = record {
      payload = packet;
      decodes =
          decode-encode (send_header f opus client_id (k % u32_mod)) packet
            (send_header-HeaderInRange k);
      fits = omega (arith, length-datagram (send_header f opus client_id (k % u32_mod)) packet);
    }

    -- What a turn leaves: with a datagram the next number is one more, and without one it is the same.
    abbrev pub Follows : ℕ → Turned f opus → Type 0
    Follows k stops = Unit
    Follows k (goes_on s none) = s.sequence ≡ k % u32_mod
    Follows k (goes_on s (some datagram)) =
        IsNumbered client_id k datagram × (s.sequence ≡ suc k % u32_mod)

    encode_failed-sequence :
        (call : ℕ) (bitrate : ℤ) (s : SendState f opus)
        → (encode_failed f opus call bitrate s).sequence ≡ s.sequence
    unfolding encode_failed reset_encoder
    encode_failed-sequence call bitrate s =
        ground (arith, Result-cases (new_encoder opus call bitrate))

    send_packet-Follows :
        (k : ℕ) (s : SendState f opus) (packet : List ℕ) (is_open : Bool)
        → length packet ≤ max_opus_wire_payload
        → s.sequence ≡ k % u32_mod
        → Follows k (send_packet f opus client_id s packet is_open)
    unfolding send_packet
    send_packet-Follows k s packet false h e = tt
    send_packet-Follows k s packet true h e =
        (rw e (packet-IsNumbered k packet h), omega (arith, e))

    send_frame-Follows :
        (bitrate : ℤ) (turn : SendTurn f opus) (pcm : PcmFrame f) (k : ℕ) (s : SendState f opus)
        → s.sequence ≡ k % u32_mod
        → Follows k (send_frame f opus client_id bitrate turn pcm s)
    unfolding send_frame
    send_frame-Follows bitrate turn pcm k s e =
        elim (Result-cases (encode opus pcm max_opus_packet_size s.encoder).1) [
          | inl (why, r) ↦ rw (r, send_frame) (encode_failed-sequence turn.call bitrate _ ∙ e)
          | inr (packet, r) ↦
              rw (r, send_frame)
                (send_packet-Follows k _ packet turn.is_open
                  (omega
                    (arith, encode-length opus law pcm max_opus_packet_size s.encoder packet r))
                  e)
        ]

    module _ {Source : Type 0} (frame : List f.Sample → Source → Source × PcmFrame f)
        (bitrate : ℤ) where
      send_loop-IsStream :
          (turns : List (SendTurn f opus)) (source : Source) (k : ℕ) (s : SendState f opus)
          → s.sequence ≡ k % u32_mod
          → IsStream client_id k (send_loop f opus frame client_id bitrate turns source s)
      unfolding send_loop
      send_loop-IsStream [] source k s e = tt
      send_loop-IsStream (turn ∷ turns) source k s e =
          turned (send_frame f opus client_id bitrate turn (frame turn.captured source).1 s)
            (send_frame-Follows bitrate turn (frame turn.captured source).1 k s e)
            (λ k' s' e'. send_loop-IsStream turns (frame turn.captured source).0 k' s' e')
        where
          turned :
              (t : Turned f opus)
              → Follows k t
              → ((k' : ℕ) (s' : SendState f opus)
                  → s'.sequence ≡ k' % u32_mod
                  → IsStream client_id k' (
                      send_loop f opus frame client_id bitrate turns
                        (frame turn.captured source).0
                        s'))
              → IsStream client_id k (elim t [
                | stops ↦ []
                | goes_on s' sent ↦
                    sent_list f opus sent
                    ++ send_loop f opus frame client_id bitrate turns
                        (frame turn.captured source).0
                        s'
              ])
          turned stops h rest = tt
          turned (goes_on s' none) h rest = rest k s' h
          turned (goes_on s' (some datagram)) h rest = (h.0, rest (suc k) s' h.1)

      start_loop-IsStream :
          (call : ℕ) (turns : List (SendTurn f opus)) (source : Source)
          → IsStream client_id 0 (start_loop f opus frame client_id bitrate call turns source)
      unfolding start_loop
      start_loop-IsStream call turns source = elim (Result-cases (new_encoder opus call bitrate)) [
        | inl (e, r) ↦ rw (r, start_loop) tt
        | inr (encoder, r) ↦ rw (r, start_loop) (send_loop-IsStream turns source 0 _ refl)
      ]

    -- With a codec that keeps its promises and a client id that is a u64, the datagrams that either
    -- loop sends, over any turns, carry the client's id and the numbers 0, 1, 2 and so on without a
    -- gap, as u32, with the time in samples that goes with them; none is longer than a header and the
    -- largest payload. Frames that do not encode and encoders that are made anew leave no gap.
    pub loops-IsStream :
        (ring : Ring f.Sample) (bitrate : ℤ) (call : ℕ) (turns : List (SendTurn f opus))
        (buffer : ring.Buffer)
        → IsStream client_id 0 (capture_encode_loop f opus ring client_id bitrate call turns buffer)
          × IsStream client_id 0 (test_tone_loop f opus client_id bitrate call turns)
    unfolding capture_encode_loop test_tone_loop
    loops-IsStream ring bitrate call turns buffer = (
      start_loop-IsStream _ bitrate call turns buffer,
      start_loop-IsStream _ bitrate call turns _,
    )
