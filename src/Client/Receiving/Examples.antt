-- ===== src/Client/Receiving/Examples.antt =====
-- A client that has received a first datagram, and the theorem at an input.
use voicemcu.Base.{ℕ, ◌≡◌, refl, true, false, none, some, List, [], ◌∷◌, ◌++◌, replicate, arith}
use voicemcu.Base.Bytes.{from_be_bytes, from_le_bytes}
use voicemcu.Protocol.{decode_audio_datagram, from_bytes, frame_size}
use voicemcu.Audio.Examples.{counting}
use voicemcu.Codec.{new_decoder, decode}
use voicemcu.Codec.Examples.{toy_opus}
use voicemcu.Jitter.{new, insert, prime, resync, store}
use voicemcu.Jitter.View.{at}
use voicemcu.Jitter.Playout.{latest, consecutive}
use voicemcu.Client.Receiving.{
  RecvState, RecvEvent, arrives, ticks, start_receiving, with_decoder, recv_decode_loop, recv_turn,
  receive, decoded_frame,
}
use voicemcu.Client.Receiving.Playing.{Plays, arrivals, decoded_packet, decoded_packets}
use voicemcu.Client.Receiving.Reached.{reached, start_receiving-Plays}

abbrev quiet : List ℕ
quiet = replicate frame_size 0

abbrev start : RecvState counting toy_opus
start = record {
  decode_fail_streak = 0;
  decoder = 0;
  jitter_buf = record { slots = replicate 8 none; depth = 8; read_seq = 0; initialized = false };
}

started : start_receiving counting toy_opus 0 ≡ some start
unfolding start_receiving with_decoder new_decoder new
started = refl

-- A datagram of client 2 with that number.
abbrev numbered : ℕ → List ℕ
numbered n = 0 ∷ 0 ∷ 0 ∷ 0 ∷ 0 ∷ 0 ∷ 0 ∷ 2 ∷ 0 ∷ 0 ∷ 0 ∷ n ∷ 0 ∷ 0 ∷ 0 ∷ 0 ∷ 255 ∷ []

abbrev first : List (RecvEvent counting toy_opus)
first = arrives 0 (numbered 5) ∷ []

primed : (reached counting toy_opus start first).jitter_buf.initialized ≡ true
unfolding recv_decode_loop recv_turn receive decoded_frame decode_audio_datagram from_bytes
    from_be_bytes from_le_bytes decode insert prime resync store
primed = refl

abbrev late : List (ℕ × List ℕ)
late = (7, quiet) ∷ (6, quiet) ∷ []

both :
    decoded_packets counting toy_opus
      (numbered 7 ∷ numbered 6 ∷ [])
      (reached counting toy_opus start first).decoder
    ≡ some (0, late)
unfolding decoded_packets decoded_packet recv_decode_loop recv_turn receive decoded_frame
    decode_audio_datagram from_bytes from_be_bytes from_le_bytes decode
both = refl

-- Frames 5, 6 and 7 are played.
start_receiving-Plays_example :
    Plays counting toy_opus
      (consecutive
        (λ k. latest late k (at (reached counting toy_opus start first).jitter_buf k))
        3
        (reached counting toy_opus start first).jitter_buf.read_seq)
      (recv_decode_loop counting toy_opus
        (reached counting toy_opus start first)
        (arrivals counting toy_opus (numbered 7 ∷ numbered 6 ∷ []) ++ replicate 3 ticks)).1
unfolding recv_decode_loop recv_turn receive decoded_frame decode_audio_datagram from_bytes
    from_be_bytes from_le_bytes decode insert prime resync store
start_receiving-Plays_example =
    start_receiving-Plays counting toy_opus 0 start first (numbered 7 ∷ numbered 6 ∷ []) 3 0 late
      started (ground arith) primed both (ground arith) (omega arith)
