-- ===== src/Client/Examples.antt =====
-- A client with a toy codec, and the theorems at inputs.
use voicemcu.Base.{
  ℕ, ◌+◌, ◌≤◌, ◌≡◌, true, false, some, List, [], ◌∷◌, ◌++◌, take, drop, length, arith, ok,
}
use voicemcu.Base.Int.{pos}
use voicemcu.Audio.Examples.{counting}
use voicemcu.Codec.Examples.{toy_opus, toy_opus-IsLawful}
use voicemcu.Protocol.{kick, write_signal, max_signal_len}
use voicemcu.Protocol.Examples.{toy, toy-RoundTrips, kick_frame, kick_written}
use voicemcu.Tui.{TuiEvent, signal}
use voicemcu.Client.Messages.{bidi_recv_listener, command_writer}
use voicemcu.Client.Messages.Carrying.{bidi_recv_listener-command_writer}
use voicemcu.Client.Sending.{Ring, SendTurn, capture_encode_loop, test_tone_loop}
use voicemcu.Client.Sending.Stream.{IsStream, loops-IsStream}

-- A ring without a limit.
abbrev endless : Ring ℕ
endless = record {
  Buffer = List ℕ;
  pop_slice = λ n buffer. (drop n buffer, take n buffer);
  push_slice = λ samples buffer. (buffer ++ samples, length samples);
}

abbrev turns : List (SendTurn counting toy_opus)
turns =
    record { captured = 1 ∷ 2 ∷ []; call = 1; is_open = true }
    ∷ record { captured = []; call = 2; is_open = true }
    ∷ record { captured = 3 ∷ []; call = 3; is_open = false }
    ∷ []

loops-IsStream_example :
    IsStream counting toy_opus 7 0
      (capture_encode_loop counting toy_opus endless 7 (pos 12000) 0 turns [])
    × IsStream counting toy_opus 7 0 (test_tone_loop counting toy_opus 7 (pos 12000) 0 turns)
loops-IsStream_example =
    loops-IsStream counting toy_opus toy_opus-IsLawful 7 (omega arith) endless (pos 12000) 0 turns
      []

-- Two messages, of which the interface takes one; and a stream that is cut off.
bidi_recv_listener-command_writer_example :
    ((events : List TuiEvent) × (bidi_recv_listener toy 1 (0 ∷ 0 ∷ 0 ∷ []) ≡ some events))
    × (bidi_recv_listener toy 1 (command_writer toy (kick 42 ∷ kick 42 ∷ []))
        ≡ some (signal (kick 42) ∷ []))
bidi_recv_listener-command_writer_example =
    let fits : (frame : List ℕ) × (write_signal toy (kick 42) ≡ ok frame)
        × (length frame ≤ 4 + max_signal_len) =
      (kick_frame, kick_written, omega arith) in
    bidi_recv_listener-command_writer toy 1 (0 ∷ 0 ∷ 0 ∷ []) (kick 42 ∷ kick 42 ∷ []) toy-RoundTrips
      (fits, (fits, tt))
