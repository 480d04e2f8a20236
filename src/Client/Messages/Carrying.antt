-- ===== src/Client/Messages/Carrying.antt =====
-- The listener tells the interface what the other side wrote.
use voicemcu.Base.{
  ℕ, zero, suc, ◌+◌, ◌≤◌, ◌<◌, ◌≡◌, refl, inl, inr, Option, none, some, List, [], ◌∷◌, map, take,
  length, length-append, ok, arith, Result-cases,
}
use voicemcu.Protocol.{SignalMessage, Postcard, max_signal_len, read_signal, write_signal}
use voicemcu.Protocol.Framing.{
  RoundTrips, read-write_fits, read_signal_shorter, length-write_signal, read_signal-nil,
}
use voicemcu.Tui.{TuiEvent, signal}
use voicemcu.Client.Messages.{listen, bidi_recv_listener, command_writer}

module _ (p : Postcard) where
  -- Messages that have an encoding, within the limit of the reader.
  abbrev pub AllWritable : List SignalMessage → Type 0
  AllWritable [] = Unit
  AllWritable (msg ∷ msgs) =
      ((frame : List ℕ) × (write_signal p msg ≡ ok frame) × (length frame ≤ 4 + max_signal_len))
      × AllWritable msgs

  listen_ends :
      (fuel takes : ℕ) (stream : List ℕ)
      → length stream < fuel
      → (events : List TuiEvent) × (listen p fuel takes stream ≡ some events)
  unfolding listen
  listen_ends zero takes stream h = absurd (omega arith)
  listen_ends (suc fuel) takes stream h = elim (Result-cases (read_signal p stream)) [
    | inl (e, k) ↦ ([], rw (k, listen) refl)
    | inr ((msg, rest), k) ↦
        rw (k, listen)
          (told takes msg rest
            (λ n. listen_ends fuel n rest (omega (arith, read_signal_shorter p stream rest msg k))))
  ]
    where
      told :
          (takes' : ℕ) (msg : SignalMessage) (rest : List ℕ)
          → ((n : ℕ) → (events : List TuiEvent) × (listen p fuel n rest ≡ some events))
          → (events : List TuiEvent) × (elim takes' as (λ n. Option (List TuiEvent)) [
            | zero ↦ some []
            | suc n ↦ elim (listen p fuel n rest) [
              | none ↦ none
              | some more ↦ some (signal msg ∷ more)
            ]
          ]
              ≡ some events)
      told zero msg rest again = ([], refl)
      told (suc n) msg rest again = (signal msg ∷ (again n).0, rw (again n).1 refl)

  listen-command_writer :
      (laws : RoundTrips p) (msgs : List SignalMessage) (fuel takes : ℕ)
      → AllWritable msgs
      → length msgs < fuel
      → listen p fuel takes (command_writer p msgs) ≡ some (map signal (take takes msgs))
  unfolding listen command_writer
  listen-command_writer laws msgs zero takes writable h = absurd (omega arith)
  listen-command_writer laws [] (suc fuel) zero writable h = rw (read_signal-nil p, listen) refl
  listen-command_writer laws [] (suc fuel) (suc takes) writable h =
      rw (read_signal-nil p, listen) refl
  listen-command_writer laws (msg ∷ msgs) (suc fuel) zero ((frame, written, fits), writable) h =
      rw (written, command_writer)
        (rw (read-write_fits p laws msg frame written (command_writer p msgs) fits, listen) refl)
  listen-command_writer laws (msg ∷ msgs) (suc fuel) (suc takes) ((frame, written, fits), writable)
        h =
      rw (written, command_writer)
        (rw (read-write_fits p laws msg frame written (command_writer p msgs) fits, listen)
          (rw (listen-command_writer laws msgs fuel takes writable (omega arith)) refl))

  length-command_writer :
      (msgs : List SignalMessage) → AllWritable msgs → length msgs ≤ length (command_writer p msgs)
  unfolding command_writer
  length-command_writer [] writable = omega arith
  length-command_writer (msg ∷ msgs) ((frame, written, fits), writable) =
      rw (written, command_writer)
        (omega (
          arith,
          length-append frame (command_writer p msgs),
          length-write_signal p msg frame written,
          length-command_writer msgs writable,
        ))

  -- The listener on the signaling stream returns, whatever bytes the stream has. Where the bytes are
  -- those that were written for some messages, each with an encoding within the reader's limit, it has
  -- told the interface those messages, in their order and no other, up to as many as that takes.
  pub bidi_recv_listener-command_writer :
      (takes : ℕ) (stream : List ℕ) (msgs : List SignalMessage)
      → RoundTrips p
      → AllWritable msgs
      → ((events : List TuiEvent) × (bidi_recv_listener p takes stream ≡ some events))
        × (bidi_recv_listener p takes (command_writer p msgs) ≡ some (map signal (take takes msgs)))
  unfolding bidi_recv_listener
  bidi_recv_listener-command_writer takes stream msgs laws writable = (
    listen_ends (length stream + 1) takes stream (omega arith),
    listen-command_writer laws msgs (length (command_writer p msgs) + 1) takes writable
        (omega (arith, length-command_writer msgs writable)),
  )
