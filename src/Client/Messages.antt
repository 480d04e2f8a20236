-- ===== src/Client/Messages.antt =====
-- client/src/main.rs: joining a room, and the tasks that carry messages between the server and the
-- interface. A stream is the list of its bytes; how many events the interface still takes, and which
-- streams the server opens, come from outside.
pub mod Carrying
use Prim.Native.String.{String}
use voicemcu.Base.{
  ℕ, zero, suc, ◌+◌, Bool, true, false, Option, none, some, List, [], ◌∷◌, ◌++◌, length, Result, ok,
  err, map_err, ◌>>=◌,
}
use voicemcu.Protocol.{
  ClientId, ClientInfo, SignalMessage, VoiceError, Postcard, ReadError, read_signal, write_signal,
  join, joined, room_info, error,
}
use voicemcu.Tui
use voicemcu.Tui.{
  AppState, set_peers_from_info, add_event, green, red_bold, TuiEvent, signal, disconnected,
}

-- The ways in which joining fails; the debug form of a message is left open.
pub data JoinError : Type 0 where
  not_written : VoiceError → JoinError
  not_read : ReadError → JoinError
  refused : (message : String) → JoinError
  unexpected_response : SignalMessage → JoinError

unfoldable pub client_id_of : SignalMessage → Result JoinError ClientId
client_id_of (joined client_id) = ok client_id
client_id_of (error message) = err (refused message)
client_id_of other = err (unexpected_response other)

module _ (postcard : Postcard) where
  -- The roster, if that is what comes next.
  unfoldable pub initial_roster : Result ReadError (SignalMessage × List ℕ) → List ClientInfo
  initial_roster (ok (room_info clients, rest)) = clients
  initial_roster other = []

  -- What the client is told about its connection.
  unfoldable pub greeted : Bool → AppState → AppState
  greeted danger_skip_verify app =
      let app' = add_event "connected to server" green app in
      elim danger_skip_verify [
        | false ↦ app'
        | true ↦
            add_event "WARNING: TLS verification disabled -- connection is NOT secure" red_bold app'
      ]

  -- The handshake on the bytes that the server sends: what is written, and the interface at its start.
  unfoldable pub handshake :
      String → String → ℕ → Bool → List ℕ → Result JoinError (List ℕ × AppState)
  handshake room name max_events danger_skip_verify stream = do
    written ← map_err not_written (write_signal postcard (join room name))
    (response, rest) ← map_err not_read (read_signal postcard stream)
    client_id ← client_id_of response
    ok (
      written,
      greeted danger_skip_verify (
          set_peers_from_info (initial_roster (read_signal postcard rest))
            (Tui.new client_id room name max_events)),
    )

  -- The loop of `bidi_recv_listener`, on fuel: `none` is a loop without an end.
  pub listen : ℕ → ℕ → List ℕ → Option (List TuiEvent)
  listen zero takes stream = none
  listen (suc fuel) takes stream = elim (read_signal postcard stream) [
    | err e ↦ some []
    | ok (msg, rest) ↦ elim takes [
      | zero ↦ some []
      | suc n ↦ elim (listen fuel n rest) [ none ↦ none | some events ↦ some (signal msg ∷ events) ]
    ]
  ]

  -- Each message takes bytes of the stream.
  pub bidi_recv_listener : ℕ → List ℕ → Option (List TuiEvent)
  bidi_recv_listener takes stream = listen (length stream + 1) takes stream

  -- The bytes of each stream that the server opens, until the connection ends.
  pub uni_stream_listener : ℕ → List (List ℕ) → List TuiEvent
  uni_stream_listener zero streams = []
  uni_stream_listener (suc takes) [] = disconnected ∷ []
  uni_stream_listener (suc takes) (stream ∷ streams) = elim (read_signal postcard stream) [
    | err e ↦ uni_stream_listener (suc takes) streams
    | ok (msg, rest) ↦ signal msg ∷ uni_stream_listener takes streams
  ]

  -- The bytes that go out for the commands, up to one that has no encoding.
  unfoldable pub command_writer : List SignalMessage → List ℕ
  command_writer [] = []
  command_writer (msg ∷ cmds) = elim (write_signal postcard msg) [
    | err e ↦ []
    | ok bytes ↦ bytes ++ command_writer cmds
  ]
