-- ===== src/Tui/Examples.antt =====
-- client/src/tui.rs: the theorems at inputs.
use voicemcu.Base.{◌≡◌, refl, true, false, none, some, List, [], ◌∷◌}
use voicemcu.Base.Assoc.{lookup}
use voicemcu.Protocol.{SignalMessage}
use voicemcu.Server.{Room, new_client, is_host, build_room_info}
use voicemcu.Tui.{AppState, handle_signal, signal}
use voicemcu.Tui.Commands.{process_command}
use voicemcu.Tui.Commands.Sending.{IsAllowed, process_command-IsAllowed}
use voicemcu.Tui.Laws.{Shows, handle_signal-build_room_info}
use voicemcu.Tui.Loop.{LoopEvent, key, received, enter, backspace}

abbrev bob : AppState
bob = record {
  client_id = 2;
  room_code = "lab";
  display_name = "bob";
  is_host = false;
  self_muted = false;
  server_muted = false;
  peers = [];
  events = [];
  input = "/kick ada";
  should_quit = false;
  max_events = 10;
}

abbrev lab : Room
lab = record {
  clients = (1, new_client "ada" 10) ∷ (2, new_client "bob" 20) ∷ [];
  host = 2;
  mix_commands = [];
}

handle_signal-build_room_info_example :
    Shows 2 lab.clients (handle_signal (SignalMessage.room_info (build_room_info lab)) bob).peers
    × ((handle_signal (SignalMessage.room_info (build_room_info lab)) bob).is_host ≡ is_host lab 2)
    × ((handle_signal (SignalMessage.room_info (build_room_info lab)) bob).self_muted
        ≡ (new_client "bob" 20).muted)
    × ((handle_signal (SignalMessage.room_info (build_room_info lab)) bob).server_muted
        ≡ (new_client "bob" 20).server_muted)
unfolding lookup
handle_signal-build_room_info_example =
    handle_signal-build_room_info bob lab (new_client "bob" 20) refl

-- A key, the command that was typed, a message, and the end of the connection.
abbrev typing : List LoopEvent
typing =
    key backspace false true
    ∷ key enter false true
    ∷ received (some (signal (SignalMessage.client_left 1)))
    ∷ received none
    ∷ []

process_command-IsAllowed_example : IsAllowed false false [] (process_command bob).1
process_command-IsAllowed_example = process_command-IsAllowed bob
