-- ===== src/Server/Examples.antt =====
-- Small servers, and the theorems at inputs.
use Prim.Native.String.{String}
use voicemcu.Base.{
  ℕ, suc, ◌+◌, ◌≤◌, ◌≡◌, ◌≢◌, refl, true, false, none, some, List, [], ◌∷◌, ok, arith, length,
}
use voicemcu.Base.Assoc.{ℕ_eq, String_eq, lookup, contains}
use voicemcu.Protocol.{ClientId, SignalMessage}
use voicemcu.Config.{default_server_config}
use voicemcu.RateLimit
use voicemcu.Server.{new_client, Room, Server, new_server, next_id, pushes, Output}
use voicemcu.Server.Input.{
  sanitize_input, sanitize_input_lem, HasNoControls, char_count, without_controls, take_chars,
}
use voicemcu.Server.Session.{check_join, connect, disconnect, is_full}
use voicemcu.Server.Signaling.{handle_message}
use voicemcu.Server.Invariant.{ServerOk}
use voicemcu.Server.Invariant.Events.{
  Event, connects, sends, disconnects, sweeps, serve, serve-ServerOk,
}
use voicemcu.Server.Moderation.{ChangesOwn, guest_powerless, host_kicks}
use voicemcu.Server.Membership.{disconnect_removes}
use voicemcu.Server.Joins.{Seats, room_or_new, connect-Seats}

abbrev joining : SignalMessage
joining = SignalMessage.join "lab" "eve"

-- Two clients, of whom 1 is the host.
abbrev lab : Room
lab = record {
  clients = (1, new_client "ada" 10) ∷ (2, new_client "bob" 20) ∷ [];
  host = 1;
  mix_commands = [];
}

abbrev two : Server
two = record { rooms = ("lab", lab) ∷ []; config = default_server_config; next_client_id = 3 }

abbrev busy : List Event
busy =
    connects 10 (SignalMessage.join "lab" "ada") true
    ∷ connects 20 (SignalMessage.join "lab" "bob") true
    ∷ sends "lab" 6 20 (RateLimit.new 20 30 0) 0 (SignalMessage.kick 5)
    ∷ disconnects "lab" 5 10
    ∷ sweeps
    ∷ []

serve-ServerOk_example :
    ServerOk (suc 5 + length busy) (serve (new_server default_server_config 5) busy)
serve-ServerOk_example = serve-ServerOk default_server_config 5 busy (omega arith) (omega arith)

checked : check_join two joining ≡ ok ("lab", "eve")
unfolding check_join sanitize_input without_controls take_chars is_full lookup
checked = refl

connect-Seats_example :
    Seats two
      (connect two 30 joining true).0
      "lab"
      (room_or_new two "lab")
      (next_id two).0
      (new_client "eve" 30)
connect-Seats_example = connect-Seats two 30 joining true "lab" "eve" checked

disconnect_removes_example :
    (r' : Room) × (lookup "lab" (disconnect two "lab" 1 10).0.rooms ≡ some r')
    × (lookup 1 r'.clients ≡ none)
    × ((j : ClientId) → j ≢ 1 → lookup j r'.clients ≡ lookup j lab.clients)
    × (◌≡◌ {A = ℕ} 1 1 → r'.clients ≢ [] → contains r'.host r'.clients ≡ true)
    × (◌≡◌ {A = ℕ} 1 1 → (j : ClientId) → contains j r'.clients ≡ true → r'.host ≤ j)
    × (◌≡◌ {A = ℕ} 1 1 → r'.clients ≡ [] → r'.host ≡ 0)
    × (◌≢◌ {A = ℕ} 1 1 → r'.host ≡ 1)
    × ((other : String)
        → "lab" ≢ other
        → lookup other (disconnect two "lab" 1 10).0.rooms ≡ lookup other two.rooms)
unfolding lookup
disconnect_removes_example = disconnect_removes two "lab" 1 10 lab refl refl

guest_powerless_example :
    ((other : String)
      → "lab" ≢ other
      → lookup other (handle_message two "lab" 2 20 (SignalMessage.server_mute 2 false)).0.rooms
        ≡ lookup other two.rooms)
    × ((r' : Room) × (lookup "lab"
            (handle_message two "lab" 2 20 (SignalMessage.server_mute 2 false)).0.rooms
          ≡ some r')
        × ChangesOwn 2 lab r')
unfolding lookup
guest_powerless_example =
    guest_powerless two "lab" 2 20 (SignalMessage.server_mute 2 false) lab refl (λ e. omega arith)

host_kicks_example :
    (r' : Room) × (lookup "lab" (handle_message two "lab" 1 10 (SignalMessage.kick 2)).0.rooms
      ≡ some r')
    × (r'.host ≡ 1)
    × (lookup 2 r'.clients ≡ none)
    × ((j : ClientId) → j ≢ 2 → lookup j r'.clients ≡ lookup j lab.clients)
    × ((handle_message two "lab" 1 10 (SignalMessage.kick 2)).1
        ≡ Output.push 20 (SignalMessage.kicked "kicked by host")
          ∷ Output.closes 20
          ∷ pushes (SignalMessage.client_left 2) none r'.clients)
unfolding lookup new_client
host_kicks_example =
    host_kicks two "lab" 1 2 10 lab (new_client "bob" 20) refl refl (λ e. omega arith) refl

sanitize_input_lem_example :
    HasNoControls (sanitize_input "a\nb" 1)
    × (char_count (sanitize_input "a\nb" 1) ≤ 1)
    × (HasNoControls "a\nb" → char_count "a\nb" ≤ 1 → sanitize_input "a\nb" 1 ≡ "a\nb")
sanitize_input_lem_example = sanitize_input_lem "a\nb" 1
