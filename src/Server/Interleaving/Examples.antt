-- ===== src/Server/Interleaving/Examples.antt =====
-- Two joins of a small room, and the theorems at inputs.
use voicemcu.Base.{◌+◌, ◌<◌, ◌≡◌, refl, true, false, none, some, List, [], ◌∷◌, ok, arith}
use voicemcu.Base.Assoc.{ℕ_eq, String_eq, lookup}
use voicemcu.Config.{ServerConfig, default_server_config}
use voicemcu.Protocol.{SignalMessage}
use voicemcu.Server.{Room, Server, new_client, new_server, next_id}
use voicemcu.Server.Input.{sanitize_input, without_controls, take_chars}
use voicemcu.Server.Session.{check_join, is_full, disconnect, depart, panicked}
use voicemcu.Server.Interleaving.{
  arrived, claimed, over, world, Move, arrives, advances, disconnects, unroll, room_size, waiting,
  waits, AtMost, happen, is_blocked, waits_for_guard, is_held, holds, advance_at, advance,
}
use voicemcu.Server.Interleaving.Crowding.{room_size_bounded}
use voicemcu.Server.Interleaving.Races.{
  overtaking, overtaking_overfills, undercutting, undercutting_panics,
}
use voicemcu.Server.Interleaving.Hosts.{usurping, usurping_hosts}
use voicemcu.Server.Interleaving.Panics.{sweepless, any_panicked, sweepless-any_panicked}

abbrev ada : SignalMessage
ada = SignalMessage.join "lab" "ada"

abbrev bob : SignalMessage
bob = SignalMessage.join "lab" "bob"

abbrev tiny : ServerConfig
tiny = record default_server_config { max_room_size = 1 }

abbrev overlapping : List Move
overlapping =
    arrives 10 ada
    ∷ arrives 20 bob
    ∷ advances 0 true
    ∷ advances 1 true
    ∷ advances 1 true
    ∷ disconnects "lab" 7 30
    ∷ advances 0 true
    ∷ []

overlap : AtMost 2 "lab" (world (new_server tiny 5) []) overlapping
unfolding AtMost happen is_blocked waits_for_guard is_held holds advance_at advance check_join
    sanitize_input without_controls take_chars is_full lookup waiting waits next_id new_server
    disconnect depart
overlap = omega arith

room_size_bounded_example :
    room_size (unroll (world (new_server tiny 5) []) overlapping).server "lab"
      + waiting "lab" (unroll (world (new_server tiny 5) []) overlapping).tasks
    < 1 + 2
room_size_bounded_example = room_size_bounded tiny 5 2 "lab" overlapping (omega arith) overlap

sweepless-any_panicked_example :
    any_panicked (unroll (world (new_server tiny 5) []) overlapping).tasks ≡ false
unfolding sweepless
sweepless-any_panicked_example = sweepless-any_panicked tiny 5 overlapping refl

-- A room for two, with one client.
abbrev lab : Room
lab = record { clients = (1, new_client "eve" 30) ∷ []; host = 1; mix_commands = [] }

abbrev half : Server
half = record {
  rooms = ("lab", lab) ∷ [];
  config = record default_server_config { max_room_size = 2 };
  next_client_id = 2;
}

ada_passes : check_join half ada ≡ ok ("lab", "ada")
unfolding check_join sanitize_input without_controls take_chars is_full lookup
ada_passes = refl

bob_passes : check_join half bob ≡ ok ("lab", "bob")
unfolding check_join sanitize_input without_controls take_chars is_full lookup
bob_passes = refl

overtaking_overfills_example :
    room_size (unroll (world half (arrived 10 ada ∷ arrived 20 bob ∷ [])) overtaking).server "lab"
    ≡ 2 + 1
unfolding lookup
overtaking_overfills_example =
    overtaking_overfills half 10 20 ada bob "lab" "ada" "bob" lab refl refl ada_passes bob_passes
      (omega arith) refl refl

ada_first : check_join (new_server tiny 5) ada ≡ ok ("lab", "ada")
unfolding check_join sanitize_input without_controls take_chars is_full lookup new_server
ada_first = refl

bob_second : check_join (new_server tiny 5) bob ≡ ok ("lab", "bob")
unfolding check_join sanitize_input without_controls take_chars is_full lookup new_server
bob_second = refl

usurping_hosts_example :
    ((unroll (world (new_server tiny 5) (arrived 10 ada ∷ arrived 20 bob ∷ [])) usurping).tasks
      ≡ claimed 10 "lab" "ada" (next_id (new_server tiny 5)).0 true true
        ∷ claimed 20 "lab" "bob" (next_id (next_id (new_server tiny 5)).1).0 false true
        ∷ [])
    × ((r : Room) × (lookup "lab"
            (unroll
              (world (new_server tiny 5) (arrived 10 ada ∷ arrived 20 bob ∷ []))
              usurping).server.rooms
          ≡ some r)
        × (r.host ≡ (next_id (new_server tiny 5)).0))
unfolding lookup new_server
usurping_hosts_example =
    usurping_hosts (new_server tiny 5) 10 20 ada bob "lab" "ada" "bob" ada_first bob_second refl

undercutting_panics_example :
    ((unroll (world (new_server tiny 5) (arrived 10 ada ∷ [])) (undercutting "lab")).tasks
      ≡ over panicked ∷ [])
    × (lookup "lab"
          (unroll
            (world (new_server tiny 5) (arrived 10 ada ∷ []))
            (undercutting "lab")).server.rooms
        ≡ none)
unfolding lookup new_server
undercutting_panics_example =
    undercutting_panics (new_server tiny 5) 10 ada "lab" "ada" ada_first refl
