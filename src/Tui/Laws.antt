-- ===== src/Tui/Laws.antt =====
-- client/src/tui.rs: the roster against the server's room, and the bound of the log.
use Prim.Native.String.{String}
use voicemcu.Base.{
  ℕ, ◌-◌, ◌≤◌, ◌≡◌, ◌↔◌, refl, inl, inr, Bool, true, false, some, List, [], ◌∷◌, ◌++◌, map, arith,
  length, ltb, ◌==◌, ==_iff, length-append, Bool-cases, Option-cases,
}
use voicemcu.Base.Assoc.{ℕ_eq, lookup}
use voicemcu.Protocol.{ClientId, ClientInfo, SignalMessage}
use voicemcu.Server.{ClientState, Room, is_host, build_room_info, client_info}
use voicemcu.Tui.{
  AppState, PeerEntry, Style, add_event, pop_front, find_info, set_peers_from_info, peer_entry,
  handle_signal, mute_self, mute_peer, update_peer,
}

find_info-map :
    (host id : ClientId) (m : List (ClientId × ClientState)) (c : ClientState)
    → lookup id m ≡ some c
    → find_info id (map (client_info host) m) ≡ some (client_info host (id, c))
unfolding find_info lookup client_info
find_info-map host id [] c e = absurd cc
find_info-map host id ((j, d) ∷ m) c e = ground (arith, find_info-map host id m c, e)

==_comm : (a b : ℕ) → (a == b) ≡ (b == a)
==_comm a b = ground (arith, ==_iff a b, ==_iff b a)

-- A roster that shows the clients of a room, in order: of each its id, its name, how it is muted, and
-- whether it is the host.
unfoldable pub Shows : ClientId → List (ClientId × ClientState) → List PeerEntry → Type 0
Shows host [] [] = Unit
Shows host [] (p ∷ peers) = ⊥
Shows host (x ∷ clients) [] = ⊥
Shows host ((id, c) ∷ clients) (p ∷ peers) =
    (p.client_id ≡ id)
    × (p.display_name ≡ c.display_name)
    × (p.self_muted ≡ c.muted)
    × (p.server_muted ≡ c.server_muted)
    × ((p.is_host ≡ true) ↔ (host ≡ id))
    × Shows host clients peers

map-Shows :
    (host : ClientId) (clients : List (ClientId × ClientState))
    → Shows host clients (map peer_entry (map (client_info host) clients))
unfolding Shows peer_entry client_info
map-Shows host [] = tt
map-Shows host ((id, c) ∷ clients) =
    (refl, refl, refl, refl, ground (arith, ==_iff id host), map-Shows host clients)

-- The list of a room that the server sends makes the client's view of itself what the server holds
-- of it: whether it is the host, and how it is muted; and its roster shows the clients of the room.
pub handle_signal-build_room_info :
    (s : AppState) (r : Room) (c : ClientState)
    → lookup s.client_id r.clients ≡ some c
    → Shows r.host r.clients (handle_signal (SignalMessage.room_info (build_room_info r)) s).peers
      × ((handle_signal (SignalMessage.room_info (build_room_info r)) s).is_host
          ≡ is_host r s.client_id)
      × ((handle_signal (SignalMessage.room_info (build_room_info r)) s).self_muted ≡ c.muted)
      × ((handle_signal (SignalMessage.room_info (build_room_info r)) s).server_muted
          ≡ c.server_muted)
unfolding handle_signal add_event set_peers_from_info build_room_info is_host client_info
handle_signal-build_room_info s r c e =
    let found = find_info-map r.host s.client_id r.clients c e in
    (
      rw (found, set_peers_from_info) (map-Shows r.host r.clients),
      rw (found, set_peers_from_info) (==_comm s.client_id r.host),
      rw (found, set_peers_from_info) refl,
      rw (found, set_peers_from_info) refl,
    )

length-pop_front : (es : List (String × Style)) → length (pop_front es) ≡ length es - 1
unfolding pop_front
length-pop_front [] = refl
length-pop_front (e ∷ es) = omega arith

-- The log of a state is within its limit.
abbrev pub IsBounded : AppState → Type 0
IsBounded s = length s.events ≤ s.max_events

pub add_event-IsBounded :
    (text : String) (style : Style) (s : AppState)
    → IsBounded s
    → IsBounded (add_event text style s)
unfolding add_event pop_front
add_event-IsBounded text style s h =
    elim (Bool-cases (ltb s.max_events (length (s.events ++ (text, style) ∷ [])))) [
      | inl over ↦
          rw (over, add_event)
            (omega (
              arith,
              length-pop_front (s.events ++ (text, style) ∷ []),
              length-append s.events ((text, style) ∷ []),
              h,
            ))
      | inr fits ↦ rw (fits, add_event) (ground (arith, fits))
    ]

pub set_peers-IsBounded :
    (s : AppState) (clients : List ClientInfo)
    → IsBounded s
    → IsBounded (set_peers_from_info clients s)
unfolding set_peers_from_info
set_peers-IsBounded s clients h = elim (Option-cases (find_info s.client_id clients)) [
  | inl e ↦ rw (e, set_peers_from_info) h
  | inr (me, e) ↦ rw (e, set_peers_from_info) h
]

mute_self-IsBounded :
    (by_server muted : Bool) (s : AppState) → IsBounded s → IsBounded (mute_self by_server muted s)
unfolding mute_self
mute_self-IsBounded true muted s h = h
mute_self-IsBounded false muted s h = h

-- No message makes the log longer than its limit.
pub handle_signal-IsBounded :
    (s : AppState) (msg : SignalMessage) → IsBounded s → IsBounded (handle_signal msg s)
unfolding handle_signal
handle_signal-IsBounded s (SignalMessage.client_joined client_id display_name) h =
    add_event-IsBounded _ _ _ h
handle_signal-IsBounded s (SignalMessage.client_left client_id) h = add_event-IsBounded _ _ _ h
handle_signal-IsBounded s (SignalMessage.room_info clients) h =
    add_event-IsBounded _ _ _ (set_peers-IsBounded s clients h)
handle_signal-IsBounded s SignalMessage.you_are_host h = add_event-IsBounded _ _ _ h
handle_signal-IsBounded s (SignalMessage.kicked reason) h = add_event-IsBounded _ _ s h
handle_signal-IsBounded s (SignalMessage.peer_muted client_id muted by_server) h =
    add_event-IsBounded _ _ _ (
      ground (
        arith,
        h,
        mute_self-IsBounded by_server muted
            (record s { peers = update_peer client_id (mute_peer by_server muted) s.peers }),
      ))
handle_signal-IsBounded s (SignalMessage.error message) h = add_event-IsBounded _ _ _ h
handle_signal-IsBounded s _ h = h
