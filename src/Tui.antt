-- ===== src/Tui.antt =====
-- client/src/tui.rs: the state of the terminal interface, the roster, and the messages of the server.
--
-- A line of the log is its text and its style.
pub mod Text
pub mod Commands
pub mod Loop
pub mod Laws
pub mod View
mod Examples
use Prim.Native.String.{String}
use voicemcu.Base.{
  ℕ, ◌+◌, Bool, true, false, ◌&&◌, ◌||◌, Option, none, some, List, [], ◌∷◌, ◌++◌, map, length, ltb,
  ◌==◌, if◌then◌else◌, Result, ok, err,
}
use voicemcu.Base.Assoc.{String_eq}
use voicemcu.Protocol.{
  ClientId, ClientInfo, SignalMessage, client_joined, client_left, room_info, you_are_host, kicked,
  peer_muted, error,
}
use Text.{append, show_id, parse_u64, eq_ignore_ascii_case}

pub record PeerEntry : Type 0 where
  pub client_id : ClientId
  pub display_name : String
  pub self_muted : Bool
  pub server_muted : Bool
  pub is_host : Bool

-- What the client's tasks tell the interface.
pub data TuiEvent : Type 0 where
  signal : (msg : SignalMessage) → TuiEvent
  disconnected : TuiEvent

-- The styles of the log and of what is drawn.
pub data Style : Type 0 where
  green : Style
  red : Style
  red_bold : Style
  cyan_bold : Style
  dark_gray : Style
  yellow : Style
  white : Style
  white_bold : Style
  light_yellow : Style
  cyan : Style
  plain : Style

pub record AppState : Type 0 where
  pub client_id : ClientId
  pub room_code : String
  pub display_name : String
  pub is_host : Bool
  pub self_muted : Bool
  pub server_muted : Bool
  pub peers : List PeerEntry
  pub events : List (String × Style)
  pub input : String
  pub should_quit : Bool
  pub max_events : ℕ

unfoldable pub new : ClientId → String → String → ℕ → AppState
new client_id room_code display_name max_events = record {
  client_id = client_id;
  room_code = room_code;
  display_name = display_name;
  is_host = false;
  self_muted = false;
  server_muted = false;
  peers = [];
  events = [];
  input = String.[];
  should_quit = false;
  max_events = max_events;
}

unfoldable pub pop_front : List (String × Style) → List (String × Style)
pop_front [] = []
pop_front (e ∷ es) = es

unfoldable pub add_event : String → Style → AppState → AppState
unfolding pop_front
add_event text style s =
    let events' = s.events ++ (text, style) ∷ [] in
    record s { events = if ltb s.max_events (length events') then pop_front events' else events' }

unfoldable pub peer_entry : ClientInfo → PeerEntry
peer_entry c = record {
  client_id = c.client_id;
  display_name = c.display_name;
  self_muted = c.muted;
  server_muted = c.server_muted;
  is_host = c.is_host;
}

unfoldable pub find_info : ClientId → List ClientInfo → Option ClientInfo
find_info id [] = none
find_info id (c ∷ cs) = if c.client_id == id then some c else find_info id cs

unfoldable pub set_peers_from_info : List ClientInfo → AppState → AppState
set_peers_from_info clients s =
    let s' : AppState = record s { peers = map peer_entry clients } in
    elim (find_info s.client_id clients) [
      | none ↦ s'
      | some me ↦ record s' {
        is_host = me.is_host;
        self_muted = me.muted;
        server_muted = me.server_muted;
      }
    ]

unfoldable pub named : String → List PeerEntry → List PeerEntry
named name [] = []
named name (p ∷ ps) =
    let rest = named name ps in if eq_ignore_ascii_case p.display_name name then p ∷ rest else rest

unfoldable pub has_duplicate_name : AppState → String → Bool
has_duplicate_name s name = ltb 1 (length (named name s.peers))

pub has_peer : ClientId → List PeerEntry → Bool
has_peer id [] = false
has_peer id (p ∷ ps) = if p.client_id == id then true else has_peer id ps

pub one_match : List PeerEntry → Result String ClientId
one_match [] = err "unknown peer"
one_match (p ∷ []) = ok p.client_id
one_match (p ∷ q ∷ ps) = err "ambiguous name -- use the numeric client ID instead"

-- A number that is the id of a peer, else a name that only one peer has.
pub find_peer : AppState → String → Result String ClientId
find_peer s name_or_id =
    let by_name = one_match (named name_or_id s.peers) in
    elim (parse_u64 name_or_id) [
      | none ↦ by_name
      | some id ↦ if has_peer id s.peers then ok id else by_name
    ]

pub peer_name : ClientId → List PeerEntry → Option String
peer_name id [] = none
peer_name id (p ∷ ps) = if p.client_id == id then some p.display_name else peer_name id ps

-- The name of a peer, or its number.
pub name_or_number : ClientId → List PeerEntry → String
name_or_number id ps = elim (peer_name id ps) [ none ↦ append "#" (show_id id) | some name ↦ name ]

pub without_peer : ClientId → List PeerEntry → List PeerEntry
without_peer id [] = []
without_peer id (p ∷ ps) =
    let rest = without_peer id ps in if p.client_id == id then rest else p ∷ rest

-- A write to the first peer of that id.
pub update_peer : ClientId → (PeerEntry → PeerEntry) → List PeerEntry → List PeerEntry
update_peer id f [] = []
update_peer id f (p ∷ ps) =
    let rest = update_peer id f ps in if p.client_id == id then f p ∷ ps else p ∷ rest

pub mute_action : Bool → Bool → String
mute_action false true = "muted"
mute_action false false = "unmuted"
mute_action true true = "silenced by host"
mute_action true false = "unsilenced by host"

pub mute_peer : Bool → Bool → PeerEntry → PeerEntry
mute_peer true muted p = record p { server_muted = muted }
mute_peer false muted p = record p { self_muted = muted }

pub mute_self : Bool → Bool → AppState → AppState
mute_self true muted s = record s { server_muted = muted }
mute_self false muted s = record s { self_muted = muted }

pub handle_signal : SignalMessage → AppState → AppState
handle_signal (client_joined client_id display_name) s =
    let entry : PeerEntry = record {
      client_id = client_id;
      display_name = display_name;
      self_muted = false;
      server_muted = false;
      is_host = false;
    } in
    add_event (append display_name " joined") green (record s { peers = s.peers ++ entry ∷ [] })
handle_signal (client_left client_id) s =
    add_event (append (name_or_number client_id s.peers) " left") red
      (record s { peers = without_peer client_id s.peers })
handle_signal (room_info clients) s =
    add_event "roster updated" dark_gray (set_peers_from_info clients s)
handle_signal you_are_host s = add_event "you are now the host" cyan_bold (record s {
  is_host = true;
  peers = update_peer s.client_id (λ p. record p { is_host = true }) s.peers;
})
handle_signal (kicked reason) s = record (add_event (append "kicked: " reason) red_bold s) {
  should_quit = true;
}
handle_signal (peer_muted client_id muted by_server) s =
    let s' : AppState = record s {
      peers = update_peer client_id (mute_peer by_server muted) s.peers;
    } in
    add_event (append (name_or_number client_id s.peers) (append " " (mute_action by_server muted)))
      yellow (if client_id == s.client_id then mute_self by_server muted s' else s')
handle_signal (error message) s = add_event (append "error: " message) red s
handle_signal _ s = s
