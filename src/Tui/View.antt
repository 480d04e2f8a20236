-- ===== src/Tui/View.antt =====
-- client/src/tui.rs, `draw`: what a frame of the interface is made of. How ratatui splits the area of
-- the terminal is a parameter, and what it makes of a widget is left to it.
pub mod Newest
pub mod Cursor
mod Examples
use Prim.Native.Char.{Char, code}
use Prim.Native.String.{String}
use voicemcu.Base.{
  ℕ, zero, suc, ◌+◌, ◌-◌, ◌%◌, ◌^◌, Bool, true, false, List, [], ◌∷◌, ◌++◌, map, length, ltb, ◌==◌,
  if◌then◌else◌,
}
use voicemcu.Tui.{
  PeerEntry, AppState, Style, has_duplicate_name, red, dark_gray, yellow, white, white_bold,
  light_yellow, cyan, plain,
}
use voicemcu.Tui.Text.{append, show_id}

-- Each of the four is a u16.
pub record Rect : Type 0 where
  pub x : ℕ
  pub y : ℕ
  pub width : ℕ
  pub height : ℕ

-- The areas of the three parts.
pub record Layout : Type 0 where
  pub peers_area : Rect
  pub events_area : Rect
  pub input_area : Rect

abbrev pub Span : Type 0
Span = String × Style

-- A paragraph in a border, from the line `scroll` on.
pub record Paragraph : Type 0 where
  pub area : Rect
  pub title : List Span
  pub lines : List (List Span)
  pub scroll : ℕ

pub record Drawn : Type 0 where
  pub widgets : List Paragraph
  pub cursor : ℕ × ℕ

-- A sum of numbers of 16 bits, where overflow is not checked.
abbrev pub u16_mod : ℕ
u16_mod = 65536

-- `{:<width}`.
pub pad_right : ℕ → String → String
pad_right zero s = s
pad_right (suc width) String.[] = append " " (pad_right width String.[])
pad_right (suc width) (String.◌∷◌ c s) = String.◌∷◌ c (pad_right width s)

pub name_style : AppState → PeerEntry → Style
name_style state p =
    if p.client_id == state.client_id
    then white_bold
    else if has_duplicate_name state p.display_name
    then light_yellow
    else white

-- The mark of one who was muted by the host, or else by itself.
pub mute_span : Bool → Bool → String → String → List Span
mute_span true self_muted silenced muted = (silenced, red) ∷ []
mute_span false true silenced muted = (muted, yellow) ∷ []
mute_span false false silenced muted = []

pub peer_line : AppState → PeerEntry → List Span
peer_line state p =
    let marker = if p.client_id == state.client_id then ">" else " " in
    (append marker (append "#" (pad_right 4 (show_id p.client_id))), dark_gray)
    ∷ (append p.display_name " ", name_style state p)
    ∷ ((if has_duplicate_name state p.display_name then ("(!) ", light_yellow) ∷ [] else [])
        ++ ((if p.is_host then ("HOST ", cyan) ∷ [] else [])
            ++ mute_span p.server_muted p.self_muted "SILENCED " "MUTE "))

pub draw_peers : AppState → Rect → Paragraph
draw_peers state area = record {
  area = area;
  title = (append " Peers (" (append (show_id (length state.peers)) ") "), plain) ∷ [];
  lines = map (peer_line state) state.peers;
  scroll = 0;
}

abbrev pub event_line : Span → List Span
event_line event = event ∷ []

-- The lines inside the border.
abbrev pub inner_height : Rect → ℕ
inner_height area = area.height - 2

-- `as u16`.
pub scroll_to_end : ℕ → ℕ → ℕ
scroll_to_end count height = if ltb height count then (count - height) % u16_mod else 0

pub draw_events : AppState → Rect → Paragraph
draw_events state area = record {
  area = area;
  title = (" Events ", plain) ∷ [];
  lines = map event_line state.events;
  scroll = scroll_to_end (length state.events) (inner_height area);
}

pub input_title : AppState → List Span
input_title state =
    (" ", plain)
    ∷ (state.display_name, white_bold)
    ∷ (append " | room: " (append state.room_code " "), dark_gray)
    ∷ ((if state.is_host then ("[HOST] ", cyan) ∷ [] else [])
        ++ mute_span state.server_muted state.self_muted "[SILENCED] " "[MUTED] ")

pub draw_input : AppState → Rect → Paragraph
draw_input state area = record {
  area = area;
  title = input_title state;
  lines = (("> ", dark_gray) ∷ (state.input, plain) ∷ []) ∷ [];
  scroll = 0;
}

-- The bytes of a character in UTF-8, and of a string (`len`).
abbrev pub len_utf8 : Char → ℕ
len_utf8 c =
    if ltb (code c) 128
    then 1
    else if ltb (code c) 2048
    then 2
    else if ltb (code c) 65536
    then 3
    else 4

pub byte_length : String → ℕ
byte_length String.[] = 0
byte_length (String.◌∷◌ c s) = len_utf8 c + byte_length s

pub cursor_position : AppState → Rect → ℕ × ℕ
cursor_position state area =
    ((area.x + 3 + byte_length state.input % u16_mod) % u16_mod, (area.y + 1) % u16_mod)

pub draw : Layout → AppState → Drawn
draw areas state = record {
  widgets =
      draw_peers state areas.peers_area
      ∷ draw_events state areas.events_area
      ∷ draw_input state areas.input_area
      ∷ [];
  cursor = cursor_position state areas.input_area;
}
