-- ===== src/Tui/View/Examples.antt =====
-- A small interface as it is drawn, and the theorems at it.
use voicemcu.Base.{◌≡◌, refl, true, false, [], ◌∷◌, map, arith}
use voicemcu.Tui.{
  AppState, PeerEntry, dark_gray, white, white_bold, light_yellow, cyan, red, yellow,
  has_duplicate_name, named,
}
use voicemcu.Tui.Text.{append, show_id, show_digits, eq_ignore_ascii_case, nth_digit}
use voicemcu.Tui.View.{
  Rect, peer_line, name_style, mute_span, pad_right, inner_height, event_line, draw_events,
  scroll_to_end,
}
use voicemcu.Tui.View.Newest.{shown, last_of, shown-draw_events}

abbrev eve : PeerEntry
eve = record {
  client_id = 7;
  display_name = "eve";
  self_muted = true;
  server_muted = false;
  is_host = true;
}

abbrev impostor : PeerEntry
impostor = record {
  client_id = 12;
  display_name = "EVE";
  self_muted = true;
  server_muted = true;
  is_host = false;
}

abbrev app : AppState
app = record {
  client_id = 7;
  room_code = "lab";
  display_name = "eve";
  is_host = true;
  self_muted = true;
  server_muted = false;
  should_quit = false;
  max_events = 3;
  peers = eve ∷ impostor ∷ [];
  events = ("a", white) ∷ ("b", red) ∷ ("c", white) ∷ [];
  input = "hé";
}

abbrev area : Rect
area = record { x = 0; y = 20; width = 80; height = 4 }

eve_line :
    peer_line app eve
    ≡ (">#7   ", dark_gray)
      ∷ ("eve ", white_bold)
      ∷ ("(!) ", light_yellow)
      ∷ ("HOST ", cyan)
      ∷ ("MUTE ", yellow)
      ∷ []
unfolding peer_line name_style has_duplicate_name named eq_ignore_ascii_case append pad_right
    show_id show_digits nth_digit mute_span
eve_line = refl

impostor_line :
    peer_line app impostor
    ≡ (" #12  ", dark_gray)
      ∷ ("EVE ", light_yellow)
      ∷ ("(!) ", light_yellow)
      ∷ ("SILENCED ", red)
      ∷ []
unfolding peer_line name_style has_duplicate_name named eq_ignore_ascii_case append pad_right
    show_id show_digits nth_digit mute_span
impostor_line = refl

last_two : shown (draw_events app area) ≡ (("b", red) ∷ []) ∷ (("c", white) ∷ []) ∷ []
unfolding shown draw_events scroll_to_end
last_two = refl

shown-draw_events_example :
    shown (draw_events app area) ≡ map event_line (last_of (inner_height area) app.events)
shown-draw_events_example = shown-draw_events app area (omega arith) (omega arith)
