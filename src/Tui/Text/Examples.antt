-- ===== src/Tui/Text/Examples.antt =====
-- client/src/tui.rs: numbers and strings at inputs.
use voicemcu.Base.{◌≡◌, refl, some}
use voicemcu.Tui.Text.{
  show_id, show_digits, nth_digit, parse_u64, parse_digits, trim, trim_start, trim_end,
}

show_1234 : show_id 1234 ≡ "1234"
unfolding show_id show_digits nth_digit
show_1234 = refl

parse_plus : parse_u64 "+42" ≡ some 42
unfolding parse_u64 parse_digits
parse_plus = refl

trimmed : trim "  /kick bob " ≡ "/kick bob"
unfolding trim trim_start trim_end
trimmed = refl
