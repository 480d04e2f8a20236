-- ===== src/Tui/View/Newest.antt =====
-- Which lines of the log are shown.
use voicemcu.Base.{
  ℕ, zero, suc, ◌+◌, ◌-◌, ◌<◌, ◌≤◌, ◌≡◌, refl, ap, ◌∙◌, inl, inr, List, [], ◌∷◌, map, length, take,
  drop, length-map, length-drop, arith, ltb, Bool-cases,
}
use voicemcu.Tui.{AppState}
use voicemcu.Tui.Laws.{IsBounded}
use voicemcu.Tui.View.{
  Rect, Span, Paragraph, inner_height, event_line, scroll_to_end, u16_mod, draw_events,
}

-- What a paragraph shows: its lines from `scroll` on, as many as fit.
unfoldable pub shown : Paragraph → List (List Span)
shown p = take (inner_height p.area) (drop p.scroll p.lines)

-- The last of a list, and the whole of one that is not longer.
unfoldable pub last_of : {A : Type 0} → ℕ → List A → List A
last_of n xs = drop (length xs - n) xs

drop-map : {A B : Type 0} (f : A → B) (n : ℕ) (xs : List A) → drop n (map f xs) ≡ map f (drop n xs)
drop-map f zero xs = refl
drop-map f (suc n) [] = refl
drop-map f (suc n) (x ∷ xs) = drop-map f n xs

take_all : {A : Type 0} (n : ℕ) (xs : List A) → length xs ≤ n → take n xs ≡ xs
take_all zero [] h = refl
take_all (suc n) [] h = refl
take_all zero (x ∷ xs) h = absurd (omega (arith, h))
take_all (suc n) (x ∷ xs) h = ap (λ ys. x ∷ ys) (take_all n xs (omega (arith, h)))

scroll_to_end_lem :
    (count height : ℕ) → count < u16_mod + height → scroll_to_end count height ≡ count - height
unfolding scroll_to_end
scroll_to_end_lem count height small = elim (Bool-cases (ltb height count)) [
  | inl long ↦ rw (long, scroll_to_end) (ground (arith, long))
  | inr short ↦ rw (short, scroll_to_end) (ground (arith, short))
]

-- A log within a limit of less than 2^16 lines more than fit is shown by its last lines, in order:
-- as many as fit, and all of it if it fits.
pub shown-draw_events :
    (state : AppState) (area : Rect)
    → IsBounded state
    → state.max_events < u16_mod + inner_height area
    → shown (draw_events state area) ≡ map event_line (last_of (inner_height area) state.events)
unfolding shown last_of draw_events
shown-draw_events state area bounded small =
    let h = inner_height area in
    let n = length state.events in
    ap (λ k. take h (drop k (map event_line state.events)))
      (scroll_to_end_lem n h (omega (arith, bounded, small)))
    ∙ ap (take h) (drop-map event_line (n - h) state.events)
    ∙ take_all h (map event_line (drop (n - h) state.events)) (
        omega (
          arith,
          length-map (drop (n - h) state.events) event_line,
          length-drop (n - h) state.events,
        ))
