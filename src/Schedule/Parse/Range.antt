-- ===== src/Schedule/Parse/Range.antt =====
-- The times that a setting can give: apps/api/app/schedule.py.
use zero_node.Prelude.{
  ℕ, ◌<◌, ◌≡◌, ap, transport, ◌&&◌, Option, none, some, List, [], ◌∷◌, All, Bool-cases,
  Option-cases, inl, inr, arith, is_empty, ltb,
}
use zero_node.Prelude.Text.{Text, strip, split_on, number}
use zero_node.Schedule.{Window}
use zero_node.Schedule.Parse.{
  cut, parse_days, parse_time, window_of, window_match, matched_window, windows_of, parse_windows,
}

abbrev pub Fits : ℕ → Window → Type 0
Fits day w = (w.start < day) × (w.end < day)

parse_time_bound : (text : Text) (n : ℕ) → parse_time text ≡ some n → n < 86400000000
unfolding parse_time
parse_time_bound text n e =
    elim (Bool-cases (ltb (number (cut 58 text).0) 24 && ltb (number (cut 58 text).1) 60)) [
      | inl valid ↦ ground arith
      | inr invalid ↦ absurd (ground arith)
    ]

window_of-Fits :
    (days : Option (List ℕ)) (start end : Text) (w : Window)
    → window_of days (parse_time start) (parse_time end) ≡ some w
    → Fits 86400000000 w
window_of-Fits none start end w e = absurd (ground arith)
window_of-Fits (some days) start end w e = elim (Option-cases (parse_time start)) [
  | inl bad ↦ absurd (ground arith)
  | inr (a, start_is) ↦ elim (Option-cases (parse_time end)) [
    | inl bad ↦ absurd (ground arith)
    | inr (b, end_is) ↦
        let is : some (record { days = days; start = a; end = b }) ≡ some w = ground arith in
        let same : a ≡ w.start = ground arith in
        let same' : b ≡ w.end = ground arith in
        (
          ground (arith, parse_time_bound start a start_is, same),
          ground (arith, parse_time_bound end b end_is, same'),
        )
  ]
]

matched_window-Fits :
    (m : Option (Text × Text × Text)) (w : Window) → matched_window m ≡ some w → Fits 86400000000 w
matched_window-Fits none w e = absurd (ground arith)
matched_window-Fits (some (days, start, end)) w e = window_of-Fits (parse_days days) start end w e

windows_of-Fits :
    (chunks : List Text) (ws : List Window)
    → windows_of chunks ≡ some ws
    → All (Fits 86400000000) ws
windows_of-Fits [] [] e = tt
windows_of-Fits [] (w ∷ ws) e = absurd (ground arith)
windows_of-Fits (chunk ∷ chunks) ws e = elim (Bool-cases (is_empty (strip chunk))) [
  | inl blank ↦ windows_of-Fits chunks ws (ground arith)
  | inr text ↦ elim (Option-cases (matched_window (window_match (strip chunk)))) [
    | inl bad ↦ absurd (ground arith)
    | inr (w, this) ↦ elim (Option-cases (windows_of chunks)) [
      | inl bad ↦ absurd (ground arith)
      | inr (vs, rest) ↦
          let whole : w ∷ vs ≡ ws = ground arith in
          transport (ap (All (Fits 86400000000)) whole) (
            matched_window-Fits (window_match (strip chunk)) w this,
            windows_of-Fits chunks vs rest,
          )
    ]
  ]
]

-- Every window that is read from the settings starts and ends within the day.
pub parse_windows-Fits :
    (spec : Text) (ws : List Window) → parse_windows spec ≡ some ws → All (Fits 86400000000) ws
unfolding parse_windows
parse_windows-Fits spec ws e = windows_of-Fits (split_on 59 spec) ws e
