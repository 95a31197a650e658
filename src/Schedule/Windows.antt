-- ===== src/Schedule/Windows.antt =====
-- What a window means on the time line: apps/api/app/schedule.py.
use zero_node.Prelude.{
  ℕ, suc, ◌+◌, ◌-◌, ◌*◌, ◌%◌, ◌≤◌, ◌<◌, ◌≡◌, sym, ap, ◌∙◌, true, ◌↔◌, Bool-cases, inl, inr, arith,
  leb, ◌⊎◌, ◌&&◌, ◌==◌, if◌then◌else◌,
}
use zero_node.Schedule.{Moment, Window, weekday, on_days, wraps, contains_moment}

-- The microseconds of a day.
abbrev pub full_day : ℕ
full_day = 86400000000

abbrev pub instant : Moment → ℕ
instant m = m.day * 86400000000 + m.clock

-- How long a window stays open; one that ends where it starts is open for a whole day.
abbrev pub duration : Window → ℕ
duration w = if leb w.end w.start then 86400000000 + w.end - w.start else w.end - w.start

-- A day of the window's on which it opened, no later than the moment, and not yet closed.
abbrev pub OpenedOn : Window → Moment → Type 0
OpenedOn w m =
    (day : ℕ) × (on_days w.days (weekday day) ≡ true)
    × (day * 86400000000 + w.start ≤ instant m)
    × (instant m < day * 86400000000 + w.start + duration w)

yesterday : (day : ℕ) → 1 ≤ day → (weekday day + 6) % 7 ≡ weekday (day - 1)
yesterday day h = omega (arith, h)

-- The two days on which a window that is open now can have opened.
today_or_yesterday :
    (w : Window) (m : Moment)
    → w.end < 86400000000
    → m.clock < 86400000000
    → (opened : OpenedOn w m) → (opened.0 ≡ m.day) ⊎ (suc opened.0 ≡ m.day)
today_or_yesterday w m e c (day, on, from_, to) = elim (Bool-cases (day == m.day)) [
  | inl same ↦ inl (ground arith)
  | inr other ↦ inr (ground arith)
]

contains-OpenedOn :
    (w : Window) (m : Moment)
    → w.start < 86400000000
    → w.end < 86400000000
    → m.clock < 86400000000
    → 1 ≤ m.day
    → contains_moment w m ≡ true
    → OpenedOn w m
unfolding contains_moment wraps
contains-OpenedOn w m s e c d h = elim (Bool-cases (leb w.end w.start)) [
  | inr plain ↦ (m.day, ground arith, ground arith, ground arith)
  | inl overnight ↦ elim (Bool-cases (on_days w.days (weekday m.day) && leb w.start m.clock)) [
    | inl today ↦ (m.day, ground arith, ground arith, ground arith)
    | inr not_today ↦ (m.day - 1, ground (arith, yesterday m.day d), ground arith, ground arith)
  ]
]

OpenedOn-contains :
    (w : Window) (m : Moment)
    → w.end < 86400000000
    → m.clock < 86400000000
    → 1 ≤ m.day
    → OpenedOn w m
    → contains_moment w m ≡ true
unfolding contains_moment wraps
OpenedOn-contains w m e c d (day, on, from_, to) =
    elim (today_or_yesterday w m e c (day, on, from_, to)) [
      | inl today ↦
          let on' : on_days w.days (weekday m.day) ≡ true =
            ap (λ x. on_days w.days (weekday x)) (sym today) ∙ on in
          ground arith
      | inr later ↦
          let on' : on_days w.days (weekday (m.day - 1)) ≡ true =
            ap (λ x. on_days w.days (weekday x)) (omega (arith, later)) ∙ on in
          ground (arith, yesterday m.day d)
    ]

-- A window contains a moment exactly when, on one of its days, it opened at or before that moment
-- and its length (which runs over midnight when it ends no later than it starts) was not over: a
-- window that runs over midnight belongs to the day on which it opened.
pub contains_moment_iff :
    (w : Window) (m : Moment)
    → w.start < 86400000000
    → w.end < 86400000000
    → m.clock < 86400000000
    → 1 ≤ m.day
    → (contains_moment w m ≡ true) ↔ OpenedOn w m
contains_moment_iff w m s e c d = (contains-OpenedOn w m s e c d, OpenedOn-contains w m e c d)
