-- ===== src/Schedule.antt =====
-- Change windows and freeze periods: apps/api/app/schedule.py. A local time is a proleptic day number
-- (`date.toordinal`) and the microseconds since midnight.
pub mod Tests
pub mod Windows
pub mod Opening
pub mod Parse
use zero_node.Prelude.{
  ℕ, zero, suc, ◌+◌, ◌*◌, ◌%◌, Bool, true, false, not, ◌&&◌, ◌||◌, Option, none, some, List, [],
  ◌∷◌, ◌++◌, exists, first, is_empty, leb, ltb, ◌==◌, if◌then◌else◌,
}

pub record Moment : Type 0 where
  pub day : ℕ
  pub clock : ℕ

pub record Window : Type 0 where
  pub days : List ℕ
  pub start : ℕ
  pub end : ℕ

pub record Freeze : Type 0 where
  pub from_day : ℕ
  pub to_day : ℕ

-- Monday is 0; day 1 of the calendar is a Monday.
abbrev pub weekday : ℕ → ℕ
weekday day = (day + 6) % 7

abbrev pub on_days : List ℕ → ℕ → Bool
on_days [] d = false
on_days (x ∷ xs) d = x == d || on_days xs d

pub wraps : Window → Bool
wraps w = leb w.end w.start

-- `Window.contains`
unfoldable pub contains_moment : Window → Moment → Bool
unfolding wraps
contains_moment w m =
    let today = weekday m.day in
    if not (wraps w)
    then on_days w.days today && leb w.start m.clock && ltb m.clock w.end
    else if on_days w.days today && leb w.start m.clock
    then true
    else on_days w.days ((today + 6) % 7) && ltb m.clock w.end

-- Why a change may not be made now, with what the reason is formatted from.
pub data Closed : Type 0 where
  frozen_by : Freeze → Closed
  outside_window : Moment → Closed

-- `next_open` is a moment, or the midnight of the day after a freeze.
pub record WindowDecision : Type 0 where
  pub is_open : Bool
  pub reason : Option Closed
  pub next_open : Option Moment

pub record ChangeSchedule : Type 0 where
  pub windows : List Window
  pub freezes : List Freeze

abbrev covers : ℕ → Freeze → Bool
covers day f = leb f.from_day day && leb day f.to_day

pub frozen : ChangeSchedule → ℕ → Option Freeze
frozen s day = first (covers day) s.freezes

-- `first < second`
abbrev pub earlier : Moment → Moment → Bool
earlier m n = ltb m.day n.day || (m.day == n.day && ltb m.clock n.clock)

abbrev pub starts_on : Moment → ℕ → List Window → List Moment
starts_on now day [] = []
starts_on now day (w ∷ ws) =
    let rest = starts_on now day ws in
    let candidate : Moment = record { day = day; clock = w.start } in
    if not (on_days w.days (weekday day))
    then rest
    else if earlier now candidate
    then candidate ∷ rest
    else rest

abbrev unfrozen_starts : Option Freeze → List Moment → List Moment
unfrozen_starts none ms = ms
unfrozen_starts (some f) ms = []

-- The candidates of `count` days from `day` on.
abbrev pub candidates : ChangeSchedule → Moment → ℕ → ℕ → List Moment
candidates s now day zero = []
candidates s now day (suc count) =
    unfrozen_starts (frozen s day) (starts_on now day s.windows) ++ candidates s now (suc day) count

-- `min`, which gives the first of those that are least
abbrev pub least : List Moment → Option Moment
least [] = none
least (m ∷ ms) = elim (least ms) [ none ↦ some m | some n ↦ if earlier n m then some n else some m ]

-- `_next_open`, whose horizon is 14 days
pub next_open : ChangeSchedule → Moment → Option Moment
unfolding frozen
next_open s now = least (candidates s now now.day 15)

abbrev by_window : ChangeSchedule → Moment → Bool
by_window s now = is_empty s.windows || exists (λ w. contains_moment w now) s.windows

-- `evaluate`, at a local time
pub evaluate : ChangeSchedule → Moment → WindowDecision
unfolding next_open contains_moment
evaluate s now = elim (frozen s now.day) [
  | some f ↦ record {
    is_open = false;
    reason = some (frozen_by f);
    next_open = some (record { day = suc f.to_day; clock = 0 });
  }
  | none ↦
      if by_window s now
      then record { is_open = true; reason = none; next_open = none }
      else record {
        is_open = false;
        reason = some (outside_window now);
        next_open = next_open s now;
      }
]
