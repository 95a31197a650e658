-- ===== src/Schedule/Tests.antt =====
-- Runs of a schedule with a night window: apps/api/app/schedule.py.
use zero_node.Prelude.{◌≡◌, refl, true, none, [], ◌∷◌, ◌↔◌, arith, ◌||◌, is_empty, exists}
use zero_node.Schedule.{
  Moment, Window, ChangeSchedule, contains_moment, frozen, earlier, next_open, evaluate,
}
use zero_node.Prelude.{All, some}
use zero_node.Prelude.Text.{codes}
use zero_node.Schedule.Parse.{parse_days, parse_time, parse_windows}
use zero_node.Schedule.Parse.Range.{Fits, parse_windows-Fits}
use zero_node.Schedule.Windows.{OpenedOn, contains_moment_iff}
use zero_node.Schedule.Opening.{evaluate-open_iff, next_open-opens}

-- `mon-fri 22:00-04:00`
abbrev nights : Window
nights = record { days = 0 ∷ 1 ∷ 2 ∷ 3 ∷ 4 ∷ []; start = 79200000000; end = 14400000000 }

-- The third Tuesday of the calendar is frozen; the moment is the Tuesday before it, at three in
-- the morning, and then on Saturday at noon.
abbrev schedule : ChangeSchedule
schedule = record { windows = nights ∷ []; freezes = record { from_day = 16; to_day = 16 } ∷ [] }

abbrev tuesday : Moment
tuesday = record { day = 9; clock = 10800000000 }

abbrev saturday : Moment
saturday = record { day = 13; clock = 43200000000 }

abbrev monday : Moment
monday = record { day = 15; clock = 79200000000 }

contains_moment_iff_example : (contains_moment nights tuesday ≡ true) ↔ OpenedOn nights tuesday
contains_moment_iff_example =
    contains_moment_iff nights tuesday (omega arith) (omega arith) (omega arith) (omega arith)

evaluate-open_iff_example : ((evaluate schedule tuesday).is_open ≡ true) ↔ (
    (frozen schedule 9 ≡ none)
    × (is_empty (nights ∷ []) || exists (λ w. contains_moment w tuesday) (nights ∷ []) ≡ true))
evaluate-open_iff_example = evaluate-open_iff schedule tuesday

next_open-opens_example :
    (earlier saturday monday ≡ true) × ((evaluate schedule monday).is_open ≡ true)
unfolding next_open frozen
next_open-opens_example = next_open-opens schedule saturday monday refl

night_lem : parse_windows (codes "Mon-Fri 22:00-04:00;") ≡ some (nights ∷ [])
unfolding parse_windows parse_days parse_time
night_lem = refl

parse_windows-Fits_example : All (Fits 86400000000) (nights ∷ [])
parse_windows-Fits_example =
    parse_windows-Fits (codes "Mon-Fri 22:00-04:00;") (nights ∷ []) night_lem
