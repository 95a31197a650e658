-- ===== src/Schedule/Parse.antt =====
-- Reading the settings of a schedule: apps/api/app/schedule.py. `none` is a `ScheduleError`; what
-- `date.fromisoformat` makes of a text, as a day number, is a parameter.
pub mod Range
use zero_node.Prelude.{
  ℕ, zero, suc, ◌+◌, ◌-◌, ◌*◌, ◌<◌, ◌≡◌, refl, ap, transport, Bool, true, false, not, ◌&&◌, ◌||◌,
  Option, none, some, List, [], ◌∷◌, ◌++◌, All, Bool-cases, Option-cases, inl, inr, arith, is_empty,
  leb, ltb, ◌==◌, if◌then◌else◌,
}
use zero_node.Prelude.Text.{
  Text, codes, text_eq, is_space, is_digit, lower, strip, strip_left, split_on, number,
}
use zero_node.Schedule.{Window, Freeze, ChangeSchedule}

-- `DAYS.index(name)`
abbrev index_in : ℕ → List Text → Text → Option ℕ
index_in n [] name = none
index_in n (d ∷ ds) name = if text_eq d name then some n else index_in (n + 1) ds name

abbrev pub day_index : Text → Option ℕ
day_index = index_in 0 (
    codes "mon"
    ∷ codes "tue"
    ∷ codes "wed"
    ∷ codes "thu"
    ∷ codes "fri"
    ∷ codes "sat"
    ∷ codes "sun"
    ∷ [])

-- `text.partition(c)` without the separator: what stands before and after the first `c`, and
-- whether there is one.
abbrev pub cut : ℕ → Text → Text × Text × Bool
cut c [] = ([], [], false)
cut c (d ∷ s) =
    let (before, after, found) = cut c s in
    if d == c then ([], s, true) else (d ∷ before, after, found)

-- `range(first, first + count)`
abbrev span : ℕ → ℕ → List ℕ
span first zero = []
span first (suc count) = first ∷ span (first + 1) count

abbrev pub days_between : Option ℕ → Option ℕ → Option (List ℕ)
days_between none b = none
days_between (some a) none = none
days_between (some a) (some b) =
    some (if leb a b then span a (b + 1 - a) else span a (7 - a) ++ span 0 (b + 1))

abbrev one_day : Option ℕ → Option (List ℕ)
one_day none = none
one_day (some d) = some (d ∷ [])

abbrev part_days : Text → Option (List ℕ)
part_days part =
    let (first, last, found) = cut 45 part in
    if found then days_between (day_index first) (day_index last) else one_day (day_index part)

abbrev both_days : Option (List ℕ) → Option (List ℕ) → Option (List ℕ)
both_days none q = none
both_days (some ds) none = none
both_days (some ds) (some es) = some (ds ++ es)

abbrev all_days : List Text → Option (List ℕ)
all_days [] = some []
all_days (p ∷ ps) =
    let rest = all_days ps in
    let part = strip p in if is_empty part then rest else both_days (part_days part) rest

abbrev some_day : Option (List ℕ) → Option (List ℕ)
some_day none = none
some_day (some ds) = if is_empty ds then none else some ds

-- `_parse_days`
unfoldable pub parse_days : Text → Option (List ℕ)
parse_days text = some_day (all_days (split_on 44 (lower text)))

-- `_parse_time`, of a text that matched `\d{1,2}:\d{2}`, in microseconds
unfoldable pub parse_time : Text → Option ℕ
parse_time text =
    let (hour, minute, found) = cut 58 text in
    if ltb (number hour) 24 && ltb (number minute) 60
    then some ((number hour * 60 + number minute) * 60000000)
    else none

-- `\d{1,2}:\d{2}` at the start of a text, and what follows it.
abbrev time_at : Text → Option (Text × Text)
time_at (a ∷ b ∷ c ∷ d ∷ []) =
    if is_digit a && b == 58 && is_digit c && is_digit d
    then some (a ∷ b ∷ c ∷ d ∷ [], [])
    else none
time_at (a ∷ b ∷ c ∷ d ∷ e ∷ s) =
    if is_digit a && b == 58 && is_digit c && is_digit d
    then some (a ∷ b ∷ c ∷ d ∷ [], e ∷ s)
    else if is_digit a && is_digit b && c == 58 && is_digit d && is_digit e
    then some (a ∷ b ∷ c ∷ d ∷ e ∷ [], s)
    else none
time_at _ = none

abbrev is_day_code : ℕ → Bool
is_day_code c = (leb 97 c && leb c 122) || (leb 65 c && leb c 90) || c == 44 || c == 45

abbrev days_at : Text → Text × Text
days_at [] = ([], [])
days_at (c ∷ s) =
    let (days, rest) = days_at s in if is_day_code c then (c ∷ days, rest) else ([], c ∷ s)

abbrev ends_here : Text → Text → Option (Text × Text) → Option (Text × Text × Text)
ends_here days start none = none
ends_here days start (some (end, rest)) = if is_empty rest then some (days, start, end) else none

abbrev after_dash : Text → Text → Text → Option (Text × Text × Text)
after_dash days start [] = none
after_dash days start (c ∷ s) =
    if c == 45 then ends_here days start (time_at (strip_left s)) else none

abbrev after_start : Text → Option (Text × Text) → Option (Text × Text × Text)
after_start days none = none
after_start days (some (start, rest)) = after_dash days start (strip_left rest)

abbrev space_next : Text → Bool
space_next [] = false
space_next (c ∷ s) = is_space c

-- `WINDOW_RE.match`, on a stripped text: its three groups
abbrev pub window_match : Text → Option (Text × Text × Text)
window_match text =
    let (days, rest) = days_at text in
    if not (is_empty days) && space_next rest
    then after_start days (time_at (strip_left rest))
    else none

abbrev pub window_of : Option (List ℕ) → Option ℕ → Option ℕ → Option Window
window_of (some days) (some start) (some end) =
    some (record { days = days; start = start; end = end })
window_of _ _ _ = none

abbrev pub matched_window : Option (Text × Text × Text) → Option Window
matched_window none = none
matched_window (some (days, start, end)) =
    window_of (parse_days days) (parse_time start) (parse_time end)

abbrev with_first {ℓ} : {A : Type ℓ} → Option A → Option (List A) → Option (List A)
with_first none rest = none
with_first (some x) none = none
with_first (some x) (some xs) = some (x ∷ xs)

abbrev pub windows_of : List Text → Option (List Window)
windows_of [] = some []
windows_of (chunk ∷ chunks) =
    let rest = windows_of chunks in
    let text = strip chunk in
    if is_empty text then rest else with_first (matched_window (window_match text)) rest

unfoldable pub parse_windows : Text → Option (List Window)
unfolding parse_days parse_time
parse_windows spec = windows_of (split_on 59 spec)

-- The text before the first `..`, the text after it, and whether there is one.
abbrev cut_dots : Text → Text × Text × Bool
cut_dots [] = ([], [], false)
cut_dots (c ∷ []) = (c ∷ [], [], false)
cut_dots (c ∷ d ∷ s) =
    let (before, after, found) = cut_dots (d ∷ s) in
    if c == 46 && d == 46 then ([], s, true) else (c ∷ before, after, found)

abbrev freeze_of : Option ℕ → Option ℕ → Option Freeze
freeze_of (some first) (some last) =
    if ltb last first then none else some (record { from_day = first; to_day = last })
freeze_of _ _ = none

module _ (date_of : Text → Option ℕ) where
  abbrev period : Text → Option Freeze
  period text =
      let (first, last, found) = cut_dots text in
      let start = date_of (strip first) in
      freeze_of start (if found then date_of (strip last) else start)

  abbrev freezes_of : List Text → Option (List Freeze)
  freezes_of [] = some []
  freezes_of (chunk ∷ chunks) =
      let rest = freezes_of chunks in
      let text = strip chunk in if is_empty text then rest else with_first (period text) rest

  pub parse_freezes : Text → Option (List Freeze)
  parse_freezes spec = freezes_of (split_on 59 spec)

  abbrev schedule_of : Option (List Window) → Option (List Freeze) → Option ChangeSchedule
  schedule_of (some windows) (some freezes) = some (record { windows = windows; freezes = freezes })
  schedule_of _ _ = none

  -- `ChangeSchedule(windows, freezes)`
  pub change_schedule : Text → Text → Option ChangeSchedule
  unfolding parse_windows parse_freezes
  change_schedule windows freezes = schedule_of (parse_windows windows) (parse_freezes freezes)
