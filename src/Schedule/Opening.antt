-- ===== src/Schedule/Opening.antt =====
-- When a change may be made, and what is announced when it may not: apps/api/app/schedule.py.
use zero_node.Prelude.{
  ℕ, zero, suc, ◌≡◌, refl, ap, transport, ◌⊎◌, true, ◌||◌, none, some, List, [], ◌∷◌, ◌++◌, All,
  exists, is_empty, ◌↔◌, Bool-cases, Option-cases, inl, inr, arith, leb,
}
use zero_node.Schedule.{
  Moment, Window, weekday, on_days, wraps, contains_moment, ChangeSchedule, frozen, earlier,
  starts_on, candidates, least, next_open, by_window, evaluate,
}

-- Changes are open exactly when no freeze covers the day (a freeze always wins) and there is no
-- window at all, or one of them contains the moment.
pub evaluate-open_iff :
    (s : ChangeSchedule) (now : Moment)
    → ((evaluate s now).is_open ≡ true) ↔ (
        (frozen s now.day ≡ none)
        × (is_empty s.windows || exists (λ w. contains_moment w now) s.windows ≡ true))
unfolding evaluate
evaluate-open_iff s now = elim (Option-cases (frozen s now.day)) [
  | inl free ↦
      rw (free, evaluate)
        (elim (Bool-cases (by_window s now)) [
          | inl good ↦ rw good (λ h. (refl, refl), λ h. refl)
          | inr bad ↦ rw bad (λ h. cc, λ h. cc)
        ])
  | inr (f, e) ↦ rw (e, evaluate) (λ h. cc, λ h. cc)
]

-- What a moment has to be to be announced, by one of the windows `ws`.
abbrev pub Opens : ChangeSchedule → Moment → List Window → Moment → Type 0
Opens s now ws m =
    (earlier now m ≡ true) × (frozen s m.day ≡ none) × (exists (λ w. contains_moment w m) ws ≡ true)

start-contains :
    (w : Window) (day : ℕ)
    → on_days w.days (weekday day) ≡ true
    → contains_moment w (record { day = day; clock = w.start }) ≡ true
unfolding contains_moment wraps
start-contains w day on = elim (Bool-cases (leb w.end w.start)) [
  | inl overnight ↦ ground arith
  | inr plain ↦ ground arith
]

Opens-widen :
    (s : ChangeSchedule) (now : Moment) (w : Window) (ws : List Window) (ms : List Moment)
    → All (Opens s now ws) ms
    → All (Opens s now (w ∷ ws)) ms
Opens-widen s now w ws [] h = tt
Opens-widen s now w ws (m ∷ ms) ((later, free, opens), rest) =
    ((later, free, ground arith), Opens-widen s now w ws ms rest)

starts_on-Opens :
    (s : ChangeSchedule) (now : Moment) (day : ℕ) (ws : List Window)
    → frozen s day ≡ none
    → All (Opens s now ws) (starts_on now day ws)
starts_on-Opens s now day [] free = tt
starts_on-Opens s now day (w ∷ ws) free =
    let m : Moment = record { day = day; clock = w.start } in
    let rest = Opens-widen s now w ws (starts_on now day ws) (starts_on-Opens s now day ws free) in
    elim (Bool-cases (on_days w.days (weekday day))) [
      | inr other_day ↦ rw (other_day, starts_on) rest
      | inl on ↦ elim (Bool-cases (earlier now m)) [
        | inr past ↦ rw (on, past, starts_on) rest
        | inl later ↦
            rw (on, later, starts_on) ((later, free, ground (arith, start-contains w day on)), rest)
      ]
    ]

All-append : (P : Moment → Type 0) (ms ns : List Moment) → All P ms → All P ns → All P (ms ++ ns)
All-append P [] ns h k = k
All-append P (m ∷ ms) ns h k = (h.0, All-append P ms ns h.1 k)

candidates-Opens :
    (s : ChangeSchedule) (now : Moment) (day count : ℕ)
    → All (Opens s now s.windows) (candidates s now day count)
candidates-Opens s now day zero = tt
candidates-Opens s now day (suc count) = elim (Option-cases (frozen s day)) [
  | inl free ↦
      rw (free, candidates)
        (All-append (Opens s now s.windows) (starts_on now day s.windows)
          (candidates s now (suc day) count) (starts_on-Opens s now day s.windows free)
          (candidates-Opens s now (suc day) count))
  | inr (f, e) ↦ rw (e, candidates) (candidates-Opens s now (suc day) count)
]

least_cases :
    (n : Moment) (ns : List Moment) (m : Moment)
    → least (n ∷ ns) ≡ some m
    → (n ≡ m) ⊎ (least ns ≡ some m)
least_cases n ns m e = elim (Option-cases (least ns)) [
  | inl only ↦ inl (ground arith)
  | inr (k, rest) ↦ elim (Bool-cases (earlier k n)) [
    | inl first ↦ inr (ground arith)
    | inr later ↦ inl (ground arith)
  ]
]

least-All :
    (P : Moment → Type 0) (ms : List Moment) (m : Moment) → All P ms → least ms ≡ some m → P m
least-All P [] m h e = cc
least-All P (n ∷ ns) m h e = elim (least_cases n ns m e) [
  | inl is ↦ transport (ap P is) h.0
  | inr rest ↦ least-All P ns m h.1 rest
]

-- The opening that is announced to someone who is outside every window is one: it is later, no freeze
-- covers its day, and changes are open at it.
pub next_open-opens :
    (s : ChangeSchedule) (now m : Moment)
    → next_open s now ≡ some m
    → (earlier now m ≡ true) × ((evaluate s m).is_open ≡ true)
unfolding next_open
next_open-opens s now m e =
    let (later, free, opens) =
      least-All (Opens s now s.windows) (candidates s now now.day 15) m
        (candidates-Opens s now now.day 15) e in
    (later, (evaluate-open_iff s m).1 (free, ground arith))
