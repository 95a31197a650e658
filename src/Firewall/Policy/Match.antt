-- ===== src/Firewall/Policy/Match.antt =====
-- First-match evaluation, and which rule decides: apps/api/app/firewall/policy.py.
use zero_node.Prelude.{
  ℕ, ◌≡◌, refl, sym, ap, ◌∙◌, Bool, true, false, Option, none, some, List, [], ◌∷◌, ◌++◌, All, ◌⊎◌,
  inl, inr, Bool-cases, arith, false≢true, if◌then◌else◌,
}
use zero_node.Prelude.Int.{ℤ, ◌≤ℤ◌, leb_ℤ}
use zero_node.Prelude.Text.{Text, one_of, text_eq}
use zero_node.Firewall.Policy.{
  AclRule, deny, permit, matches, insert_rule, sort_rules, first_match, evaluate_flow,
}

abbrev pub Verdict : Type 0
Verdict = Text × Option AclRule

-- The rule in front against the verdict of the rest.
abbrev pub prefer : AclRule → Verdict → Verdict
prefer r (action, none) = (r.action, some r)
prefer r (action, some hit) =
    if leb_ℤ r.line hit.line then (r.action, some r) else (action, some hit)

abbrev pub In : AclRule → List AclRule → Type 0
In r [] = ⊥
In r (q ∷ qs) = (r ≡ q) ⊎ In r qs

module _ (src dst : Text) (port : ℕ) (proto : Text) where
  abbrev pub hit_by : AclRule → Bool
  hit_by r = matches r src dst port proto

  -- The deciding rule, with no sorting.
  abbrev pub best : List AclRule → Verdict
  best [] = (deny, none)
  best (r ∷ rs) = if hit_by r then prefer r (best rs) else best rs

  abbrev IsSorted : List AclRule → Type 0
  IsSorted [] = Unit
  IsSorted (q ∷ qs) = All (λ r. q.line ≤ℤ r.line) qs × IsSorted qs

  insert-All :
      (z : ℤ) (r : AclRule) (qs : List AclRule)
      → z ≤ℤ r.line
      → All (λ q. z ≤ℤ q.line) qs
      → All (λ q. z ≤ℤ q.line) (insert_rule r qs)
  insert-All z r [] le h = (le, tt)
  insert-All z r (q ∷ qs) le h = elim (Bool-cases (leb_ℤ r.line q.line)) [
    | inl before ↦ rw before (le, h)
    | inr after ↦ rw after (h.0, insert-All z r qs le h.1)
  ]

  All-trans :
      (y z : ℤ) (qs : List AclRule) → y ≤ℤ z → All (λ q. z ≤ℤ q.line) qs → All (λ q. y ≤ℤ q.line) qs
  All-trans y z [] le h = tt
  All-trans y z (q ∷ qs) le h = (omega arith, All-trans y z qs le h.1)

  insert-IsSorted : (r : AclRule) (qs : List AclRule) → IsSorted qs → IsSorted (insert_rule r qs)
  insert-IsSorted r [] h = (tt, tt)
  insert-IsSorted r (q ∷ qs) h = elim (Bool-cases (leb_ℤ r.line q.line)) [
    | inl before ↦ rw before ((ground arith, All-trans r.line q.line qs (ground arith) h.0), h)
    | inr after ↦ rw after (insert-All q.line r qs (ground arith) h.0, insert-IsSorted r qs h.1)
  ]

  sort-IsSorted : (rs : List AclRule) → IsSorted (sort_rules rs)
  sort-IsSorted [] = tt
  sort-IsSorted (r ∷ rs) = insert-IsSorted r (sort_rules rs) (sort-IsSorted rs)

  -- In a list where every line is at least `z`, so is the line of the rule that decides.
  abbrev LineAbove : ℤ → Verdict → Type 0
  LineAbove z (action, none) = Unit
  LineAbove z (action, some hit) = z ≤ℤ hit.line

  first-LineAbove :
      (z : ℤ) (qs : List AclRule)
      → All (λ q. z ≤ℤ q.line) qs
      → LineAbove z (first_match qs src dst port proto)
  unfolding first_match
  first-LineAbove z [] h = tt
  first-LineAbove z (q ∷ qs) h = elim (Bool-cases (hit_by q)) [
    | inl hit ↦ rw (hit, LineAbove) h.0
    | inr miss ↦ rw (miss, LineAbove) (first-LineAbove z qs h.1)
  ]

  prefer_above : (r : AclRule) (v : Verdict) → LineAbove r.line v → prefer r v ≡ (r.action, some r)
  prefer_above r (action, none) h = refl
  prefer_above r (action, some hit) h = ground arith

  first-insert :
      (r : AclRule) (qs : List AclRule)
      → IsSorted qs
      → first_match (insert_rule r qs) src dst port proto ≡ (
          if hit_by r
          then prefer r (first_match qs src dst port proto)
          else first_match qs src dst port proto)
  unfolding first_match
  first-insert r [] h = ground arith
  first-insert r (q ∷ qs) h = elim (Bool-cases (leb_ℤ r.line q.line)) [
    | inl before ↦ rw before (
        in_front (
          first-LineAbove r.line (q ∷ qs)
            (ground arith, All-trans r.line q.line qs (ground arith) h.0)))
    | inr after ↦ rw after (ground (arith, first-insert r qs h.1))
  ]
    where
      in_front :
          LineAbove r.line (first_match (q ∷ qs) src dst port proto)
          → first_match (r ∷ q ∷ qs) src dst port proto ≡ (
              if hit_by r
              then prefer r (first_match (q ∷ qs) src dst port proto)
              else first_match (q ∷ qs) src dst port proto)
      in_front above = elim (Bool-cases (hit_by r)) [
        | inl hit ↦
            rw (hit, first_match)
              (sym (prefer_above r (first_match (q ∷ qs) src dst port proto) above))
        | inr miss ↦ rw (miss, first_match) refl
      ]

  -- The sort and the first match of `evaluate_flow` give the verdict of the least line.
  pub evaluate_flow-eq-best :
      (rules : List AclRule) → evaluate_flow rules src dst port proto ≡ best rules
  unfolding evaluate_flow
  evaluate_flow-eq-best [] = refl
  evaluate_flow-eq-best (r ∷ rs) =
      ground (arith, first-insert r (sort_rules rs) (sort-IsSorted rs), evaluate_flow-eq-best rs)

  -- What a verdict says of the list.
  abbrev pub Decides : List AclRule → Verdict → Type 0
  Decides rules (action, none) = (action ≡ deny) × ((r : AclRule) → In r rules → hit_by r ≡ false)
  Decides rules (action, some hit) =
      In hit rules
      × (hit_by hit ≡ true)
      × (action ≡ hit.action)
      × ((r : AclRule) → In r rules → hit_by r ≡ true → hit.line ≤ℤ r.line)

  Decides-hit :
      (r : AclRule) (rs : List AclRule) (v : Verdict)
      → hit_by r ≡ true
      → Decides rs v
      → Decides (r ∷ rs) (prefer r v)
  Decides-hit r rs (action, none) hit (is_deny, others) = (
    inl refl,
    hit,
    refl,
    λ q i m. elim i [ inl e ↦ ground arith | inr j ↦ cc (sym m, others q j) ],
  )
  Decides-hit r rs (action, some h) hit (i, m, a, least) = elim (Bool-cases (leb_ℤ r.line h.line)) [
    | inl before ↦
        rw (before, prefer)
          (
            inl refl,
            hit,
            refl,
            λ q j k. elim j [ inl e ↦ ground arith | inr l ↦ ground (arith, least q l k) ],
          )
    | inr after ↦
        rw (after, prefer)
          (inr i, m, a, λ q j k. elim j [ inl e ↦ ground arith | inr l ↦ least q l k ])
  ]

  Decides-miss :
      (r : AclRule) (rs : List AclRule) (v : Verdict)
      → hit_by r ≡ false
      → Decides rs v
      → Decides (r ∷ rs) v
  Decides-miss r rs (action, none) miss (is_deny, others) =
      (is_deny, λ q i. elim i [ inl e ↦ ap hit_by e ∙ miss | inr j ↦ others q j ])
  Decides-miss r rs (action, some h) miss (i, m, a, least) =
      (inr i, m, a, λ q j k. elim j [ inl e ↦ cc (sym k, ap hit_by e, miss) | inr l ↦ least q l k ])

  Decides-best : (rules : List AclRule) → Decides rules (best rules)
  Decides-best [] = (refl, λ r i. elim i [ ])
  Decides-best (r ∷ rs) = elim (Bool-cases (hit_by r)) [
    | inl hit ↦ rw (hit, best) (Decides-hit r rs (best rs) hit (Decides-best rs))
    | inr miss ↦ rw (miss, best) (Decides-miss r rs (best rs) miss (Decides-best rs))
  ]

  -- A flow is decided by a listed rule that matches it and has the least line of those that do, with
  -- that rule's action; with no rule in the verdict the answer is deny, and no listed rule matches.
  pub evaluate_flow-Decides :
      (rules : List AclRule) → Decides rules (evaluate_flow rules src dst port proto)
  evaluate_flow-Decides rules = rw (evaluate_flow-eq-best rules) (Decides-best rules)

  best-miss :
      (base : List AclRule) (rule : AclRule)
      → hit_by rule ≡ false
      → best (base ++ rule ∷ []) ≡ best base
  best-miss [] rule miss = rw (miss, best) refl
  best-miss (b ∷ bs) rule miss = ground (arith, best-miss bs rule miss)

  -- One rule that matches, added at the end of the list.
  abbrev pub demote : AclRule → Verdict → Verdict
  demote r (action, none) = (r.action, some r)
  demote r (action, some hit) =
      if leb_ℤ hit.line r.line then (action, some hit) else (r.action, some r)

  prefer-demote : (b r : AclRule) (v : Verdict) → prefer b (demote r v) ≡ demote r (prefer b v)
  prefer-demote b r (action, none) = ground arith
  prefer-demote b r (action, some hit) = ground arith

  best-hit :
      (base : List AclRule) (rule : AclRule)
      → hit_by rule ≡ true
      → best (base ++ rule ∷ []) ≡ demote rule (best base)
  best-hit [] rule hit = rw (hit, best) refl
  best-hit (b ∷ bs) rule hit = elim (Bool-cases (hit_by b)) [
    | inl first ↦
        rw (first, best) (ap (prefer b) (best-hit bs rule hit) ∙ prefer-demote b rule (best bs))
    | inr later ↦ rw (later, best) (best-hit bs rule hit)
  ]

  -- A rule spliced in at the end of the list (which is how a proposal is simulated) either does not
  -- match and changes nothing, or takes over exactly when its line is smaller than that of the rule
  -- which decides without it, or no rule did; on a tie the existing rule keeps deciding.
  pub evaluate_flow-append :
      (base : List AclRule) (rule : AclRule)
      → evaluate_flow (base ++ rule ∷ []) src dst port proto ≡ (
          if hit_by rule
          then demote rule (evaluate_flow base src dst port proto)
          else evaluate_flow base src dst port proto)
  evaluate_flow-append base rule =
      rw (evaluate_flow-eq-best (base ++ rule ∷ []), evaluate_flow-eq-best base)
        (elim (Bool-cases (hit_by rule)) [
          | inl hit ↦ rw hit (best-hit base rule hit)
          | inr miss ↦ rw miss (best-miss base rule miss)
        ])

  -- An entry that the reader could not model is never a match.
  unmodelled_misses :
      (r : AclRule) → one_of (permit ∷ deny ∷ []) r.action ≡ false → hit_by r ≡ false
  unfolding matches
  unmodelled_misses r e = rw (e, matches) refl

  -- A flow is permitted only by a listed rule whose action is permit and which matches it: never by
  -- default, and never by an entry that could not be modelled.
  pub permit_has_rule :
      (rules : List AclRule)
      → (evaluate_flow rules src dst port proto).0 ≡ permit
      → (r : AclRule) × In r rules × (hit_by r ≡ true) × (r.action ≡ permit)
  permit_has_rule rules e =
      permitted (evaluate_flow rules src dst port proto) e (evaluate_flow-Decides rules)
    where
      permitted :
          (v : Verdict)
          → v.0 ≡ permit
          → Decides rules v
          → (r : AclRule) × In r rules × (hit_by r ≡ true) × (r.action ≡ permit)
      permitted (action, none) e (is_deny, others) =
          absurd (false≢true (ap (text_eq deny) (sym e ∙ is_deny)))
      permitted (action, some hit) e (i, m, a, least) = (hit, i, m, sym a ∙ e)
