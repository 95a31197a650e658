-- ===== src/Verify/Traced.antt =====
-- First-match evaluation on rule objects: `hit is rule` in apps/api/app/verify.py asks whether the
-- rule that decides is the proposed object, not whether it looks the same. A flag beside each rule
-- stands for its identity.
use zero_node.Prelude.{
  ℕ, ◌≡◌, refl, ap, Bool, true, false, Option, none, some, List, [], ◌∷◌, map, map_option,
  Bool-cases, inl, inr, if◌then◌else◌,
}
use zero_node.Prelude.Int.{leb_ℤ}
use zero_node.Prelude.Text.{Text}
use zero_node.Firewall.Policy.{
  AclRule, deny, matches, insert_rule, sort_rules, first_match, evaluate_flow,
}

abbrev pub Marked : Type 0
Marked = AclRule × Bool

abbrev insert_marked : Marked → List Marked → List Marked
insert_marked r [] = r ∷ []
insert_marked r (q ∷ qs) = if leb_ℤ r.0.line q.0.line then r ∷ q ∷ qs else q ∷ insert_marked r qs

abbrev sort_marked : List Marked → List Marked
sort_marked [] = []
sort_marked (r ∷ rs) = insert_marked r (sort_marked rs)

abbrev first_marked : List Marked → Text → Text → ℕ → Text → Text × Option Marked
first_marked [] src dst port proto = (deny, none)
first_marked (r ∷ rs) src dst port proto = elim (matches r.0 src dst port proto) [
  | true ↦ (r.0.action, some r)
  | false ↦ first_marked rs src dst port proto
]

abbrev pub evaluate_marked : List Marked → Text → Text → ℕ → Text → Text × Option Marked
evaluate_marked rules = first_marked (sort_marked rules)

abbrev pub unmark : Text × Option Marked → Text × Option AclRule
unmark (action, hit) = (action, map_option (λ m. m.0) hit)

insert-unmark :
    (r : Marked) (qs : List Marked)
    → map (λ m. m.0) (insert_marked r qs) ≡ insert_rule r.0 (map (λ m. m.0) qs)
insert-unmark r [] = refl
insert-unmark r (q ∷ qs) = elim (Bool-cases (leb_ℤ r.0.line q.0.line)) [
  | inl before ↦ rw (before, insert_marked, insert_rule) refl
  | inr after ↦ rw (after, insert_marked, insert_rule) (ap (λ t. q.0 ∷ t) (insert-unmark r qs))
]

sort-unmark : (rs : List Marked) → map (λ m. m.0) (sort_marked rs) ≡ sort_rules (map (λ m. m.0) rs)
sort-unmark [] = refl
sort-unmark (r ∷ rs) = rw (insert-unmark r (sort_marked rs), sort-unmark rs) refl

module _ (src dst : Text) (port : ℕ) (proto : Text) where
  first-unmark :
      (rs : List Marked)
      → unmark (first_marked rs src dst port proto)
        ≡ first_match (map (λ m. m.0) rs) src dst port proto
  unfolding first_match
  first-unmark [] = refl
  first-unmark (r ∷ rs) = elim (Bool-cases (matches r.0 src dst port proto)) [
    | inl hit ↦ rw (hit, first_marked, first_match) refl
    | inr miss ↦ rw (miss, first_marked, first_match) (first-unmark rs)
  ]

  -- Without the flags this is `evaluate_flow`.
  pub evaluate-unmark :
      (rs : List Marked)
      → unmark (evaluate_marked rs src dst port proto)
        ≡ evaluate_flow (map (λ m. m.0) rs) src dst port proto
  unfolding evaluate_flow
  evaluate-unmark rs = rw (first-unmark (sort_marked rs), sort-unmark rs) refl
