-- ===== src/Verify/Reversal/Restores.antt =====
-- Rollbacks that are accepted: apps/api/app/verify.py.
use zero_node.Prelude.{
  ℕ, ◌≡◌, refl, sym, ap, ◌∙◌, transport, true, Option, none, some, List, [], ◌∷◌, ◌++◌, All, ◌⊎◌,
  Bool-cases, Option-cases, inl, inr, arith,
}
use zero_node.Prelude.Text.{Text, text_eq→eq}
use zero_node.Firewall.Policy.{AclRule}
use zero_node.Firewall.Normalize.{parse_proposed_acl}
use zero_node.Execute.Base.{Action, Flow}
use zero_node.Execute.Live.{port_eq}
use zero_node.Verify.Reversal.{
  RollbackReport, removal_target, same_written, proposed_line, compensating_line, verdict,
  unchanged, reversal_or, source_of, derive_rollback, all_unchanged, compensated, reversed_by,
  Source, verify_rollback,
}

all_unchanged-eq :
    (base restored : List AclRule) (flows : List Flow)
    → all_unchanged base restored flows ≡ true
    → All (λ f. verdict base f ≡ verdict restored f) flows
all_unchanged-eq base restored [] ok = tt
all_unchanged-eq base restored (f ∷ fs) ok = elim (Bool-cases (unchanged base restored f)) [
  | inl same ↦ (
    text_eq→eq (verdict base f) (verdict restored f) same,
    all_unchanged-eq base restored fs (ground arith),
  )
  | inr other ↦ absurd (ground arith)
]

-- The same action, protocol, source, destination and port.
abbrev pub SameMatch : AclRule → AclRule → Type 0
SameMatch left right =
    (left.action ≡ right.action)
    × (left.proto ≡ right.proto)
    × (left.src ≡ right.src)
    × (left.dst ≡ right.dst)
    × (left.port ≡ right.port)

port_eq→eq : (p q : Option ℕ) → port_eq p q ≡ true → p ≡ q
port_eq→eq none none h = refl
port_eq→eq none (some n) h = cc
port_eq→eq (some m) none h = cc
port_eq→eq (some m) (some n) h = ground arith

same_written-SameMatch :
    (left right : AclRule) → same_written left right ≡ true → SameMatch left right
unfolding same_written
same_written-SameMatch left right h = (
  text_eq→eq left.action right.action (ground arith),
  text_eq→eq left.proto right.proto (ground arith),
  text_eq→eq left.src right.src (ground arith),
  text_eq→eq left.dst right.dst (ground arith),
  port_eq→eq left.port right.port (ground arith),
)

-- The reversal removes a rule with the match and the action of the proposed one.
abbrev pub Removes : Text → Action → AclRule → Type 0
Removes reversal a proposed =
    (removal : AclRule) × (removal_target reversal a.vendor ≡ some removal)
    × SameMatch removal proposed

-- The reversal is a rule which, spliced in above the proposed one, gives each flow the verdict that it
-- had before the change.
abbrev pub Compensates : Text → Action → List Flow → List AclRule → AclRule → Type 0
Compensates reversal a flows base proposed =
    (rule : AclRule) × (removal_target reversal a.vendor ≡ none)
    × (parse_proposed_acl reversal a.vendor ≡ some rule)
    × All
        (λ f.
          verdict base f
          ≡ verdict
              ((base ++ proposed ∷ [])
                ++ record rule { line = compensating_line proposed.line } ∷ [])
              f)
        flows

module _ (a : Action) (flows : List Flow) (reversal : Text) (source : Source) (base : List AclRule)
    (proposed : AclRule) where
  compensated-valid :
      removal_target reversal a.vendor ≡ none
      → (compensated a flows reversal source base proposed
          (parse_proposed_acl reversal a.vendor)).valid
        ≡ true
      → Compensates reversal a flows base proposed
  compensated-valid missing ok = elim (Option-cases (parse_proposed_acl reversal a.vendor)) [
    | inl bad ↦ absurd (ground arith)
    | inr (rule, parsed) ↦ (rule, missing, parsed, all_unchanged-eq base _ flows (ground arith))
  ]

  reversed_by-valid :
      (reversed_by a flows reversal source base proposed (removal_target reversal a.vendor)).valid
        ≡ true
      → Removes reversal a proposed ⊎ Compensates reversal a flows base proposed
  reversed_by-valid ok = elim (Option-cases (removal_target reversal a.vendor)) [
    | inl missing ↦ inr (compensated-valid missing (ground arith))
    | inr (removal, target) ↦ elim (Bool-cases (same_written removal proposed)) [
      | inl same ↦ inl (removal, target, same_written-SameMatch removal proposed same)
      | inr other ↦ absurd (ground arith)
    ]
  ]

  compensated-command :
      (found : Option AclRule)
      → (compensated a flows reversal source base proposed found).command ≡ reversal
  compensated-command none = refl
  compensated-command (some rule) = refl

  reversed_by-command :
      (target : Option AclRule)
      → (reversed_by a flows reversal source base proposed target).command ≡ reversal
  reversed_by-command none = compensated-command (parse_proposed_acl reversal a.vendor)
  reversed_by-command (some removal) = ground arith

-- What acceptance says of the device's policy and the command.
pub record Reversible (read : Text → Option (List AclRule)) (a : Action) (flows : List Flow)
    (reversal : Text) : Type 0 where
  pub rule : AclRule
  pub base : List AclRule
  pub parsed : parse_proposed_acl a.command a.vendor ≡ some rule
  pub was_read : read a.device ≡ some base
  pub undone :
      Removes reversal a (record rule { line = proposed_line a.position base })
      ⊎ Compensates reversal a flows base (record rule { line = proposed_line a.position base })

-- A rollback that is accepted is one for a command that parses, on a device that can be read, and
-- either removes a rule with the same action, protocol, source, destination and port as the proposed
-- one (the name of its list and its line are not compared), or is a compensating rule with which
-- first-match evaluation gives every flow the verdict that it had before the change.
pub verify_rollback-Reversible :
    (read : Text → Option (List AclRule)) (a : Action) (flows : List Flow) (rollback : Text)
    (r : RollbackReport)
    → verify_rollback read a flows rollback ≡ some r
    → r.valid ≡ true
    → Reversible read a flows r.command
unfolding verify_rollback
verify_rollback-Reversible read a flows rollback r e ok =
    elim (Option-cases (parse_proposed_acl a.command a.vendor)) [
      | inl bad ↦ absurd (ground arith)
      | inr (rule, parsed) ↦ elim (Option-cases (read a.device)) [
        | inl failed ↦ absurd (ground arith)
        | inr (base, got) ↦
            let reversal = reversal_or rollback (derive_rollback a.command) in
            let proposed : AclRule = record rule { line = proposed_line a.position base } in
            let target = removal_target reversal a.vendor in
            let is : reversed_by a flows reversal (source_of rollback) base proposed target ≡ r =
              ground arith in
            let named =
              reversed_by-command a flows reversal (source_of rollback) base proposed target in
            let undone =
              reversed_by-valid a flows reversal (source_of rollback) base proposed
                (ap (λ q. q.valid) is ∙ ok) in
            transport (ap (Reversible read a flows) (sym named ∙ ap (λ q. q.command) is)) (record {
              rule = rule;
              base = base;
              parsed = parsed;
              was_read = got;
              undone = undone;
            })
      ]
    ]
