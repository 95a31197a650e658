-- ===== src/Execute/Live/Sound.antt =====
-- Verification by read-back, and when it passes: apps/api/app/execute/live.py.
use zero_node.Prelude.{
  Bool, true, false, ◌&&◌, ◌≡◌, refl, Option, none, some, List, [], ◌∷◌, All, first, exists,
  Bool-cases, Option-cases, inl, inr, arith,
}
use zero_node.Prelude.Text.{Text, text_eq→eq}
use zero_node.Firewall.Policy.{AclRule, permit, parse_acl_command}
use zero_node.Execute.Base.{Action, Flow}
use zero_node.Execute.Live.{
  same_rule, LiveReport, verdict_of, permits, applied_rule, both, applied_flows, applied_action,
  reverted_rule, reverted_flows, reverted_action, each, verify_applied, verify_reverted,
}

module _ (read : Text → Option (List AclRule)) where
  -- What a change that is in force looks like: each device can be read, holds the approved rule if
  -- the command parses, and permits every flow.
  abbrev Holds : AclRule → List AclRule → Type 0
  Holds expected policy = exists (λ rule. same_rule rule expected) policy ≡ true

  abbrev HoldsParsed : Option AclRule → List AclRule → Type 0
  HoldsParsed none policy = Unit
  HoldsParsed (some expected) policy = Holds expected policy

  pub record InForce (flows : List Flow) (a : Action) : Type 0 where
    pub policy : List AclRule
    pub was_read : read a.device ≡ some policy
    pub present : HoldsParsed (parse_acl_command a.command) policy
    pub permitted : All (λ f. verdict_of policy f ≡ permit) flows

  abbrev AbsentParsed : Option AclRule → List AclRule → Type 0
  AbsentParsed none policy = Unit
  AbsentParsed (some expected) policy = exists (λ rule. same_rule rule expected) policy ≡ false

  pub record Undone (flows : List Flow) (a : Action) : Type 0 where
    pub policy : List AclRule
    pub was_read : read a.device ≡ some policy
    pub absent : AbsentParsed (parse_acl_command a.command) policy
    pub blocked : All (λ f. permits policy f ≡ false) flows

  exists-of_first :
      (p : AclRule → Bool) (rs : List AclRule) (r : AclRule)
      → first p rs ≡ some r
      → exists p rs ≡ true
  exists-of_first p [] r e = cc
  exists-of_first p (q ∷ qs) r e = elim (Bool-cases (p q)) [
    | inl hit ↦ ground arith
    | inr miss ↦ ground (arith, exists-of_first p qs r)
  ]

  applied_rule-holds :
      (a : Action) (policy : List AclRule) (expected : Option AclRule)
      → (applied_rule a policy expected).valid ≡ true
      → HoldsParsed expected policy
  applied_rule-holds a policy none e = tt
  applied_rule-holds a policy (some r) e =
      elim (Option-cases (first (λ rule. same_rule rule r) policy)) [
        | inl missing ↦ absurd (ground arith)
        | inr (found, is) ↦ exists-of_first (λ rule. same_rule rule r) policy found is
      ]

  applied_flows-permit :
      (policy : List AclRule) (flows : List Flow)
      → (applied_flows policy flows).valid ≡ true
      → All (λ f. verdict_of policy f ≡ permit) flows
  applied_flows-permit policy [] e = tt
  applied_flows-permit policy (f ∷ fs) e = elim (Bool-cases (permits policy f)) [
    | inl good ↦ (
      text_eq→eq (verdict_of policy f) permit good,
      applied_flows-permit policy fs (ground arith),
    )
    | inr bad ↦ absurd (ground arith)
  ]

  and-parts : (a b : Bool) → a && b ≡ true → (a ≡ true) × (b ≡ true)
  and-parts true b e = (refl, e)
  and-parts false b e = cc

  -- A valid report of several actions is one of each.
  each_parts :
      (report : Action → List AclRule → LiveReport) (a : Action) (as_ : List Action)
      (r : LiveReport)
      → each read report (a ∷ as_) ≡ some r
      → r.valid ≡ true
      → (policy : List AclRule) × (read a.device ≡ some policy)
        × ((report a policy).valid ≡ true)
        × ((q : LiveReport) × (each read report as_ ≡ some q) × (q.valid ≡ true))
  each_parts report a as_ r e ok = elim (Option-cases (read a.device)) [
    | inl failed ↦ absurd (ground arith)
    | inr (policy, got) ↦ elim (Option-cases (each read report as_)) [
      | inl failed ↦ absurd (ground arith)
      | inr (q, rest) ↦
          let whole : some (both (report a policy) q) ≡ some r = ground arith in
          let parts = and-parts (report a policy).valid q.valid (ground arith) in
          (policy, got, parts.0, (q, rest, parts.1))
    ]
  ]

  -- A change is reported as verified only if it is in force for each action: the device's policy,
  -- read after the change, holds the approved rule (where the command parses) and permits
  -- every flow.
  pub verify_applied-InForce :
      (actions : List Action) (flows : List Flow) (r : LiveReport)
      → verify_applied read actions flows ≡ some r
      → r.valid ≡ true
      → All (InForce flows) actions
  unfolding verify_applied applied_action
  verify_applied-InForce [] flows r e ok = tt
  verify_applied-InForce (a ∷ as_) flows r e ok =
      let (policy, got, this, (q, rest, others)) = each_parts (applied_action flows) a as_ r e ok in
      let parts =
        and-parts (applied_rule a policy (parse_acl_command a.command)).valid
          (applied_flows policy flows).valid this in
      (
        record {
          policy = policy;
          was_read = got;
          present = applied_rule-holds a policy (parse_acl_command a.command) parts.0;
          permitted = applied_flows-permit policy flows parts.1;
        },
        verify_applied-InForce as_ flows q rest others,
      )

  reverted_rule-absent :
      (a : Action) (policy : List AclRule) (expected : Option AclRule)
      → (reverted_rule a policy expected).valid ≡ true
      → AbsentParsed expected policy
  reverted_rule-absent a policy none e = tt
  reverted_rule-absent a policy (some r) e = ground arith

  reverted_flows-block :
      (policy : List AclRule) (flows : List Flow)
      → (reverted_flows policy flows).valid ≡ true
      → All (λ f. permits policy f ≡ false) flows
  reverted_flows-block policy [] e = tt
  reverted_flows-block policy (f ∷ fs) e = elim (Bool-cases (permits policy f)) [
    | inl still ↦ absurd (ground arith)
    | inr gone ↦ (gone, reverted_flows-block policy fs (ground arith))
  ]

  -- A reversal is reported as verified only if it is in force for each action: the policy read
  -- after it no longer holds the rule (where the command parses) and permits none of the flows.
  pub verify_reverted-Undone :
      (actions : List Action) (flows : List Flow) (r : LiveReport)
      → verify_reverted read actions flows ≡ some r
      → r.valid ≡ true
      → All (Undone flows) actions
  unfolding verify_reverted reverted_action
  verify_reverted-Undone [] flows r e ok = tt
  verify_reverted-Undone (a ∷ as_) flows r e ok =
      let (policy, got, this, (q, rest, others)) =
        each_parts (reverted_action flows) a as_ r e ok in
      let parts =
        and-parts (reverted_rule a policy (parse_acl_command a.command)).valid
          (reverted_flows policy flows).valid this in
      (
        record {
          policy = policy;
          was_read = got;
          absent = reverted_rule-absent a policy (parse_acl_command a.command) parts.0;
          blocked = reverted_flows-block policy flows parts.1;
        },
        verify_reverted-Undone as_ flows q rest others,
      )
