-- ===== src/Execute/Live.antt =====
-- Verification against what the device says: apps/api/app/execute/live.py. `read` is
-- `firewall.acl_policy` after `refresh`; `none` is an exception that it raises.
pub mod Tests
pub mod Sound
use zero_node.Prelude.{
  ℕ, Bool, true, false, ◌&&◌, ◌≡◌, refl, Option, none, some, List, [], ◌∷◌, ◌++◌, All, first,
  exists, Bool-cases, Option-cases, inl, inr, arith, ◌==◌, if◌then◌else◌,
}
use zero_node.Prelude.Int.{ℤ, eq_ℤ}
use zero_node.Prelude.Text.{Text, text_eq, text_eq→eq}
use zero_node.Firewall.Ipv4.{Network, network_eq}
use zero_node.Firewall.Policy.{
  AclRule, as_network, is_any, permit, parse_acl_command, evaluate_flow,
}
use zero_node.Execute.Base.{
  Action, Flow, LiveLine, rule_missing, rule_present, rule_elsewhere, flow_permitted, flow_still,
  rule_still_present, flow_still_permitted, flow_again,
}

abbrev networks_eq : Option Network → Option Network → Text → Text → Bool
networks_eq (some m) (some n) first second = network_eq m n
networks_eq _ _ first second = text_eq first second

abbrev same_endpoint : Text → Text → Bool
same_endpoint first second =
    if is_any first && is_any second
    then true
    else networks_eq (as_network first) (as_network second) first second

abbrev pub port_eq : Option ℕ → Option ℕ → Bool
port_eq none none = true
port_eq (some m) (some n) = m == n
port_eq _ _ = false

unfoldable pub same_rule : AclRule → AclRule → Bool
same_rule left right =
    text_eq left.action right.action
    && text_eq left.proto right.proto
    && port_eq left.port right.port
    && same_endpoint left.src right.src
    && same_endpoint left.dst right.dst

pub record LiveReport : Type 0 where
  pub valid : Bool
  pub lines : List LiveLine

unfoldable pub verdict_of : List AclRule → Flow → Text
verdict_of policy f = (evaluate_flow policy f.src f.dst f.port f.proto).0

abbrev pub permits : List AclRule → Flow → Bool
permits policy f = text_eq (verdict_of policy f) permit

abbrev moved : Text → Option ℤ → ℤ → List LiveLine
moved device none line = []
moved device (some position) line =
    if eq_ℤ line position then [] else rule_elsewhere device line position ∷ []

abbrev landed_lines : Action → Option AclRule → LiveReport
landed_lines a none = record { valid = false; lines = rule_missing a.device ∷ [] }
landed_lines a (some rule) = record {
  valid = true;
  lines = rule_present a.device rule.line ∷ moved a.device a.position rule.line;
}

abbrev pub applied_rule : Action → List AclRule → Option AclRule → LiveReport
applied_rule a policy none = record { valid = true; lines = [] }
applied_rule a policy (some expected) =
    landed_lines a (first (λ rule. same_rule rule expected) policy)

abbrev pub both : LiveReport → LiveReport → LiveReport
both r q = record { valid = r.valid && q.valid; lines = r.lines ++ q.lines }

abbrev pub applied_flows : List AclRule → List Flow → LiveReport
applied_flows policy [] = record { valid = true; lines = [] }
applied_flows policy (f ∷ fs) =
    both
      (if permits policy f
        then record { valid = true; lines = flow_permitted f ∷ [] }
        else record { valid = false; lines = flow_still f (verdict_of policy f) ∷ [] })
      (applied_flows policy fs)

pub applied_action : List Flow → Action → List AclRule → LiveReport
applied_action flows a policy =
    both (applied_rule a policy (parse_acl_command a.command)) (applied_flows policy flows)

abbrev pub reverted_rule : Action → List AclRule → Option AclRule → LiveReport
reverted_rule a policy none = record { valid = true; lines = [] }
reverted_rule a policy (some expected) =
    if exists (λ rule. same_rule rule expected) policy
    then record { valid = false; lines = rule_still_present a.device ∷ [] }
    else record { valid = true; lines = [] }

abbrev pub reverted_flows : List AclRule → List Flow → LiveReport
reverted_flows policy [] = record { valid = true; lines = [] }
reverted_flows policy (f ∷ fs) =
    both
      (if permits policy f
        then record { valid = false; lines = flow_still_permitted f ∷ [] }
        else record { valid = true; lines = flow_again f (verdict_of policy f) ∷ [] })
      (reverted_flows policy fs)

pub reverted_action : List Flow → Action → List AclRule → LiveReport
reverted_action flows a policy =
    both (reverted_rule a policy (parse_acl_command a.command)) (reverted_flows policy flows)

module _ (read : Text → Option (List AclRule)) where
  abbrev pub join : Option LiveReport → Option LiveReport → Option LiveReport
  join none q = none
  join (some r) none = none
  join (some r) (some q) = some (both r q)

  abbrev pub each : (Action → List AclRule → LiveReport) → List Action → Option LiveReport
  each report [] = some (record { valid = true; lines = [] })
  each report (a ∷ as_) = elim (read a.device) [
    | none ↦ none
    | some policy ↦ join (some (report a policy)) (each report as_)
  ]

  pub verify_applied : List Action → List Flow → Option LiveReport
  verify_applied actions flows = each (applied_action flows) actions

  pub verify_reverted : List Action → List Flow → Option LiveReport
  verify_reverted actions flows = each (reverted_action flows) actions
