-- ===== src/Verify/Tests.antt =====
-- A proposal simulated on a toy firewall: apps/api/app/verify.py.
use zero_node.Prelude.{◌≡◌, refl, true, some, [], ◌∷◌, All, Option, List, ap, ◌∙◌, arith}
use zero_node.Prelude.Int.{pos}
use zero_node.Prelude.Text.{Text, text_eq_refl}
use zero_node.Firewall.Policy.{AclRule, matches, contains, breadth, parse_acl_command, port_alias}
use zero_node.Firewall.Normalize.{parse_proposed_acl}
use zero_node.Firewall.Nat.{NatAssessment}
use zero_node.Verify.Report.{
  inserting_at, permitted_by_proposal, nothing_to_fix, Report, scope_findings, nat_findings,
}
use zero_node.Verify.Change.{verify_change, simulate, verify_action, unmodelled_above}
use zero_node.Verify.Change.Sound.{Simulated, verify_change-Simulated}
use zero_node.Verify.Reversal.{
  RollbackReport, Source, verify_rollback, derive_rollback, removal_target, same_written,
  proposed_line, compare, reversed_by, verdict,
}
use zero_node.Verify.Reversal.Restores.{Reversible, verify_rollback-Reversible}
use zero_node.Execute.Base.{Action, Flow}
use zero_node.Execute.Tests.{edge, flow, action, denying, parsed_rule}

-- The proposed rule at its line.
abbrev placed : AclRule
placed = record parsed_rule { line = pos 5 }

proposal-parses : parse_proposed_acl action.command [] ≡ some parsed_rule
unfolding parse_proposed_acl parse_acl_command port_alias
proposal-parses = refl

-- The assessment is made, and names no rule.
abbrev assessing : Text → List Text → Option NatAssessment
assessing device addresses = some (record { translated = []; unresolved = [] })

abbrev report : Report
report = record {
  valid = true;
  lines = inserting_at edge (pos 5) ∷ permitted_by_proposal flow ∷ [];
  remediation = nothing_to_fix;
}

one_action :
    (read : Text → Option (List AclRule)) (assess : Text → List Text → Option NatAssessment)
    (a : Action) (f : Flow) (rule : AclRule) (base : List AclRule)
    → parse_proposed_acl a.command a.vendor ≡ some rule
    → read a.device ≡ some base
    → verify_change read assess (a ∷ []) (f ∷ [])
      ≡ some (
          simulate read assess a
            (f ∷ [])
            rule
            base
            (record { valid = true; lines = []; remediation = nothing_to_fix }))
unfolding verify_change verify_action
one_action read assess a f rule base parsed got = ground arith

simulate_lem :
    simulate
      (λ device. some denying)
      assessing
      action
      (flow ∷ [])
      parsed_rule
      denying
      (record { valid = true; lines = []; remediation = nothing_to_fix })
    ≡ report
unfolding simulate unmodelled_above matches contains breadth scope_findings nat_findings
simulate_lem = refl

change_lem :
    verify_change (λ device. some denying) assessing (action ∷ []) (flow ∷ []) ≡ some report
change_lem =
    one_action (λ device. some denying) assessing action flow parsed_rule denying proposal-parses
      refl
    ∙ ap some simulate_lem

verify_change-Simulated_example :
    All (Simulated (λ device. some denying) assessing (flow ∷ [])) (action ∷ [])
verify_change-Simulated_example =
    verify_change-Simulated (λ device. some denying) assessing (action ∷ []) (flow ∷ []) report
      change_lem refl

derived_lem : removal_target (derive_rollback action.command) [] ≡ some parsed_rule
unfolding removal_target derive_rollback parse_proposed_acl parse_acl_command port_alias
derived_lem = refl

abbrev restored : Flow → Text → RollbackReport
restored f reversal =
    compare (f ∷ []) reversal Source.derived (derive_rollback action.command) denying denying

one_reversal :
    (read : Text → Option (List AclRule)) (a : Action) (f : Flow) (rule removal : AclRule)
    (base : List AclRule)
    → parse_proposed_acl a.command a.vendor ≡ some rule
    → read a.device ≡ some base
    → removal_target (derive_rollback a.command) a.vendor ≡ some removal
    → same_written removal (record rule { line = proposed_line a.position base }) ≡ true
    → verify_rollback read a (f ∷ []) []
      ≡ some (
          compare
            (f ∷ [])
            (derive_rollback a.command)
            Source.derived
            (derive_rollback a.command)
            base
            base)
unfolding verify_rollback
one_reversal read a f rule removal base parsed got target same =
    rw (parsed, verify_rollback) (rw got (rw (target, reversed_by) (rw (same, reversed_by) refl)))

written_lem : same_written parsed_rule placed ≡ true
unfolding same_written
written_lem = refl

verify_rollback-Reversible_example :
    Reversible (λ device. some denying) action (flow ∷ []) (derive_rollback action.command)
verify_rollback-Reversible_example =
    verify_rollback-Reversible (λ device. some denying) action (flow ∷ []) []
      (restored flow (derive_rollback action.command))
      (one_reversal (λ device. some denying) action flow parsed_rule parsed_rule denying
        proposal-parses refl derived_lem written_lem)
      (ground (arith, text_eq_refl (verdict denying flow)))
