-- ===== src/Verify/Change.antt =====
-- `verify_change` of apps/api/app/verify.py.
pub mod Sound
use zero_node.Prelude.{
  ℕ, Bool, true, false, not, ◌&&◌, Option, none, some, List, [], ◌∷◌, ◌++◌, map, is_empty,
  if◌then◌else◌,
}
use zero_node.Prelude.Int.{ℤ, pos, leb_ℤ, ltb_ℤ, add_ℕ, minus_ℕ, max_ℤ}
use zero_node.Prelude.Text.{Text, codes, text_eq}
use zero_node.Firewall.Policy.{AclRule, permit}
use zero_node.Firewall.Normalize.{parse_proposed_acl}
use zero_node.Execute.Base.{Action, Flow}
use zero_node.Verify.Traced.{Marked, evaluate_marked}
use zero_node.Firewall.Nat.{NatAssessment}
use zero_node.Verify.Report.{
  Finding, no_action, no_flow, unreadable, inserting_at, appending_at, unmodelled,
  permitted_by_proposal, permitted_by_other, still_denied, Fix, nothing_to_fix, reissue,
  review_order, move_to, Report, scope_findings, nat_findings,
}

abbrev pub unparsed : Text
unparsed = codes "unparsed"

-- `_unmodelled_above`
unfoldable pub unmodelled_above : List AclRule → ℤ → List AclRule
unmodelled_above [] line = []
unmodelled_above (r ∷ rs) line =
    let rest = unmodelled_above rs line in
    if text_eq r.action unparsed && leb_ℤ r.line line then r ∷ rest else rest

-- `max((item.line for item in rules), default=0)`
abbrev pub last_line : List AclRule → ℤ
last_line [] = pos 0
last_line (r ∷ []) = r.line
last_line (r ∷ q ∷ rs) = max_ℤ r.line (last_line (q ∷ rs))

-- The line at which a parsed rule is simulated, and the finding that says so.
abbrev pub place : Text → Option ℤ → AclRule → List AclRule → AclRule × List Finding
place device position rule base =
    if ltb_ℤ rule.line (pos 0)
    then elim position [
      | some p ↦ (record rule { line = p }, inserting_at device p ∷ [])
      | none ↦
          let line = add_ℕ (last_line base) 10 in
          (record rule { line = line }, appending_at device line ∷ [])
    ]
    else (rule, [])

abbrev pub marked : List AclRule → AclRule → List Marked
marked base rule = map (λ r. (r, false)) base ++ (rule, true) ∷ []

-- What the loop over the flows carries: `ok`, `lines`, `remediation` and `matched_proposal`.
pub record Run : Type 0 where
  pub report : Report
  pub matched : Bool

abbrev pub say : Report → List Finding → Report
say r ls = record r { lines = r.lines ++ ls }

abbrev pub fail_with : Report → List Finding → Fix → Report
fail_with r ls fix = record { valid = false; lines = r.lines ++ ls; remediation = fix }

abbrev pub on_verdict : AclRule → Flow → Text × Option Marked → Run → Run
on_verdict rule f (action, none) run =
    if text_eq action permit
    then record run { report = say run.report (permitted_by_other f none ∷ []) }
    else record run {
      report = fail_with run.report (still_denied f none rule.line ∷ []) run.report.remediation;
    }
on_verdict rule f (action, some (hit, is_rule)) run =
    if text_eq action permit
    then (if is_rule
        then record { report = say run.report (permitted_by_proposal f ∷ []); matched = true }
        else record run { report = say run.report (permitted_by_other f (some hit.rule_id) ∷ []) })
    else record run {
      report =
          fail_with run.report (still_denied f (some (hit.rule_id, hit.line)) rule.line ∷ [])
            (move_to hit.rule_id hit.line (max_ℤ (minus_ℕ hit.line 1) (pos 1)));
    }

abbrev pub check_flows : List Marked → AclRule → List Flow → Run → Run
check_flows rules rule [] run = run
check_flows rules rule (f ∷ fs) run =
    check_flows rules rule fs
      (on_verdict rule f (evaluate_marked rules f.src f.dst f.port f.proto) run)

abbrev pub check_scope : AclRule → List Flow → Run → Report
check_scope rule flows run =
    if run.matched
    then (let (ls, fix) = scope_findings rule flows in
        if is_empty ls then run.report else fail_with run.report ls fix)
    else run.report

abbrev pub check_order : Text → List AclRule → AclRule → Report → Report
check_order device base rule r =
    let blind = unmodelled_above base rule.line in
    if is_empty blind
    then r
    else fail_with r (unmodelled device rule.line (map (λ q. q.raw) blind) ∷ []) review_order

abbrev pub check_nat : List Finding × Bool × Fix → Report → Report
check_nat (ls, false, fix) r = say r ls
check_nat (ls, true, fix) r = fail_with r ls fix

module _ (read : Text → Option (List AclRule))
    (assess : Text → List Text → Option NatAssessment) where
  -- The rest of the loop's body, once the command has parsed and the policy has been read.
  unfoldable pub simulate : Action → List Flow → AclRule → List AclRule → Report → Report
  unfolding unmodelled_above scope_findings nat_findings
  simulate a flows rule base r =
      let (placed, ls) = place a.device a.position rule base in
      check_scope placed flows (
        check_flows (marked base placed) placed flows (record {
          report =
              check_order a.device base placed
                (say (check_nat (nat_findings assess a.device flows) r) ls);
          matched = false;
        }))

  -- The body of the loop over the actions; `none` is an exception of the firewall.
  unfoldable pub verify_action : Action → List Flow → Report → Option Report
  unfolding simulate parse_proposed_acl
  verify_action a flows r = elim (parse_proposed_acl a.command a.vendor) [
    | none ↦ some (fail_with r (unreadable a.device a.command ∷ []) reissue)
    | some rule ↦ elim (read a.device) [
      | none ↦ none
      | some base ↦ some (simulate a flows rule base r)
    ]
  ]

  abbrev pub verify_actions : List Action → List Flow → Report → Option Report
  verify_actions [] flows r = some r
  verify_actions (a ∷ as_) flows r = elim (verify_action a flows r) [
    | none ↦ none
    | some r' ↦ verify_actions as_ flows r'
  ]

  unfoldable pub verify_change : List Action → List Flow → Option Report
  unfolding verify_action
  verify_change [] flows =
      some (record { valid = false; lines = no_action ∷ []; remediation = nothing_to_fix })
  verify_change (a ∷ as_) [] =
      some (record { valid = false; lines = no_flow ∷ []; remediation = nothing_to_fix })
  verify_change (a ∷ as_) (f ∷ fs) =
      verify_actions (a ∷ as_) (f ∷ fs)
        (record { valid = true; lines = []; remediation = nothing_to_fix })
