-- ===== src/Verify/Reversal.antt =====
-- `verify_rollback` of apps/api/app/verify.py.
pub mod Restores
use zero_node.Prelude.{
  ℕ, Bool, true, false, not, ◌&&◌, Option, none, some, List, [], ◌∷◌, ◌++◌, is_empty, if◌then◌else◌,
}
use zero_node.Prelude.Int.{ℤ, pos, leb_ℤ, ltb_ℤ, add_ℕ, minus_ℕ}
use zero_node.Prelude.Text.{Text, codes, text_eq, lower, strip, starts_with, drop}
use zero_node.Firewall.Policy.{AclRule, evaluate_flow}
use zero_node.Firewall.Normalize.{parse_proposed_acl}
use zero_node.Execute.Base.{Action, Flow}
use zero_node.Execute.Live.{port_eq}
use zero_node.Verify.Change.{last_line}

pub data Source : Type 0 where
  model derived : Source

pub data ReversalLine : Type 0 where
  proposal_unreadable : Text → ReversalLine
  removes_another reversal_unreadable : Text → Text → ReversalLine
  returns : Flow → Text → ReversalLine
  differs : Flow → Text → Text → ReversalLine

-- The remediation, each with the derived rollback that it asks for.
pub data ReversalFix : Type 0 where
  no_fix : ReversalFix
  remove_exactly give_removal use_removal : Text → ReversalFix

-- `RollbackReport`
pub record RollbackReport : Type 0 where
  pub valid : Bool
  pub command : Text
  pub source : Source
  pub lines : List ReversalLine
  pub remediation : ReversalFix

abbrev pub is_removal : Text → Bool
is_removal text = starts_with (lower text) (codes "no ")

unfoldable pub derive_rollback : Text → Text
derive_rollback command =
    let text = strip command in if is_removal text then text else codes "no " ++ text

-- `_removal_target`
unfoldable pub removal_target : Text → Text → Option AclRule
unfolding parse_proposed_acl
removal_target command vendor =
    let text = strip command in
    if is_removal text then parse_proposed_acl (drop 3 text) vendor else none

-- `_same_rule`, which compares the rules as they are written
unfoldable pub same_written : AclRule → AclRule → Bool
same_written left right =
    text_eq left.action right.action
    && text_eq left.proto right.proto
    && text_eq left.src right.src
    && text_eq left.dst right.dst
    && port_eq left.port right.port

-- `proposed.line`, whatever line the command states
abbrev pub proposed_line : Option ℤ → List AclRule → ℤ
proposed_line none base = add_ℕ (last_line base) 10
proposed_line (some position) base = position

abbrev pub compensating_line : ℤ → ℤ
compensating_line line = if ltb_ℤ (pos 1) line then minus_ℕ line 1 else pos 1

abbrev pub verdict : List AclRule → Flow → Text
verdict rules f = (evaluate_flow rules f.src f.dst f.port f.proto).0

abbrev pub unchanged : List AclRule → List AclRule → Flow → Bool
unchanged base restored f = text_eq (verdict base f) (verdict restored f)

abbrev pub all_unchanged : List AclRule → List AclRule → List Flow → Bool
all_unchanged base restored [] = true
all_unchanged base restored (f ∷ fs) = unchanged base restored f && all_unchanged base restored fs

abbrev reversal_lines : List AclRule → List AclRule → List Flow → List ReversalLine
reversal_lines base restored [] = []
reversal_lines base restored (f ∷ fs) =
    (if unchanged base restored f
      then returns f (verdict base f)
      else differs f (verdict restored f) (verdict base f))
    ∷ reversal_lines base restored fs

abbrev pub reversal_or : Text → Text → Text
reversal_or rollback ours = if is_empty (strip rollback) then ours else strip rollback

abbrev pub source_of : Text → Source
source_of rollback = if is_empty (strip rollback) then Source.derived else Source.model

-- The flows before the change against the flows after the reversal.
abbrev pub compare : List Flow → Text → Source → Text → List AclRule → List AclRule → RollbackReport
compare flows reversal source fix base restored = record {
  valid = all_unchanged base restored flows;
  command = reversal;
  source = source;
  lines = reversal_lines base restored flows;
  remediation = if all_unchanged base restored flows then no_fix else use_removal fix;
}

abbrev pub failed : Text → Source → ReversalLine → ReversalFix → RollbackReport
failed reversal source line fix = record {
  valid = false;
  command = reversal;
  source = source;
  lines = line ∷ [];
  remediation = fix;
}

abbrev pub compensated :
    Action → List Flow → Text → Source → List AclRule → AclRule → Option AclRule → RollbackReport
compensated a flows reversal source base proposed none =
    failed reversal source (reversal_unreadable a.device reversal)
      (give_removal (derive_rollback a.command))
compensated a flows reversal source base proposed (some rule) =
    compare flows reversal source (derive_rollback a.command) base
      ((base ++ proposed ∷ []) ++ record rule { line = compensating_line proposed.line } ∷ [])

abbrev pub reversed_by :
    Action → List Flow → Text → Source → List AclRule → AclRule → Option AclRule → RollbackReport
reversed_by a flows reversal source base proposed none =
    compensated a flows reversal source base proposed (parse_proposed_acl reversal a.vendor)
reversed_by a flows reversal source base proposed (some removal) =
    if same_written removal proposed
    then compare flows reversal source (derive_rollback a.command) base base
    else failed reversal source (removes_another a.device reversal)
        (remove_exactly (derive_rollback a.command))

-- `read` is `firewall.acl_policy`; `none` is an exception that it raises.
unfoldable pub verify_rollback :
    (Text → Option (List AclRule)) → Action → List Flow → Text → Option RollbackReport
unfolding derive_rollback removal_target parse_proposed_acl same_written
verify_rollback read a flows rollback =
    let reversal = reversal_or rollback (derive_rollback a.command) in
    let source = source_of rollback in
    elim (parse_proposed_acl a.command a.vendor) [
      | none ↦ some (failed reversal source (proposal_unreadable a.device) no_fix)
      | some rule ↦ elim (read a.device) [
        | none ↦ none
        | some base ↦ some (
            reversed_by a flows reversal source base
              (record rule { line = proposed_line a.position base })
              (removal_target reversal a.vendor))
      ]
    ]
