-- ===== src/Verify/Report.antt =====
-- The findings of apps/api/app/verify.py, and its scope and NAT checks. A message is a constructor
-- with what it is formatted from.
use zero_node.Prelude.{
  ℕ, ◌*◌, Bool, true, false, ◌&&◌, ◌||◌, Option, none, some, List, [], ◌∷◌, ◌++◌, length, is_empty,
  ltb, ◌==◌, if◌then◌else◌,
}
use zero_node.Prelude.Int.{ℤ}
use zero_node.Prelude.Text.{Text, text_eq}
use zero_node.Firewall.Nat.{NatAssessment}
use zero_node.Firewall.Policy.{AclRule, breadth}
use zero_node.Execute.Base.{Flow}

-- What `Finding`s are about: the device, the command, or the flow and the rule that decides it.
pub data Finding : Type 0 where
  no_action no_flow : Finding
  unreadable : Text → Text → Finding
  nat_unresolved nat_translated : Text → List Text → Finding
  inserting_at appending_at : Text → ℤ → Finding
  unmodelled : Text → ℤ → List Text → Finding
  permitted_by_proposal : Flow → Finding
  permitted_by_other : Flow → Option Text → Finding
  still_denied : Flow → Option (Text × ℤ) → ℤ → Finding
  every_port : Finding
  too_wide : ℕ → ℕ → List Text → List Text → Finding

pub data Fix : Type 0 where
  nothing_to_fix reissue confirm_addresses review_order : Fix
  move_to : Text → ℤ → ℤ → Fix
  narrow_to : Text → Text → Option ℕ → Fix

-- `VerificationReport`
pub record Report : Type 0 where
  pub valid : Bool
  pub lines : List Finding
  pub remediation : Fix

abbrev pub text_ltb : Text → Text → Bool
text_ltb s [] = false
text_ltb [] (d ∷ t) = true
text_ltb (c ∷ s) (d ∷ t) = ltb c d || (c == d && text_ltb s t)

abbrev pub insert_text : Text → List Text → List Text
insert_text s [] = s ∷ []
insert_text s (t ∷ ts) =
    let rest = insert_text s ts in
    if text_eq s t then t ∷ ts else if text_ltb s t then s ∷ t ∷ ts else t ∷ rest

-- `sorted({s for s in texts if s})`
abbrev pub sorted_set : List Text → List Text
sorted_set [] = []
sorted_set (s ∷ ss) = let rest = sorted_set ss in if is_empty s then rest else insert_text s rest

abbrev pub sources_of : List Flow → List Text
sources_of [] = []
sources_of (f ∷ fs) = f.src ∷ sources_of fs

abbrev pub destinations_of : List Flow → List Text
destinations_of [] = []
destinations_of (f ∷ fs) = f.dst ∷ destinations_of fs

-- `rule.port or "<port>"`
abbrev stated_port : Option ℕ → Option ℕ
stated_port none = none
stated_port (some p) = if p == 0 then none else some p

abbrev port_finding : Option ℕ → List Finding
port_finding none = every_port ∷ []
port_finding (some p) = []

abbrev pub scope_lines : AclRule → List Text → List Text → List Finding
scope_lines rule srcs dsts =
    let permitted = breadth rule.src * breadth rule.dst in
    let needed = length srcs * length dsts in
    port_finding rule.port
    ++ (if ltb needed permitted then too_wide permitted needed srcs dsts ∷ [] else [])

abbrev scope_fix : AclRule → List Text → List Text → List Finding → List Finding × Fix
scope_fix rule (s ∷ srcs) (d ∷ dsts) (l ∷ ls) = (l ∷ ls, narrow_to s d (stated_port rule.port))
scope_fix rule srcs dsts ls = (ls, nothing_to_fix)

unfoldable pub scope_findings : AclRule → List Flow → List Finding × Fix
scope_findings rule flows =
    let srcs = sorted_set (sources_of flows) in
    let dsts = sorted_set (destinations_of flows) in
    if is_empty srcs || is_empty dsts
    then ([], nothing_to_fix)
    else scope_fix rule srcs dsts (scope_lines rule srcs dsts)

abbrev assessed : Text → Option NatAssessment → List Finding × Bool × Fix
assessed device none = ([], false, nothing_to_fix)
assessed device (some a) =
    let notes = if is_empty a.unresolved then [] else nat_unresolved device a.unresolved ∷ [] in
    if is_empty a.translated
    then (notes, false, nothing_to_fix)
    else (notes ++ nat_translated device a.translated ∷ [], true, confirm_addresses)

unfoldable pub nat_findings :
    (Text → List Text → Option NatAssessment) → Text → List Flow → List Finding × Bool × Fix
nat_findings assess device flows =
    let addresses = sorted_set (sources_of flows ++ destinations_of flows) in
    if is_empty addresses
    then ([], false, nothing_to_fix)
    else assessed device (assess device addresses)
