-- ===== src/Verify/Change/Sound.antt =====
-- Simulations that pass: apps/api/app/verify.py.
use zero_node.Prelude.{
  ◌≡◌, refl, sym, ap, ◌∙◌, Bool, true, false, Option, none, some, List, [], ◌∷◌, ◌++◌, map, All,
  exists, ◌&&◌, ◌||◌, is_empty, Bool-cases, Option-cases, inl, inr, arith,
}
use zero_node.Prelude.Int.{ℤ, leb_ℤ}
use zero_node.Prelude.Text.{Text, text_eq, text_eq→eq, text_eq_refl}
use zero_node.Firewall.Policy.{AclRule, permit, evaluate_flow}
use zero_node.Firewall.Normalize.{parse_proposed_acl}
use zero_node.Execute.Base.{Action, Flow}
use zero_node.Verify.Traced.{Marked, evaluate_marked, evaluate-unmark}
use zero_node.Firewall.Nat.{NatAssessment}
use zero_node.Verify.Report.{
  Finding, Fix, nothing_to_fix, Report, scope_findings, nat_findings, sorted_set, sources_of,
  destinations_of,
}
use zero_node.Verify.Change.{
  unparsed, unmodelled_above, place, marked, Run, on_verdict, check_flows, check_scope, check_order,
  check_nat, say, simulate, verify_action, verify_actions, verify_change,
}

-- The rules without the flags.
unmark-marked :
    (base : List AclRule) (rule : AclRule) → map (λ m. m.0) (marked base rule) ≡ base ++ rule ∷ []
unmark-marked [] rule = refl
unmark-marked (b ∷ bs) rule = ap (λ t. b ∷ t) (unmark-marked bs rule)

marked-verdict :
    (base : List AclRule) (rule : AclRule) (f : Flow)
    → (evaluate_marked (marked base rule) f.src f.dst f.port f.proto).0
      ≡ (evaluate_flow (base ++ rule ∷ []) f.src f.dst f.port f.proto).0
marked-verdict base rule f =
    ap (λ v. v.0) (evaluate-unmark f.src f.dst f.port f.proto (marked base rule))
    ∙ ap (λ rs. (evaluate_flow rs f.src f.dst f.port f.proto).0) (unmark-marked base rule)

on_verdict-valid :
    (rule : AclRule) (f : Flow) (v : Text × Option Marked) (run : Run)
    → (on_verdict rule f v run).report.valid ≡ true
    → (v.0 ≡ permit) × (run.report.valid ≡ true)
on_verdict-valid rule f (action, none) run ok = elim (Bool-cases (text_eq action permit)) [
  | inl good ↦ (text_eq→eq action permit good, ground arith)
  | inr bad ↦ absurd (ground arith)
]
on_verdict-valid rule f (action, some (hit, true)) run ok =
    elim (Bool-cases (text_eq action permit)) [
      | inl good ↦ (text_eq→eq action permit good, ground arith)
      | inr bad ↦ absurd (ground arith)
    ]
on_verdict-valid rule f (action, some (hit, false)) run ok =
    elim (Bool-cases (text_eq action permit)) [
      | inl good ↦ (text_eq→eq action permit good, ground arith)
      | inr bad ↦ absurd (ground arith)
    ]

abbrev AllPermit : List Marked → List Flow → Type 0
AllPermit rules = All (λ f. (evaluate_marked rules f.src f.dst f.port f.proto).0 ≡ permit)

check_flows-valid :
    (rules : List Marked) (rule : AclRule) (flows : List Flow) (run : Run)
    → (check_flows rules rule flows run).report.valid ≡ true
    → AllPermit rules flows × (run.report.valid ≡ true)
check_flows-valid rules rule [] run ok = (tt, ok)
check_flows-valid rules rule (f ∷ fs) run ok =
    let v = evaluate_marked rules f.src f.dst f.port f.proto in
    let (others, this) = check_flows-valid rules rule fs (on_verdict rule f v run) ok in
    let (permitted, before) = on_verdict-valid rule f v run this in ((permitted, others), before)

-- The proposed rule itself permits the flow.
abbrev pub is_proposal : Text × Option Marked → Bool
is_proposal (action, none) = false
is_proposal (action, some (hit, is_rule)) = text_eq action permit && is_rule

abbrev pub by_proposal : List Marked → Flow → Bool
by_proposal rules f = is_proposal (evaluate_marked rules f.src f.dst f.port f.proto)

on_verdict-matched :
    (rule : AclRule) (f : Flow) (v : Text × Option Marked) (run : Run)
    → (on_verdict rule f v run).matched ≡ (run.matched || is_proposal v)
on_verdict-matched rule f (action, none) run = ground arith
on_verdict-matched rule f (action, some (hit, true)) run = ground arith
on_verdict-matched rule f (action, some (hit, false)) run = ground arith

check_flows-matched :
    (rules : List Marked) (rule : AclRule) (flows : List Flow) (run : Run)
    → (check_flows rules rule flows run).matched ≡ (run.matched || exists (by_proposal rules) flows)
check_flows-matched rules rule [] run = ground arith
check_flows-matched rules rule (f ∷ fs) run =
    let v = evaluate_marked rules f.src f.dst f.port f.proto in
    ground (
      arith,
      check_flows-matched rules rule fs (on_verdict rule f v run),
      on_verdict-matched rule f v run,
    )

check_scope-valid :
    (rule : AclRule) (flows : List Flow) (run : Run)
    → (check_scope rule flows run).valid ≡ true
    → (run.report.valid ≡ true)
      × (run.matched ≡ true → is_empty (scope_findings rule flows).0 ≡ true)
check_scope-valid rule flows run ok = elim (Bool-cases run.matched) [
  | inl by_it ↦ elim (Bool-cases (is_empty (scope_findings rule flows).0)) [
    | inl narrow ↦ (ground arith, λ m. narrow)
    | inr wide ↦ absurd (ground arith)
  ]
  | inr not_by_it ↦ (ground arith, λ m. absurd (ground arith))
]

check_order-valid :
    (device : Text) (base : List AclRule) (rule : AclRule) (r : Report)
    → (check_order device base rule r).valid ≡ true
    → (is_empty (unmodelled_above base rule.line) ≡ true) × (r.valid ≡ true)
check_order-valid device base rule r ok =
    elim (Bool-cases (is_empty (unmodelled_above base rule.line))) [
      | inl seen ↦ (seen, ground arith)
      | inr blind ↦ absurd (ground arith)
    ]

-- What the search for rules that could not be modelled passes over.
abbrev pub Modelled : ℤ → AclRule → Type 0
Modelled line r = r.action ≡ unparsed → leb_ℤ r.line line ≡ false

none_above :
    (base : List AclRule) (line : ℤ)
    → is_empty (unmodelled_above base line) ≡ true
    → All (Modelled line) base
unfolding unmodelled_above
none_above [] line h = tt
none_above (r ∷ rs) line h = elim (Bool-cases (text_eq r.action unparsed && leb_ℤ r.line line)) [
  | inl blind ↦ absurd (ground arith)
  | inr seen ↦ (
    (λ e. ground (arith, seen, ap (λ a. text_eq a unparsed) e, text_eq_refl unparsed)),
    none_above rs line (ground arith),
  )
]

check_nat-valid :
    (n : List Finding × Bool × Fix) (r : Report)
    → (check_nat n r).valid ≡ true
    → (n.1 ≡ false) × (r.valid ≡ true)
check_nat-valid (ls, false, fix) r ok = (refl, ok)
check_nat-valid (ls, true, fix) r ok = cc

-- An assessment of the addresses of the flows, where they have any and the assessment is made, names no
-- rule that translates them.
abbrev pub Untranslated : (Text → List Text → Option NatAssessment) → Text → List Flow → Type 0
Untranslated assess device flows =
    (n : NatAssessment)
    → let addresses = sorted_set (sources_of flows ++ destinations_of flows) in
      is_empty addresses ≡ false → assess device addresses ≡ some n → is_empty n.translated ≡ true

nat_findings-Untranslated :
    (assess : Text → List Text → Option NatAssessment) (device : Text) (flows : List Flow)
    → (nat_findings assess device flows).1 ≡ false
    → Untranslated assess device flows
unfolding nat_findings
nat_findings-Untranslated assess device flows h n some_address made =
    elim (Bool-cases (is_empty n.translated)) [
      | inl silent ↦ silent
      | inr told ↦ absurd (ground arith)
    ]

module _ (read : Text → Option (List AclRule))
    (assess : Text → List Text → Option NatAssessment) where
  -- What the simulation of one action establishes.
  pub record Simulated (flows : List Flow) (a : Action) : Type 0 where
    pub rule : AclRule
    pub base : List AclRule
    pub parsed : parse_proposed_acl a.command a.vendor ≡ some rule
    pub was_read : read a.device ≡ some base
    pub permitted :
        All
          (λ f.
            (evaluate_flow
              (base ++ (place a.device a.position rule base).0 ∷ [])
              f.src
              f.dst
              f.port
              f.proto).0
            ≡ permit)
          flows
    pub modelled : All (Modelled (place a.device a.position rule base).0.line) base
    pub untranslated : Untranslated assess a.device flows
    pub narrow :
        exists (by_proposal (marked base (place a.device a.position rule base).0)) flows ≡ true
        → is_empty (scope_findings (place a.device a.position rule base).0 flows).0 ≡ true

  permit-unmarked :
      (base : List AclRule) (rule : AclRule) (flows : List Flow)
      → AllPermit (marked base rule) flows
      → All (λ f. (evaluate_flow (base ++ rule ∷ []) f.src f.dst f.port f.proto).0 ≡ permit) flows
  permit-unmarked base rule [] h = tt
  permit-unmarked base rule (f ∷ fs) h =
      (sym (marked-verdict base rule f) ∙ h.0, permit-unmarked base rule fs h.1)

  simulate-valid :
      (a : Action) (flows : List Flow) (rule : AclRule) (base : List AclRule) (r : Report)
      → parse_proposed_acl a.command a.vendor ≡ some rule
      → read a.device ≡ some base
      → (simulate read assess a flows rule base r).valid ≡ true
      → Simulated flows a × (r.valid ≡ true)
  unfolding simulate
  simulate-valid a flows rule base r parsed was_read ok =
      let (placed, ls) = place a.device a.position rule base in
      let nat = nat_findings assess a.device flows in
      let before = say (check_nat nat r) ls in
      let start : Run = record {
        report = check_order a.device base placed before;
        matched = false;
      } in
      let run = check_flows (marked base placed) placed flows start in
      let (flows_ok, narrow) = check_scope-valid placed flows run ok in
      let (permitted, order_ok) =
        check_flows-valid (marked base placed) placed flows start flows_ok in
      let (modelled, nat_ok) = check_order-valid a.device base placed before order_ok in
      let (untranslated, r_ok) = check_nat-valid nat r nat_ok in
      (
        record {
          rule = rule;
          base = base;
          parsed = parsed;
          was_read = was_read;
          permitted = permit-unmarked base placed flows permitted;
          modelled = none_above base placed.line modelled;
          untranslated = nat_findings-Untranslated assess a.device flows untranslated;
          narrow = λ e. narrow (check_flows-matched (marked base placed) placed flows start ∙ e);
        },
        r_ok,
      )

  verify_action-valid :
      (a : Action) (flows : List Flow) (r r' : Report)
      → verify_action read assess a flows r ≡ some r'
      → r'.valid ≡ true
      → Simulated flows a × (r.valid ≡ true)
  unfolding verify_action
  verify_action-valid a flows r r' e ok =
      elim (Option-cases (parse_proposed_acl a.command a.vendor)) [
        | inl unparsed ↦ absurd (ground arith)
        | inr (rule, parsed) ↦ elim (Option-cases (read a.device)) [
          | inl failed ↦ absurd (ground arith)
          | inr (base, got) ↦ simulate-valid a flows rule base r parsed got (ground arith)
        ]
      ]

  verify_actions-valid :
      (as_ : List Action) (flows : List Flow) (r r' : Report)
      → verify_actions read assess as_ flows r ≡ some r'
      → r'.valid ≡ true
      → All (Simulated flows) as_ × (r.valid ≡ true)
  verify_actions-valid [] flows r r' e ok = (tt, ground arith)
  verify_actions-valid (a ∷ as_) flows r r' e ok =
      elim (Option-cases (verify_action read assess a flows r)) [
        | inl failed ↦ absurd (ground arith)
        | inr (q, this) ↦
            let (others, q_ok) = verify_actions-valid as_ flows q r' (ground arith) ok in
            let (first, r_ok) = verify_action-valid a flows r q this q_ok in ((first, others), r_ok)
      ]

  -- A simulation that passes has established, for each proposed action: its command parses, its
  -- device's policy can be read, no rule at or above the line of the proposal is one that the reader
  -- could not model, an assessment of the flows' addresses, where one is made, names no rule as
  -- translating them (a missing or failing assessment, and rules that it leaves unresolved, do not stop
  -- a simulation), first-match evaluation permits every flow once the proposal is spliced in, and if
  -- the proposal is what permits one of them, the scope check has nothing against it.
  pub verify_change-Simulated :
      (actions : List Action) (flows : List Flow) (r : Report)
      → verify_change read assess actions flows ≡ some r
      → r.valid ≡ true
      → All (Simulated flows) actions
  unfolding verify_change
  verify_change-Simulated [] flows r e ok = tt
  verify_change-Simulated (a ∷ as_) [] r e ok = absurd (ground arith)
  verify_change-Simulated (a ∷ as_) (f ∷ fs) r e ok =
      (verify_actions-valid (a ∷ as_) (f ∷ fs)
        (record { valid = true; lines = []; remediation = nothing_to_fix }) r e ok).0
