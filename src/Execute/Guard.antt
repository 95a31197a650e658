-- ===== src/Execute/Guard.antt =====
-- The preconditions for touching a device: apps/api/app/execute/guard.py.
use zero_node.Prelude.{
  ◌≡◌, refl, ◌↔◌, Bool, true, false, not, ◌&&◌, ◌||◌, Option, none, some, List, [], ◌∷◌, ◌++◌,
  is_empty, All, arith, if◌then◌else◌,
}
use zero_node.Prelude.Text.{Text, codes, one_of, lower, strip, starts_with, drop}
use zero_node.Firewall.Policy.{AclRule, parse_acl_command}
use zero_node.Execute.Base.{
  Action, Flow, Refusal, nothing_to_execute, no_evidence, device_not_enabled, not_simulated,
  no_verified_rollback, command_not_modelled, rollback_not_modelled,
}

abbrev parses : Option AclRule → Bool
parses none = false
parses (some rule) = true

unfoldable pub is_policy_command : Text → Bool
is_policy_command command =
    let text = strip command in
    if is_empty text
    then false
    else parses
        (parse_acl_command (if starts_with (lower text) (codes "no ") then drop 3 text else text))

abbrev pub reason_if : Bool → Refusal → List Refusal
reason_if true why = why ∷ []
reason_if false why = []

-- The reasons that one round of the loop appends.
unfoldable pub action_reasons : List Text → Action → List Refusal
action_reasons devices a =
    reason_if (not (one_of devices a.device)) (device_not_enabled a.device)
    ++ (reason_if (not a.verified) (not_simulated a.device)
        ++ (reason_if (not a.rollback_verified || is_empty a.rollback)
              (no_verified_rollback a.device)
            ++ (reason_if (not (is_policy_command a.command))
                  (command_not_modelled a.device a.command)
                ++ reason_if (not (is_empty a.rollback) && not (is_policy_command a.rollback))
                    (rollback_not_modelled a.device a.rollback))))

abbrev all_reasons : List Text → List Action → List Refusal
all_reasons devices [] = []
all_reasons devices (a ∷ as_) = action_reasons devices a ++ all_reasons devices as_

-- The reasons; `GuardResult.ok` is that there are none.
unfoldable pub check : List Action → List Flow → List Text → List Refusal
unfolding action_reasons
check actions flows devices =
    reason_if (is_empty actions) nothing_to_execute
    ++ (reason_if (is_empty flows) no_evidence ++ all_reasons devices actions)

-- What must hold of an action before it may be sent.
pub record IsEligible (devices : List Text) (a : Action) : Type 0 where
  pub enabled : one_of devices a.device ≡ true
  pub simulated : a.verified ≡ true
  pub reversible : a.rollback_verified ≡ true
  pub has_rollback : is_empty a.rollback ≡ false
  pub modelled : is_policy_command a.command ≡ true
  pub rollback_modelled : is_policy_command a.rollback ≡ true

reason_if-none :
    (b : Bool) (why : Refusal) (rest : List Refusal)
    → reason_if b why ++ rest ≡ []
    → (b ≡ false) × (rest ≡ [])
reason_if-none true why rest e = absurd (ground arith)
reason_if-none false why rest e = (refl, e)

append-none : (xs ys : List Refusal) → xs ++ ys ≡ [] → (xs ≡ []) × (ys ≡ [])
append-none [] ys e = (refl, e)
append-none (x ∷ xs) ys e = absurd (ground arith)

no_reasons_action :
    (devices : List Text) (a : Action) → action_reasons devices a ≡ [] → IsEligible devices a
unfolding action_reasons
no_reasons_action devices a e = record {
  enabled = ground arith;
  simulated = ground arith;
  reversible = ground arith;
  has_rollback = ground arith;
  modelled = ground arith;
  rollback_modelled = ground arith;
}

eligible-no_reasons :
    (devices : List Text) (a : Action) → IsEligible devices a → action_reasons devices a ≡ []
unfolding action_reasons
eligible-no_reasons devices a h = ground arith

all_reasons-none :
    (devices : List Text) (actions : List Action)
    → all_reasons devices actions ≡ []
    → All (IsEligible devices) actions
all_reasons-none devices [] e = tt
all_reasons-none devices (a ∷ as_) e =
    let (one, rest) = append-none (action_reasons devices a) (all_reasons devices as_) e in
    (no_reasons_action devices a one, all_reasons-none devices as_ rest)

none-all_reasons :
    (devices : List Text) (actions : List Action)
    → All (IsEligible devices) actions
    → all_reasons devices actions ≡ []
none-all_reasons devices [] h = refl
none-all_reasons devices (a ∷ as_) h =
    cc (eligible-no_reasons devices a h.0, none-all_reasons devices as_ h.1)

-- The guard passes exactly when there is an action, there is a denied flow to verify against, and
-- every action goes to an enabled device, passed simulation, has a verified rollback, and both its
-- command and its rollback are ACL lines that the parser can model.
pub check_iff :
    (actions : List Action) (flows : List Flow) (devices : List Text)
    → (check actions flows devices ≡ [])
      ↔ ((is_empty actions ≡ false) × (is_empty flows ≡ false) × All (IsEligible devices) actions)
unfolding check
check_iff actions flows devices = (
  λ e.
      let (some_action, e₁) = reason_if-none (is_empty actions) nothing_to_execute _ e in
      let (some_flow, e₂) = reason_if-none (is_empty flows) no_evidence _ e₁ in
      (some_action, some_flow, all_reasons-none devices actions e₂),
  λ h. ground (arith, h.0, h.1, none-all_reasons devices actions h.2),
)
