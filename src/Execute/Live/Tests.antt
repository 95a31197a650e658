-- ===== src/Execute/Live/Tests.antt =====
-- Verification of a change against a toy firewall: apps/api/app/execute/live.py.
use zero_node.Prelude.{refl, some, [], ◌∷◌, All}
use zero_node.Firewall.Policy.{matches, contains, parse_acl_command, evaluate_flow, port_alias}
use zero_node.Execute.Live.{
  same_rule, verdict_of, applied_action, reverted_action, verify_applied, verify_reverted,
}
use zero_node.Execute.Live.Sound.{InForce, Undone, verify_applied-InForce, verify_reverted-Undone}
use zero_node.Execute.Tests.{flow, action, denying, permitting}

verify_applied-InForce_example : All (InForce (λ device. some permitting) (flow ∷ [])) (action ∷ [])
unfolding verify_applied applied_action same_rule verdict_of matches contains parse_acl_command
    evaluate_flow port_alias
verify_applied-InForce_example =
    verify_applied-InForce (λ device. some permitting) (action ∷ []) (flow ∷ []) _ refl refl

verify_reverted-Undone_example : All (Undone (λ device. some denying) (flow ∷ [])) (action ∷ [])
unfolding verify_reverted reverted_action same_rule verdict_of matches contains parse_acl_command
    evaluate_flow port_alias
verify_reverted-Undone_example =
    verify_reverted-Undone (λ device. some denying) (action ∷ []) (flow ∷ []) _ refl refl
