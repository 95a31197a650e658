-- ===== src/Execute/Idempotent/Tests.antt =====
-- The skipping and replaying executor on a toy firewall: apps/api/app/execute/idempotent.py.
use zero_node.Prelude.{String, ◌≡◌, refl, true, List, [], ◌∷◌}
use zero_node.Firewall.Policy.{parse_acl_command, port_alias}
use zero_node.Execute.Base.{State, Mode, ExecutionDict}
use zero_node.Execute.Guard.{check, action_reasons, is_policy_command}
use zero_node.Execute.Device.{finished}
use zero_node.Execute.Device.Safety.{Keeps}
use zero_node.Execute.Idempotent.{replayed, apply_skipping, apply_once}
use zero_node.Execute.Idempotent.Skips.{apply_skipping-Keeps}
use zero_node.Execute.Idempotent.Replay.{local_cache, apply_once_again}
use zero_node.Execute.Tests.{asa, edge, flow, action, denying, permitting, toy, site}

apply_skipping-Keeps_example :
    Keeps toy asa
      (action ∷ [])
      (flow ∷ [])
      (apply_skipping toy asa true (edge ∷ []) (action ∷ []) (flow ∷ []) (site denying))
unfolding check action_reasons is_policy_command parse_acl_command port_alias
apply_skipping-Keeps_example =
    apply_skipping-Keeps toy asa (action ∷ []) (flow ∷ []) true (edge ∷ []) (site denying) refl

abbrev stored : ExecutionDict
stored = record {
  mode = Mode.device;
  state = State.applied;
  lines = [];
  verification = [];
  commands = [];
  errors = [];
  steps = [];
}

abbrev cache : List (String × ExecutionDict)
cache = ("op1", stored) ∷ []

apply_once_again_example :
    apply_once toy asa local_cache true
      (edge ∷ [])
      (action ∷ [])
      (flow ∷ [])
      "op1"
      (site permitting)
      cache
    ≡ (finished (replayed stored), site permitting, cache)
unfolding apply_once replayed
apply_once_again_example =
    apply_once_again toy asa local_cache true (edge ∷ []) (action ∷ []) (flow ∷ []) "op1"
      (site denying) (site denying) cache cache (replayed stored) refl refl refl true (edge ∷ [])
      (action ∷ []) (flow ∷ []) (site permitting)
