-- ===== src/Execute/Device/Tests.antt =====
-- The plain executor on a toy firewall: apps/api/app/execute/device.py and guard.py.
use zero_node.Prelude.{◌≡◌, ◌≢◌, ◌⊎◌, ◌↔◌, true, false, [], ◌∷◌, All, is_empty}
use zero_node.Execute.Base.{ExecutionResult, State, verification_failed, sending_failed}
use zero_node.Execute.Guard.{check, IsEligible, check_iff}
use zero_node.Execute.Device.{finished, apply, revert}
use zero_node.Execute.Device.Safety.{Keeps, apply-Keeps}
use zero_node.Execute.Device.Narrative.{revert_ignores_reason}
use zero_node.Execute.Tests.{asa, edge, flow, action, denying, permitting, toy, site}

check_iff_example : (check (action ∷ []) (flow ∷ []) (edge ∷ []) ≡ []) ↔ (
    (is_empty (action ∷ []) ≡ false)
    × (is_empty (flow ∷ []) ≡ false)
    × All (IsEligible (edge ∷ [])) (action ∷ []))
check_iff_example = check_iff (action ∷ []) (flow ∷ []) (edge ∷ [])

apply-Keeps_example :
    ((check (action ∷ []) (flow ∷ []) (edge ∷ []) ≢ [])
      × ((r : ExecutionResult) × (apply toy asa true
              (edge ∷ [])
              (action ∷ [])
              (flow ∷ [])
              (site denying)
            ≡ (finished r, site denying))
          × (r.state ≡ State.refused)))
    ⊎ ((check (action ∷ []) (flow ∷ []) (edge ∷ []) ≡ [])
        × Keeps toy asa
            (action ∷ [])
            (flow ∷ [])
            (apply toy asa true (edge ∷ []) (action ∷ []) (flow ∷ []) (site denying)))
apply-Keeps_example = apply-Keeps toy asa (action ∷ []) (flow ∷ []) true (edge ∷ []) (site denying)

revert_ignores_reason_example :
    revert toy asa true (action ∷ []) (flow ∷ []) [] verification_failed [] (site permitting)
    ≡ revert toy asa true
        (action ∷ [])
        (flow ∷ [])
        []
        (sending_failed edge asa)
        []
        (site permitting)
revert_ignores_reason_example =
    revert_ignores_reason toy asa action [] (flow ∷ []) [] verification_failed
      (sending_failed edge asa) [] (site permitting)
