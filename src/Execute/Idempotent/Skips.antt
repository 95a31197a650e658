-- ===== src/Execute/Idempotent/Skips.antt =====
-- The outcomes of the skipping executor:
-- apps/api/app/execute/idempotent.py.
use zero_node.Prelude.{
  ◌≡◌, refl, ap, Bool, true, false, some, List, [], ◌∷◌, ◌++◌, All, exists, inl, inr, Option-cases,
}
use zero_node.Prelude.Text.{Text}
use zero_node.Firewall.Policy.{AclRule, parse_acl_command}
use zero_node.Execute.Base.{Action, Flow, ExecutionStep}
use zero_node.Execute.Render.{rendered_for}
use zero_node.Execute.Guard.{check}
use zero_node.Execute.Live.{same_rule}
use zero_node.Execute.Device.{Devices, Site, step_ok, join_lines}
use zero_node.Execute.Device.Safety.{Keeps, after_push-Keeps, close_all-Keeps}
use zero_node.Execute.Idempotent.{
  skipped, already_landed, push_missing, apply_missing, apply_skipping,
}

module _ (d : Devices) (platform : Text) (actions : List Action) (flows : List Flow) where
  open d use {World, read}

  apply_missing-Keeps :
      (auto : Bool) (devices : List Text) (s : Site World)
      → check actions flows devices ≡ []
      → Keeps d platform actions flows (apply_missing d platform auto devices actions flows s)
  unfolding apply_missing
  apply_missing-Keeps auto devices s e =
      let (p, s') = push_missing d platform actions [] (record s { sessions = [] }) in
      rw (e, apply_missing)
        (close_all-Keeps d platform actions flows _
          (after_push-Keeps d platform actions flows auto p s'))

  -- Once the guard has no reason against a change, skipping what has landed keeps the promise of the
  -- plain executor: an exception, or every action in force, or every action undone and every flow
  -- blocked again, or `rollback_failed`.
  pub apply_skipping-Keeps :
      (auto : Bool) (devices : List Text) (s : Site World)
      → check actions flows devices ≡ []
      → Keeps d platform actions flows (apply_skipping d platform auto devices actions flows s)
  unfolding apply_skipping
  apply_skipping-Keeps auto devices s e =
      rw (e, apply_skipping)
        (close_all-Keeps d platform actions flows _
          (apply_missing-Keeps auto devices (record s { sessions = [] }) e))

module _ (d : Devices) (platform : Text) where
  open d use {World, read}

  -- The action's command parses, and the policy that its device has now holds the rule.
  pub record Landed (w : World) (a : Action) : Type 0 where
    pub expected : AclRule
    pub policy : List AclRule
    pub parsed : parse_acl_command a.command ≡ some expected
    pub was_read : read w a.device ≡ some policy
    pub present : exists (λ rule. same_rule rule expected) policy ≡ true

  Landed-already :
      (a : Action) (s : Site World) → Landed s.world a → already_landed d platform a s ≡ some true
  unfolding already_landed
  Landed-already a s h = rw (h.parsed, h.was_read, already_landed) (ap some h.present)

  -- If every action has landed, the push sends nothing: the devices, the sessions and the trace of
  -- events are as they were, whatever the push comes to.
  pub push_missing-nothing :
      (actions : List Action) (steps : List ExecutionStep) (s : Site World)
      → All (Landed s.world) actions
      → (push_missing d platform actions steps s).1 ≡ s
  unfolding push_missing
  push_missing-nothing [] steps s h = refl
  push_missing-nothing (a ∷ as_) steps s h = elim (Option-cases (rendered_for a platform false)) [
    | inl bad ↦ rw (Landed-already a s h.0, bad, push_missing) refl
    | inr (lines, good) ↦
        rw (Landed-already a s h.0, good, push_missing)
          (push_missing-nothing as_ (steps ++ step_ok (join_lines lines) skipped ∷ []) s h.1)
  ]
