-- ===== src/Execute/Device/Safety.antt =====
-- The outcomes of an execution: apps/api/app/execute/device.py.
use zero_node.Prelude.{
  ◌≡◌, ◌≢◌, refl, sym, ◌∙◌, Bool, true, false, List, [], ◌∷◌, All, ◌⊎◌, reverse, Option-cases,
  Bool-cases, inl, inr,
}
use zero_node.Prelude.Text.{Text}
use zero_node.Execute.Base.{
  Action, Flow, Refusal, Why, refused_because, rolling_back, LiveLine, State, ExecutionStep,
  ExecutionResult,
}
use zero_node.Execute.Guard.{check}
use zero_node.Execute.Live.{verify_applied, verify_reverted}
use zero_node.Execute.Live.Sound.{InForce, Undone, verify_applied-InForce, verify_reverted-Undone}
use zero_node.Execute.Device.{
  Devices, Site, Pushed, all_sent, send_failed, push_raised, Undo, all_undone, undo_failed,
  undo_raised, Outcome, finished, raised, result, push_actions, undo_actions, after_undo,
  conclude_undo, revert, after_push, close_all, apply,
}

module _ (d : Devices) (platform : Text) (actions : List Action) (flows : List Flow) where
  open d use {World, read}

  -- What a result promises about the devices as they are when it is given.
  abbrev pub Promise : State → World → Type 0
  Promise State.applied w = All (InForce (read w) flows) actions
  Promise State.rolled_back w = All (Undone (read w) flows) actions
  Promise State.rollback_failed w = Unit
  Promise _ w = ⊥

  abbrev pub Keeps : Outcome × Site World → Type 0
  Keeps (raised, s) = Unit
  Keeps (finished r, s) = Promise r.state s.world

  conclude_undo-Keeps :
      (verification : List LiveLine) (u : Undo) (s : Site World)
      → Keeps (conclude_undo d platform actions flows verification (u, s))
  unfolding conclude_undo
  conclude_undo-Keeps verification undo_raised s = tt
  conclude_undo-Keeps verification (undo_failed m steps device error) s = tt
  conclude_undo-Keeps verification (all_undone m steps) s =
      elim (Option-cases (verify_reverted (read s.world) actions flows)) [
        | inl failed ↦ rw (failed, after_undo) tt
        | inr (r, e) ↦ elim (Bool-cases r.valid) [
          | inl ok ↦
              rw (e, after_undo)
                (rw ok (verify_reverted-Undone (read s.world) actions flows r e ok))
          | inr bad ↦ rw (e, after_undo) (rw bad tt)
        ]
      ]

  revert-Keeps :
      (auto : Bool) (steps : List ExecutionStep) (why : Why) (verification : List LiveLine)
      (s : Site World)
      → Keeps (revert d platform auto actions flows steps why verification s)
  unfolding revert
  revert-Keeps true steps why verification s =
      let (u, s') = undo_actions d platform (reverse actions) (rolling_back why ∷ []) steps s in
      conclude_undo-Keeps verification u s'
  revert-Keeps false steps why verification s = tt

  pub after_push-Keeps :
      (auto : Bool) (p : Pushed) (s : Site World)
      → Keeps (after_push d platform auto actions flows (p, s))
  unfolding after_push
  after_push-Keeps auto push_raised s = tt
  after_push-Keeps auto (send_failed steps command error) s = revert-Keeps auto steps _ [] s
  after_push-Keeps auto (all_sent steps) s =
      elim (Option-cases (verify_applied (read s.world) actions flows)) [
        | inl failed ↦ rw (failed, after_push) tt
        | inr (live, e) ↦ elim (Bool-cases live.valid) [
          | inl ok ↦
              rw (e, after_push)
                (rw ok (verify_applied-InForce (read s.world) actions flows live e ok))
          | inr bad ↦ rw (e, after_push) (rw bad (revert-Keeps auto steps _ live.lines s))
        ]
      ]

  pub close_all-Keeps : (x : Outcome × Site World) → Keeps x → Keeps (close_all d platform x)
  unfolding close_all
  close_all-Keeps (raised, s) h = tt
  close_all-Keeps (finished r, s) h = h

  apply_refused :
      (auto : Bool) (devices : List Text) (s : Site World) (why : Refusal) (whys : List Refusal)
      → check actions flows devices ≡ why ∷ whys
      → apply d platform auto devices actions flows s
        ≡ (finished (result State.refused (refused_because (why ∷ whys) ∷ []) [] []), s)
  unfolding apply
  apply_refused auto devices s why whys e = rw (e, apply) refl

  apply_allowed :
      (auto : Bool) (devices : List Text) (s : Site World)
      → check actions flows devices ≡ []
      → Keeps (apply d platform auto devices actions flows s)
  unfolding apply
  apply_allowed auto devices s e =
      let (p, s') = push_actions d platform actions [] (record s { sessions = [] }) in
      rw (e, apply) (close_all-Keeps _ (after_push-Keeps auto p s'))

  -- If the guard has a reason, the result is `refused`, and nothing whatever has happened: the
  -- devices, the sessions and the trace of events are as they were. If it has none, the outcome is an
  -- exception or one of three states: `applied`, and then each action's device can be read, holds the
  -- rule (where the command parses) and permits every flow; `rolled_back`, and then each one can be
  -- read, does not hold the rule (where the command parses) and permits no flow; or `rollback_failed`.
  pub apply-Keeps :
      (auto : Bool) (devices : List Text) (s : Site World)
      → ((check actions flows devices ≢ [])
          × ((r : ExecutionResult) × (apply d platform auto devices actions flows s
                ≡ (finished r, s))
              × (r.state ≡ State.refused)))
        ⊎ ((check actions flows devices ≡ [])
            × Keeps (apply d platform auto devices actions flows s))
  unfolding result
  apply-Keeps auto devices s = go (check actions flows devices) refl
    where
      go :
          (whys : List Refusal)
          → check actions flows devices ≡ whys
          → ((check actions flows devices ≢ [])
              × ((r : ExecutionResult) × (apply d platform auto devices actions flows s
                    ≡ (finished r, s))
                  × (r.state ≡ State.refused)))
            ⊎ ((check actions flows devices ≡ [])
                × Keeps (apply d platform auto devices actions flows s))
      go [] e = inr (e, apply_allowed auto devices s e)
      go (why ∷ whys) e =
          inl ((λ z. cc (sym e ∙ z)), (_, apply_refused auto devices s why whys e, refl))
