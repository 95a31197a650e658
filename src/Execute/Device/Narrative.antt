-- ===== src/Execute/Device/Narrative.antt =====
-- What is left of the reason for a reversal: apps/api/app/execute/device.py.
use zero_node.Prelude.{◌≡◌, refl, ap, true, List, [], ◌∷◌, ◌++◌, reverse, Option-cases, inl, inr}
use mathlib.Core.List.{reverse-cons}
use zero_node.Prelude.Text.{Text}
use zero_node.Execute.Base.{Action, Flow, Why, rolling_back, Line, LiveLine, ExecutionStep}
use zero_node.Execute.Render.{rendered_for}
use zero_node.Execute.Device.{Devices, Site, undo_actions, conclude_undo, revert}

module _ (d : Devices) (platform : Text) where
  open d use {World}

  undo_ignores :
      (a : Action) (as_ : List Action) (m m' : List Line) (steps : List ExecutionStep)
      (s : Site World)
      → undo_actions d platform (a ∷ as_) m steps s ≡ undo_actions d platform (a ∷ as_) m' steps s
  unfolding undo_actions
  undo_ignores a as_ m m' steps s = elim (Option-cases (rendered_for a platform true)) [
    | inl bad ↦ rw (bad, undo_actions) refl
    | inr ([], good) ↦ rw (good, undo_actions) refl
    | inr (l ∷ ls, good) ↦ rw (good, undo_actions) refl
  ]

  undo_ignores_before :
      (xs : List Action) (a : Action) (m m' : List Line) (steps : List ExecutionStep)
      (s : Site World)
      → undo_actions d platform (xs ++ a ∷ []) m steps s
        ≡ undo_actions d platform (xs ++ a ∷ []) m' steps s
  undo_ignores_before [] a m m' steps s = undo_ignores a [] m m' steps s
  undo_ignores_before (x ∷ xs) a m m' steps s = undo_ignores x (xs ++ a ∷ []) m m' steps s

  -- With automatic rollback on and at least one action to undo, the outcome of the reversal is the
  -- same whatever reason is passed to `_revert`: for the same steps and the same verification, that
  -- reason leaves no trace in the outcome.
  pub revert_ignores_reason :
      (a : Action) (as_ : List Action) (flows : List Flow) (steps : List ExecutionStep)
      (why why' : Why) (verification : List LiveLine) (s : Site World)
      → revert d platform true (a ∷ as_) flows steps why verification s
        ≡ revert d platform true (a ∷ as_) flows steps why' verification s
  unfolding revert
  revert_ignores_reason a as_ flows steps why why' verification s =
      ap (conclude_undo d platform (a ∷ as_) flows verification) (
        rw (reverse-cons a as_) (
          undo_ignores_before (reverse as_) a (rolling_back why ∷ []) (rolling_back why' ∷ []) steps
            s))
