-- ===== src/Execute/Idempotent.antt =====
-- The executor that skips what has landed and replays what it has done under the same operation key:
-- apps/api/app/execute/idempotent.py.
pub mod Skips
pub mod Tests
pub mod Replay
use zero_node.Prelude.{
  ℕ, String, ◌≡◌, Bool, true, false, not, ◌&&◌, Option, none, some, List, [], ◌∷◌, ◌++◌, map,
  exists, if◌then◌else◌, str_eq,
}
use zero_node.Prelude.Text.{Text, codes}
use zero_node.Firewall.Policy.{AclRule, parse_acl_command}
use zero_node.Execute.Base.{
  Action, Flow, refused_because, State, ExecutionStep, ExecutionResult, ExecutionDict, as_dict,
}
use zero_node.Execute.Render.{rendered_for}
use zero_node.Execute.Guard.{check}
use zero_node.Execute.Live.{same_rule}
use zero_node.Execute.Device.{
  Devices, Site, output, failure, Pushed, all_sent, send_failed, push_raised, Outcome, finished,
  raised, step_ok, step_failed, join_lines, result, send, after_push, close_all,
}

-- What keeps the results (`lookup` and `store`); its law is what the executor relies on.
pub record ExecutionCache : Type 1 where
  pub Store : Type 0
  pub find : String → Store → Option ExecutionDict
  pub keep : String → ExecutionDict → Store → Store
  pub find-keep :
      (key : String) (r : ExecutionDict) (s : Store)
      → find key s ≡ none
      → find key (keep key r s) ≡ some r

abbrev pub skipped : Text
skipped = codes "skipped: rule already present on device"

abbrev has_rule : Option AclRule → Option (List AclRule) → Option Bool
has_rule none policy = some false
has_rule (some expected) none = none
has_rule (some expected) (some policy) = some (exists (λ rule. same_rule rule expected) policy)

-- The `ExecutionResult` of a stored dict.
pub replayed : ExecutionDict → ExecutionResult
replayed d = record {
  mode = d.mode;
  state = d.state;
  lines = d.lines;
  steps = map (λ s. record { command = s.command; output = s.output; error = s.error }) d.steps;
  verification = d.verification;
}

abbrev pub is_refused : State → Bool
is_refused State.refused = true
is_refused _ = false

module _ (d : Devices) (platform : Text) where
  open d use {World, read}

  -- `none` is an exception of the firewall.
  pub already_landed : Action → Site World → Option Bool
  already_landed a s = has_rule (parse_acl_command a.command) (read s.world a.device)

  -- The loop of `_apply`.
  pub push_missing : List Action → List ExecutionStep → Site World → Pushed × Site World
  unfolding already_landed
  push_missing [] steps s = (all_sent steps, s)
  push_missing (a ∷ as_) steps s = elim (already_landed a s) [
    | none ↦ (push_raised, s)
    | some true ↦ elim (rendered_for a platform false) [
      | none ↦ (push_raised, s)
      | some lines ↦ push_missing as_ (steps ++ step_ok (join_lines lines) skipped ∷ []) s
    ]
    | some false ↦ elim (rendered_for a platform false) [
      | none ↦ (push_raised, s)
      | some lines ↦
          let (r, s') = send d platform a.device lines s in
          elim r [
            | output out ↦ push_missing as_ (steps ++ step_ok (join_lines lines) out ∷ []) s'
            | failure error ↦ (
              send_failed (steps ++ step_failed (join_lines lines) error ∷ []) (join_lines lines)
                  error,
              s',
            )
          ]
    ]
  ]

  -- `_apply`, which checks the preconditions and closes the sessions itself
  pub apply_missing : Bool → List Text → List Action → List Flow → Site World → Outcome × Site World
  unfolding push_missing
  apply_missing auto_rollback devices actions flows s = elim (check actions flows devices) [
    | why ∷ whys ↦ (finished (result State.refused (refused_because (why ∷ whys) ∷ []) [] []), s)
    | [] ↦ close_all d platform (
        after_push d platform auto_rollback actions flows
          (push_missing actions [] (record s { sessions = [] })))
  ]

  -- `apply`, inherited, around this `_apply`
  pub apply_skipping :
      Bool → List Text → List Action → List Flow → Site World → Outcome × Site World
  unfolding apply_missing
  apply_skipping auto_rollback devices actions flows s = elim (check actions flows devices) [
    | why ∷ whys ↦ (finished (result State.refused (refused_because (why ∷ whys) ∷ []) [] []), s)
    | [] ↦
        close_all d platform
          (apply_missing auto_rollback devices actions flows (record s { sessions = [] }))
  ]

  module _ (cache : ExecutionCache) where
    open cache use {Store, find, keep}

    abbrev pub keep_result : String → Outcome × Site World → Store → Outcome × Site World × Store
    keep_result key (raised, s) c = (raised, s, c)
    keep_result key (finished r, s) c = (
      finished r,
      s,
      (if str_eq key "" then c else if is_refused r.state then c else keep key (as_dict r) c),
    )

    abbrev cached : String → Store → Option ExecutionDict
    cached key c = if str_eq key "" then none else find key c

    pub apply_once :
        Bool
        → List Text
        → List Action
        → List Flow
        → String
        → Site World
        → Store
        → Outcome × Site World × Store
    unfolding apply_skipping replayed as_dict
    apply_once auto_rollback devices actions flows key s c = elim (cached key c) [
      | some found ↦ (finished (replayed found), s, c)
      | none ↦ keep_result key (apply_skipping auto_rollback devices actions flows s) c
    ]
