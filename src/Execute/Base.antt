-- ===== src/Execute/Base.antt =====
-- The data of apps/api/app/execute/base.py, and the actions and flows that the graph hands over. A
-- message is a constructor with what it is formatted from.
use zero_node.Prelude.{ℕ, Bool, true, false, Option, List, [], ◌∷◌, map, is_empty}
use zero_node.Prelude.Int.{ℤ}
use zero_node.Prelude.Text.{Text}

pub record Action : Type 0 where
  pub device : Text
  pub command : Text
  pub rollback : Text
  pub vendor : Text
  pub position : Option ℤ
  pub verified : Bool
  pub rollback_verified : Bool

-- `port` and `proto` after their defaults, 0 and `tcp`.
pub record Flow : Type 0 where
  pub src : Text
  pub dst : Text
  pub port : ℕ
  pub proto : Text

pub data Refusal : Type 0 where
  nothing_to_execute no_evidence : Refusal
  device_not_enabled not_simulated no_verified_rollback : Text → Refusal
  command_not_modelled rollback_not_modelled : Text → Text → Refusal

pub data Why : Type 0 where
  sending_failed : Text → Text → Why
  verification_failed : Why

pub data Line : Type 0 where
  logged_only : Line
  refused_because : List Refusal → Line
  confirmed : Line
  rolling_back : Why → Line
  rollback_disabled : Why → Line
  rendered : Text → Line
  rollback_also_failed : Text → Text → Line
  back_in_previous_state : Line
  not_in_previous_state : Line

pub data LiveLine : Type 0 where
  rule_missing : Text → LiveLine
  rule_present : Text → ℤ → LiveLine
  rule_elsewhere : Text → ℤ → ℤ → LiveLine
  flow_permitted : Flow → LiveLine
  flow_still : Flow → Text → LiveLine
  rule_still_present : Text → LiveLine
  flow_still_permitted : Flow → LiveLine
  flow_again : Flow → Text → LiveLine

pub data State : Type 0 where
  logged applied refused rolled_back rollback_failed : State

pub record ExecutionStep : Type 0 where
  pub command : Text
  pub output : Text
  pub error : Text

pub data Mode : Type 0 where
  dry_run device : Mode

pub record ExecutionResult : Type 0 where
  pub mode : Mode
  pub state : State
  pub lines : List Line
  pub steps : List ExecutionStep
  pub verification : List LiveLine

pub touched_device : ExecutionResult → Bool
touched_device r = elim r.state [
  | State.applied ↦ true
  | State.rolled_back ↦ true
  | State.rollback_failed ↦ true
  | _ ↦ false
]

-- `as_dict`
pub record ExecutionDict : Type 0 where
  pub mode : Mode
  pub state : State
  pub lines : List Line
  pub verification : List LiveLine
  pub commands : List Text
  pub errors : List Text
  pub steps : List ExecutionStep

abbrev step_errors : List ExecutionStep → List Text
step_errors [] = []
step_errors (s ∷ ss) = elim (is_empty s.error) [
  | true ↦ step_errors ss
  | false ↦ s.error ∷ step_errors ss
]

unfoldable pub as_dict : ExecutionResult → ExecutionDict
as_dict r = record {
  mode = r.mode;
  state = r.state;
  lines = r.lines;
  verification = r.verification;
  commands = map (λ s. s.command) r.steps;
  errors = step_errors r.steps;
  steps = map (λ s. record { command = s.command; output = s.output; error = s.error }) r.steps;
}
