-- ===== src/Execute/Device.antt =====
-- Applying a change and undoing it: apps/api/app/execute/device.py, with the write session of
-- execute/session.py and the dry run of execute/dryrun.py.
pub mod Safety
pub mod Tests
pub mod Narrative
use zero_node.Prelude.{
  ℕ, Bool, true, false, not, ◌&&◌, ◌||◌, Option, none, some, List, [], ◌∷◌, ◌++◌, map, reverse,
  is_empty, if◌then◌else◌,
}
use zero_node.Prelude.Text.{Text, codes, one_of, strip}
use zero_node.Firewall.Policy.{AclRule}
use zero_node.Execute.Base.{
  Action, Flow, Why, sending_failed, verification_failed, Line, logged_only, refused_because,
  confirmed, rolling_back, rollback_disabled, rendered, rollback_also_failed,
  back_in_previous_state, not_in_previous_state, LiveLine, State, ExecutionStep, Mode,
  ExecutionResult,
}
use zero_node.Execute.Render.{rendered_for}
use zero_node.Execute.Session.{screen}
use zero_node.Execute.Guard.{check}
use zero_node.Execute.Live.{LiveReport, verify_applied, verify_reverted}

-- What the transport made of a configuration push: the device's transcript, or an exception with its
-- text; either way the devices may have changed.
pub data Push (W : Type 0) : Type 0 where
  accepted rejected : Text → W → Push W

-- The transport (netmiko) and the devices behind it. `open_session` is the session factory, with
-- the text of the exception that it raises; reading a policy changes nothing on a device.
pub record Devices : Type 1 where
  pub World : Type 0
  pub open_session : World → Text → Option Text
  pub push : World → Text → List Text → Push World
  pub read : World → Text → Option (List AclRule)

pub data Event : Type 0 where
  opened closed : Text → Event
  sent : Text → List Text → Event

-- `sessions` are the devices in `self._sessions`; the trace has the latest event first.
pub record Site (W : Type 0) : Type 0 where
  pub world : W
  pub sessions : List Text
  pub trace : List Event

pub data Sent : Type 0 where
  output failure : Text → Sent

pub data Pushed : Type 0 where
  all_sent : List ExecutionStep → Pushed
  send_failed : List ExecutionStep → Text → Text → Pushed
  push_raised : Pushed

pub data Undo : Type 0 where
  all_undone : List Line → List ExecutionStep → Undo
  undo_failed : List Line → List ExecutionStep → Text → Text → Undo
  undo_raised : Undo

-- `raised` is an exception that leaves `apply`.
pub data Outcome : Type 0 where
  finished : ExecutionResult → Outcome
  raised : Outcome

abbrev pub join_lines : List Text → Text
join_lines [] = []
join_lines (l ∷ []) = l
join_lines (l ∷ m ∷ ls) = l ++ (codes "; " ++ join_lines (m ∷ ls))

abbrev pub step_ok : Text → Text → ExecutionStep
step_ok command out = record { command = command; output = out; error = [] }

abbrev pub step_failed : Text → Text → ExecutionStep
step_failed command error = record { command = command; output = []; error = error }

pub result : State → List Line → List ExecutionStep → List LiveLine → ExecutionResult
result state lines steps verification = record {
  mode = Mode.device;
  state = state;
  lines = lines;
  steps = steps;
  verification = verification;
}

abbrev logged_steps : List Action → List ExecutionStep
logged_steps [] = []
logged_steps (a ∷ as_) =
    let rest = logged_steps as_ in
    if is_empty (strip a.command) then rest else step_ok (strip a.command) [] ∷ rest

-- `DryRunExecutor.apply`
pub dry_run : List Action → ExecutionResult
dry_run actions = record {
  mode = Mode.dry_run;
  state = State.logged;
  lines = logged_only ∷ [];
  steps = logged_steps actions;
  verification = [];
}

module _ (d : Devices) (platform : Text) where
  open d use {World, open_session, push, read}

  abbrev pub S : Type 0
  S = Site World

  abbrev pushed_to : Text → List Text → S → Push World → Sent × S
  pushed_to device lines s (accepted out w) =
      (output out, record s { world = w; trace = sent device lines ∷ s.trace })
  pushed_to device lines s (rejected error w) =
      (failure error, record s { world = w; trace = sent device lines ∷ s.trace })

  -- `ConfigSession.send_config`: the screen, and then the push.
  pub send_config : Text → List Text → S → Sent × S
  send_config device lines s = elim (screen lines) [
    | some (command, word) ↦ (
      failure (
          codes "refusing to send '"
          ++ (command ++ (codes "': contains '" ++ (word ++ codes "'")))),
      s,
    )
    | none ↦ pushed_to device lines s (push s.world device lines)
  ]

  -- `self._session(device).send_config(lines)`
  pub send : Text → List Text → S → Sent × S
  unfolding send_config
  send device lines s = elim (one_of s.sessions device) [
    | true ↦ send_config device lines s
    | false ↦ elim (open_session s.world device) [
      | some error ↦ (failure error, s)
      | none ↦
          send_config device lines
            (record s { sessions = s.sessions ++ device ∷ []; trace = opened device ∷ s.trace })
    ]
  ]

  pub push_actions : List Action → List ExecutionStep → S → Pushed × S
  push_actions [] steps s = (all_sent steps, s)
  push_actions (a ∷ as_) steps s = elim (rendered_for a platform false) [
    | none ↦ (push_raised, s)
    | some lines ↦
        let (r, s') = send a.device lines s in
        elim r [
          | output out ↦ push_actions as_ (steps ++ step_ok (join_lines lines) out ∷ []) s'
          | failure error ↦ (
            send_failed (steps ++ step_failed (join_lines lines) error ∷ []) (join_lines lines)
                error,
            s',
          )
        ]
  ]

  -- The loop of `_revert` over the reversed actions. Its `lines` is the same variable as the
  -- message that `_revert` begins with.
  pub undo_actions : List Action → List Line → List ExecutionStep → S → Undo × S
  undo_actions [] message steps s = (all_undone message steps, s)
  undo_actions (a ∷ as_) message steps s = elim (rendered_for a platform true) [
    | none ↦ (undo_raised, s)
    | some [] ↦ undo_actions as_ [] steps s
    | some (l ∷ ls) ↦
        let (r, s') = send a.device (l ∷ ls) s in
        elim r [
          | output out ↦
              undo_actions as_ (map rendered (l ∷ ls))
                (steps ++ step_ok (join_lines (l ∷ ls)) out ∷ []) s'
          | failure error ↦ (
            undo_failed (map rendered (l ∷ ls))
                (steps ++ step_failed (join_lines (l ∷ ls)) error ∷ []) a.device error,
            s',
          )
        ]
  ]

  abbrev after_undo : List LiveLine → List Line → List ExecutionStep → Option LiveReport → Outcome
  after_undo verification message steps none = raised
  after_undo verification message steps (some r) = finished (
      if r.valid
      then result State.rolled_back (message ++ back_in_previous_state ∷ []) steps
          (verification ++ r.lines)
      else result State.rollback_failed (message ++ not_in_previous_state ∷ []) steps
          (verification ++ r.lines))

  pub conclude_undo : List Action → List Flow → List LiveLine → Undo × S → Outcome × S
  unfolding result
  conclude_undo actions flows verification (undo_raised, s) = (raised, s)
  conclude_undo actions flows verification (undo_failed message steps device error, s) = (
    finished (
        result State.rollback_failed (message ++ rollback_also_failed device error ∷ []) steps
          verification),
    s,
  )
  conclude_undo actions flows verification (all_undone message steps, s) =
      (after_undo verification message steps (verify_reverted (read s.world) actions flows), s)

  pub revert :
      Bool → List Action → List Flow → List ExecutionStep → Why → List LiveLine → S → Outcome × S
  unfolding conclude_undo
  revert auto_rollback actions flows steps why verification s =
      if auto_rollback
      then conclude_undo actions flows verification
          (undo_actions (reverse actions) (rolling_back why ∷ []) steps s)
      else (
        finished (result State.rollback_failed (rollback_disabled why ∷ []) steps verification),
        s,
      )

  pub after_push : Bool → List Action → List Flow → Pushed × S → Outcome × S
  unfolding revert
  after_push auto_rollback actions flows (push_raised, s) = (raised, s)
  after_push auto_rollback actions flows (send_failed steps command error, s) =
      revert auto_rollback actions flows steps (sending_failed command error) [] s
  after_push auto_rollback actions flows (all_sent steps, s) =
      elim (verify_applied (read s.world) actions flows) [
        | none ↦ (raised, s)
        | some live ↦
            if live.valid
            then (finished (result State.applied (confirmed ∷ []) steps live.lines), s)
            else revert auto_rollback actions flows steps verification_failed live.lines s
      ]

  abbrev close_events : List Text → List Event → List Event
  close_events [] trace = trace
  close_events (device ∷ devices) trace = close_events devices (closed device ∷ trace)

  -- The `finally` block.
  pub close_all : Outcome × S → Outcome × S
  close_all (o, s) = (o, record s { sessions = []; trace = close_events s.sessions s.trace })

  -- `DeviceExecutor.apply`
  pub apply : Bool → List Text → List Action → List Flow → S → Outcome × S
  unfolding after_push close_all
  apply auto_rollback devices actions flows s = elim (check actions flows devices) [
    | why ∷ whys ↦ (finished (result State.refused (refused_because (why ∷ whys) ∷ []) [] []), s)
    | [] ↦ close_all (
        after_push auto_rollback actions flows
          (push_actions actions [] (record s { sessions = [] })))
  ]
