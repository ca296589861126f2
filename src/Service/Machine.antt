-- ===== src/Service/Machine.antt =====
-- The methods of `serviceData` (internals/overlord/servstate/handlers.go). A method takes what it
-- reads from outside (the time, the outcome of a system call) as arguments.
use buildtest.Base.{
  Bool, List, [], false, if◌then◌else◌, leb, min, none, some, true, ℕ, ◌++◌, ◌+◌, ◌==◌, ◌∷◌,
}
use buildtest.Service.Data.{
  Effect, Error, Outcome, ServiceAction, ServiceConfig, ServiceData, ServiceState, ServiceStatus,
  Signal, StartAttempt, active, after, backoff, backoff_reset, backoff_wait, cannot_start_while,
  command_failed, forward_logs, in_backoff, in_error, inactive, initial, kill_group, killing,
  launched, nil_process, okay_wait, parse_failed, restart, running, send_started, start_failed,
  starting, stopped, terminating, unset, user_failed,
}

-- The delays of handlers.go, in nanoseconds.
abbrev pub okay_delay : ℕ
okay_delay = 1_000_000_000

abbrev pub kill_delay_default : ℕ
kill_delay_default = 5_000_000_000

abbrev pub fail_delay : ℕ
fail_delay = 5_000_000_000

-- `stateToStatus`.
abbrev pub state_to_status : ServiceState → ServiceStatus
state_to_status starting = active
state_to_status running = active
state_to_status terminating = inactive
state_to_status killing = inactive
state_to_status stopped = inactive
state_to_status backoff = in_backoff
state_to_status _ = in_error

abbrev pub status_eq : ServiceStatus → ServiceStatus → Bool
status_eq active active = true
status_eq inactive inactive = true
status_eq in_backoff in_backoff = true
status_eq in_error in_error = true
status_eq _ _ = false

unfoldable pub transition_restarting : ℕ → ServiceState → Bool → ServiceData → ServiceData
transition_restarting now state restarting s = record s {
  state = state;
  restarting = restarting;
  current_since =
      if status_eq (state_to_status s.state) (state_to_status state) then s.current_since else now;
}

unfoldable pub transition : ℕ → ServiceState → ServiceData → ServiceData
unfolding transition_restarting
transition now state s = transition_restarting now state false s

unfoldable pub kill_delay : ServiceConfig → ℕ
kill_delay c = elim c.kill_delay [ none ↦ kill_delay_default | some d ↦ d ]

default_action : ServiceAction → ServiceAction
default_action unset = restart
default_action a = a

-- `getAction`: an action that is not set is `restart`.
unfoldable pub get_action : ServiceConfig → Bool → ServiceAction
unfolding default_action
get_action c success = default_action (if success then c.on_success else c.on_failure)

unfoldable pub calculate_next_backoff : ServiceConfig → ℕ → ℕ
calculate_next_backoff c current =
    if current == 0
    then c.backoff_delay
    else if leb c.backoff_limit current
    then c.backoff_limit
    else min (c.scale current) c.backoff_limit

-- `s.cmd.Process.Pid`, as the target of a signal.
abbrev pub signal_group : ServiceData → Signal → List Effect
signal_group s sig = elim s.process [ none ↦ nil_process ∷ [] | some pid ↦ kill_group pid sig ∷ [] ]

-- `startInternal`: the command, the start count and the reset timer; `none` is success. A command
-- that parses replaces `s.cmd`, whose process is nil until it runs.
unfoldable pub start_internal : StartAttempt → ServiceData → Outcome
start_internal parse_failed s = record {
  service = s;
  effects = [];
  error = some (start_failed parse_failed);
}
start_internal user_failed s = record {
  service = record s { process = none };
  effects = [];
  error = some (start_failed user_failed);
}
start_internal command_failed s = record {
  service = record s { process = none };
  effects = [];
  error = some (start_failed command_failed);
}
start_internal (launched pid) s = record {
  service = record s { process = some pid; reset_timer = true; start_count = s.start_count + 1 };
  effects = after s.config.backoff_limit backoff_reset ∷ forward_logs ∷ [];
  error = none;
}

-- Two kinds of answer that most methods give.
abbrev pub done : ServiceData → List Effect → Outcome
done s effects = record { service = s; effects = effects; error = none }

abbrev pub refused : ServiceData → Error → Outcome
refused s e = record { service = s; effects = []; error = some e }

started_outcome : ℕ → Outcome → Outcome
unfolding transition
started_outcome now o = elim o.error [
  | none ↦ record {
    service = transition now starting o.service;
    effects = o.effects ++ after okay_delay okay_wait ∷ [];
    error = none;
  }
  | some e ↦ record {
    service = transition now stopped o.service;
    effects = o.effects;
    error = some e;
  }
]

start_in : ServiceState → ℕ → StartAttempt → ServiceData → Outcome
unfolding started_outcome start_internal
start_in initial now attempt s = started_outcome now (start_internal attempt s)
start_in state now attempt s = refused s (cannot_start_while state)

unfoldable pub start : ℕ → StartAttempt → ServiceData → Outcome
unfolding start_in
start now attempt s = start_in s.state now attempt s

okay_wait_elapsed_in : ServiceState → ℕ → ServiceData → Outcome
unfolding transition
okay_wait_elapsed_in starting now s = done (transition now running s) (send_started none ∷ [])
okay_wait_elapsed_in _ now s = done s []

unfoldable pub okay_wait_elapsed : ℕ → ServiceData → Outcome
unfolding okay_wait_elapsed_in
okay_wait_elapsed now s = okay_wait_elapsed_in s.state now s

-- `doBackoff`, with the jitter that was drawn.
unfoldable pub do_backoff : ℕ → ℕ → ServiceData → Outcome
unfolding transition calculate_next_backoff
do_backoff now jitter s =
    let next = calculate_next_backoff s.config s.backoff_time in
    done
      (transition now backoff (record s { backoff_num = s.backoff_num + 1; backoff_time = next }))
      (after (next + jitter) backoff_wait ∷ [])
