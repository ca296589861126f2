-- ===== src/Service/Methods.antt =====
-- The methods of `serviceData` that react to the process, to a client and to timers
-- (internals/overlord/servstate/handlers.go).
use buildtest.Base.{
  Bool, List, Option, [], false, if◌then◌else◌, none, some, true, ℕ, ◌++◌, ◌==◌, ◌∷◌,
}
use buildtest.Service.Data.{
  Effect, Outcome, ServiceAction, ServiceData, ServiceState, StartAttempt, after, backoff,
  cannot_stop_while, exited, exited_invalid, exited_quickly, failure_shutdown, handle_restart,
  ignore, initial, invalid_in_state, invalid_signal, kill_failed, kill_process, kill_wait, killing,
  named, nil_process, not_running, restart, restart_check_failure, restart_daemon,
  restart_service_failure, running, send_started, send_stopped, shutdown, sigkill, sigterm,
  starting, still_running, stop_reset_timer, stopped, stopped_before_okay, success_shutdown,
  terminate_wait, terminating, unexpected_action,
}
use buildtest.Service.Machine.{
  do_backoff, done, fail_delay, get_action, kill_delay, refused, signal_group, start_internal,
  transition, transition_restarting,
}

-- The action of an unexpected exit, in states starting and running.
exit_action : ServiceAction → ℕ → ℕ → ℕ → ServiceData → Outcome
unfolding transition do_backoff
exit_action ignore now jitter code s =
    if code == 0 then done (transition now stopped s) [] else done (transition now exited s) []
exit_action shutdown now jitter code s =
    done (transition now exited s)
      (handle_restart (if code == 0 then restart_daemon else restart_service_failure) ∷ [])
exit_action success_shutdown now jitter code s =
    done (transition now exited s) (handle_restart restart_daemon ∷ [])
exit_action failure_shutdown now jitter code s =
    done (transition now exited s) (handle_restart restart_service_failure ∷ [])
exit_action restart now jitter code s = do_backoff now jitter s
exit_action a now jitter code s = refused s (unexpected_action a)

abbrev add_effects : List Effect → Outcome → Outcome
add_effects before o = record o { effects = before ++ o.effects }

exited_in : ServiceState → ℕ → ℕ → ℕ → ServiceData → Outcome
unfolding exit_action get_action do_backoff transition
exited_in starting now jitter code s =
    let action = get_action s.config (code == 0) in
    add_effects (send_started (some (exited_quickly code action)) ∷ [])
      (exit_action action now jitter code s)
exited_in running now jitter code s =
    exit_action (get_action s.config (code == 0)) now jitter code s
exited_in terminating now jitter code s =
    if s.restarting
    then do_backoff now jitter s
    else done (transition now stopped s) (send_stopped none ∷ [])
exited_in killing now jitter code s =
    if s.restarting
    then do_backoff now jitter s
    else done (transition now stopped s) (send_stopped none ∷ [])
exited_in stopped now jitter code s = done s []
exited_in state now jitter code s = refused s (exited_invalid state)

-- `exited`: the reset timer is stopped first, if there is one.
unfoldable pub exit : ℕ → ℕ → ℕ → ServiceData → Outcome
unfolding exited_in
exit now jitter code s =
    add_effects (if s.reset_timer then stop_reset_timer ∷ [] else [])
      (exited_in s.state now jitter code s)

-- SIGTERM and the wait for its effect, the common part of `stop` and `checkFailed`.
terminate : ℕ → Bool → List Effect → ServiceData → Outcome
unfolding transition_restarting kill_delay
terminate now restarting before s =
    done (transition_restarting now terminating restarting s)
      (before ++ (signal_group s sigterm ++ after (kill_delay s.config) terminate_wait ∷ []))

stop_in : ServiceState → ℕ → ServiceData → Outcome
unfolding terminate transition
stop_in starting now s = terminate now false (send_started (some stopped_before_okay) ∷ []) s
stop_in running now s = terminate now false [] s
stop_in backoff now s = done (transition now stopped s) (send_stopped none ∷ [])
stop_in state now s = refused s (cannot_stop_while state)

unfoldable pub stop : ℕ → ServiceData → Outcome
unfolding stop_in
stop now s = stop_in s.state now s

-- After a failed start the service is left as `startInternal` left it.
restart_outcome : ℕ → Outcome → Outcome
unfolding transition
restart_outcome now o = elim o.error [
  | none ↦ record o { service = transition now running o.service }
  | some e ↦ o
]

backoff_time_elapsed_in : ServiceState → ℕ → StartAttempt → ServiceData → Outcome
unfolding restart_outcome start_internal
backoff_time_elapsed_in backoff now attempt s = restart_outcome now (start_internal attempt s)
backoff_time_elapsed_in _ now attempt s = done s []

unfoldable pub backoff_time_elapsed : ℕ → StartAttempt → ServiceData → Outcome
unfolding backoff_time_elapsed_in
backoff_time_elapsed now attempt s = backoff_time_elapsed_in s.state now attempt s

terminate_time_elapsed_in : ServiceState → ℕ → ServiceData → Outcome
unfolding transition_restarting
terminate_time_elapsed_in terminating now s =
    done (transition_restarting now killing s.restarting s)
      (signal_group s sigkill ++ after fail_delay kill_wait ∷ [])
terminate_time_elapsed_in _ now s = done s []

unfoldable pub terminate_time_elapsed : ℕ → ServiceData → Outcome
unfolding terminate_time_elapsed_in
terminate_time_elapsed now s = terminate_time_elapsed_in s.state now s

kill_time_elapsed_in : ServiceState → ℕ → ServiceData → Outcome
unfolding transition
kill_time_elapsed_in killing now s =
    done (transition now stopped s)
      (if s.restarting then [] else send_stopped (some still_running) ∷ [])
kill_time_elapsed_in _ now s = done s []

unfoldable pub kill_time_elapsed : ℕ → ServiceData → Outcome
unfolding kill_time_elapsed_in
kill_time_elapsed now s = kill_time_elapsed_in s.state now s

backoff_reset_elapsed_in : ServiceState → ServiceData → Outcome
backoff_reset_elapsed_in running s = done (record s { backoff_num = 0; backoff_time = 0 }) []
backoff_reset_elapsed_in _ s = done s []

unfoldable pub backoff_reset_elapsed : ServiceData → Outcome
unfolding backoff_reset_elapsed_in
backoff_reset_elapsed s = backoff_reset_elapsed_in s.state s

check_restart : ServiceState → ℕ → ℕ → ServiceData → Outcome
unfolding terminate do_backoff
check_restart running now jitter s = terminate now true [] s
check_restart exited now jitter s = do_backoff now jitter s
check_restart _ now jitter s = done s []

check_action : ServiceAction → ℕ → ℕ → ServiceData → Outcome
unfolding check_restart
check_action shutdown now jitter s = done s (handle_restart restart_check_failure ∷ [])
check_action success_shutdown now jitter s = done s (handle_restart restart_daemon ∷ [])
check_action restart now jitter s = check_restart s.state now jitter s
check_action _ now jitter s = done s []

check_failed_in : ServiceState → ServiceAction → ℕ → ℕ → ServiceData → Outcome
unfolding check_action
check_failed_in running action now jitter s = check_action action now jitter s
check_failed_in backoff action now jitter s = check_action action now jitter s
check_failed_in exited action now jitter s = check_action action now jitter s
check_failed_in _ action now jitter s = done s []

-- `checkFailed`; an action with no case of its own is only logged.
unfoldable pub check_failed : ServiceAction → ℕ → ℕ → ServiceData → Outcome
unfolding check_failed_in
check_failed action now jitter s = check_failed_in s.state action now jitter s

-- `syscall.Kill` on the process alone, and its result.
deliver : Option ℕ → ℕ → Bool → ServiceData → Outcome
deliver none sig delivered s = done s (nil_process ∷ [])
deliver (some pid) sig delivered s = record {
  service = s;
  effects = kill_process pid (named sig) ∷ [];
  error = if delivered then none else some kill_failed;
}

send_signal_in : ServiceState → ℕ → Bool → ServiceData → Outcome
unfolding deliver
send_signal_in starting sig delivered s =
    if sig == 0 then refused s invalid_signal else deliver s.process sig delivered s
send_signal_in running sig delivered s =
    if sig == 0 then refused s invalid_signal else deliver s.process sig delivered s
send_signal_in initial sig delivered s = refused s (invalid_in_state initial)
send_signal_in _ sig delivered s = refused s not_running

-- `sendSignal`, of the number that the signal's name stands for (0 for an unknown name).
unfoldable pub send_signal : ℕ → Bool → ServiceData → Outcome
unfolding send_signal_in
send_signal sig delivered s = send_signal_in s.state sig delivered s
