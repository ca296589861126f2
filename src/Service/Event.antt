-- ===== src/Service/Event.antt =====
-- All that can happen to a service, as one step: the calls of its methods with what they read, and
-- the part of `serviceForStart`, `serviceForStop` and `doStart` that changes an existing service
-- (internals/overlord/servstate/handlers.go).
use buildtest.Base.{Bool, List, [], false, if◌then◌else◌, none, some, true, ℕ, ◌∷◌}
use buildtest.Service.Data.{
  Outcome, ServiceAction, ServiceConfig, ServiceData, ServiceState, StartAttempt, Timer,
  backoff_reset, backoff_wait, exited, initial, kill_wait, killing, okay_wait, running, sigkill,
  start_abort_kill_failed, start_abort_sent, starting, stopped, terminate_wait, terminating,
}
use buildtest.Service.Machine.{done, okay_wait_elapsed, signal_group, start, transition}
use buildtest.Service.Methods.{
  backoff_reset_elapsed, backoff_time_elapsed, check_failed, exit, kill_time_elapsed, send_signal,
  stop, terminate_time_elapsed,
}

-- `serviceForStart` on a service that exists: the plan's configuration is copied in, and the service
-- is given back unless it is started already.
reset_for_start : ServiceState → ℕ → ServiceData → ServiceData × Bool
unfolding transition
reset_for_start initial now s = (s, false)
reset_for_start starting now s = (s, false)
reset_for_start running now s = (s, false)
reset_for_start terminating now s = (s, true)
reset_for_start killing now s = (s, true)
reset_for_start _ now s =
    (transition now initial (record s { backoff_num = 0; backoff_time = 0 }), true)

unfoldable pub service_for_start : ServiceConfig → ℕ → ServiceData → ServiceData × Bool
unfolding reset_for_start
service_for_start config now s = reset_for_start s.state now (record s { config = config })

-- What `serviceForStop` gives back: the service, to be stopped, or nil with a message.
pub data StopAnswer : Type 0 where
  to_stop already_stopping already_stopped had_exited : StopAnswer

for_stop_in : ServiceState → ℕ → ServiceData → ServiceData × StopAnswer
unfolding transition
for_stop_in terminating now s = (s, already_stopping)
for_stop_in killing now s = (s, already_stopping)
for_stop_in stopped now s = (s, already_stopped)
for_stop_in exited now s = (transition now stopped s, had_exited)
for_stop_in _ now s = (s, to_stop)

-- `serviceForStop` on a service that exists.
unfoldable pub service_for_stop : ℕ → ServiceData → ServiceData × StopAnswer
unfolding for_stop_in
service_for_stop now s = for_stop_in s.state now s

-- The branch of `doStart` that is taken when the start is aborted.
unfoldable pub start_aborted : ℕ → Bool → ServiceData → Outcome
unfolding transition
start_aborted now delivered s = record {
  service = transition now stopped s;
  effects = signal_group s sigkill;
  error = some (if delivered then start_abort_sent else start_abort_kill_failed);
}

-- `serviceForStart` on a name with no service.
unfoldable pub new_service : ServiceConfig → ServiceData
new_service config = record {
  state = initial;
  config = config;
  process = none;
  backoff_num = 0;
  backoff_time = 0;
  reset_timer = false;
  restarting = false;
  current_since = 0;
  start_count = 0;
}

pub data Event : Type 0 where
  lookup_for_start : ServiceConfig → Event
  start_call : StartAttempt → Event
  abort_start : Bool → Event
  lookup_for_stop : Event
  stop_call : Event
  process_exit : ℕ → Event
  timer : Timer → StartAttempt → Event
  check_failure : ServiceAction → Event
  signal_request : ℕ → Bool → Event

unfoldable pub fire : Timer → ℕ → StartAttempt → ServiceData → Outcome
unfolding okay_wait_elapsed backoff_time_elapsed terminate_time_elapsed kill_time_elapsed
    backoff_reset_elapsed
fire okay_wait now attempt s = okay_wait_elapsed now s
fire backoff_wait now attempt s = backoff_time_elapsed now attempt s
fire terminate_wait now attempt s = terminate_time_elapsed now s
fire kill_wait now attempt s = kill_time_elapsed now s
fire backoff_reset now attempt s = backoff_reset_elapsed s

-- One event at a time, since each method runs under `servicesLock`. The two halves of `doStart` and
-- of `doStop` are events of their own: the lock is free between them.
unfoldable pub step : Event → ℕ → ℕ → ServiceData → Outcome
unfolding service_for_start start start_aborted service_for_stop stop exit fire check_failed
    send_signal
step (lookup_for_start config) now jitter s = done (service_for_start config now s).0 []
step (start_call attempt) now jitter s = start now attempt s
step (abort_start delivered) now jitter s = start_aborted now delivered s
step lookup_for_stop now jitter s = done (service_for_stop now s).0 []
step stop_call now jitter s = stop now s
step (process_exit code) now jitter s = exit now jitter code s
step (timer t attempt) now jitter s = fire t now attempt s
step (check_failure action) now jitter s = check_failed action now jitter s
step (signal_request sig delivered) now jitter s = send_signal sig delivered s

-- A history: each event with the time and the jitter that were read.
unfoldable pub run : List (Event × ℕ × ℕ) → ServiceData → ServiceData
unfolding step
run [] s = s
run ((e, now, jitter) ∷ es) s = run es (step e now jitter s).service
