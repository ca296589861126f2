-- ===== src/Service/Invariant.antt =====
-- What holds of a service between two events (internals/overlord/servstate/handlers.go).
use buildtest.Base.{
  Bool, List, [], arith, false, if◌then◌else◌, none, refl, true, ℕ, ◌<◌, ◌∷◌, ◌≡◌, ◌≢◌,
}
use buildtest.Service.Data.{
  Effect, ServiceAction, ServiceConfig, ServiceData, ServiceState, StartAttempt, Timer, killing,
  nil_process, running, starting, terminating,
}
use buildtest.Service.Machine.{start, state_to_status, status_eq}
use buildtest.Service.Methods.{check_failed, exit, send_signal, stop}
use buildtest.Service.Event.{
  Event, abort_start, check_failure, fire, lookup_for_start, lookup_for_stop, new_service,
  process_exit, run, service_for_start, service_for_stop, signal_request, start_aborted, start_call,
  step, stop_call, timer,
}

-- The states in which a process of the service is still to exit, as a test.
abbrev pub has_process : ServiceState → Bool
has_process starting = true
has_process running = true
has_process terminating = true
has_process killing = true
has_process _ = false

abbrev pub is_dying : ServiceState → Bool
is_dying terminating = true
is_dying killing = true
is_dying _ = false

-- A service that has a process to signal has its pid, and only a service that is being terminated
-- is marked for a restart.
pub record Inv (s : ServiceData) : Type 0 where
  pub pid_known : has_process s.state ≡ true → s.process ≢ none
  pub restart_dying : s.restarting ≡ true → is_dying s.state ≡ true
  pub counted : s.process ≢ none → 0 < s.start_count

pub new_service-Inv : (c : ServiceConfig) → Inv (new_service c)
unfolding new_service
new_service-Inv c = ground arith

lookup-Inv :
    (c : ServiceConfig) (now : ℕ) (s : ServiceData) → Inv s → Inv (service_for_start c now s).0
unfolding service_for_start
lookup-Inv c now s v = ground arith

start-Inv : (a : StartAttempt) (now : ℕ) (s : ServiceData) → Inv s → Inv (start now a s).service
unfolding start
start-Inv a now s v = ground arith

abort-Inv : (d : Bool) (now : ℕ) (s : ServiceData) → Inv s → Inv (start_aborted now d s).service
unfolding start_aborted
abort-Inv d now s v = ground arith

for_stop-Inv : (now : ℕ) (s : ServiceData) → Inv s → Inv (service_for_stop now s).0
unfolding service_for_stop
for_stop-Inv now s v = ground arith

stop-Inv : (now : ℕ) (s : ServiceData) → Inv s → Inv (stop now s).service
unfolding stop
stop-Inv now s v = ground arith

exit-Inv : (code now jitter : ℕ) (s : ServiceData) → Inv s → Inv (exit now jitter code s).service
unfolding exit
exit-Inv code now jitter s v = ground arith

fire-Inv :
    (t : Timer) (now : ℕ) (a : StartAttempt) (s : ServiceData)
    → Inv s
    → Inv (fire t now a s).service
unfolding fire
fire-Inv t now a s v = ground arith

check-Inv :
    (action : ServiceAction) (now jitter : ℕ) (s : ServiceData)
    → Inv s
    → Inv (check_failed action now jitter s).service
unfolding check_failed
check-Inv action now jitter s v = ground arith

signal-Inv : (sig : ℕ) (d : Bool) (s : ServiceData) → Inv s → Inv (send_signal sig d s).service
unfolding send_signal
signal-Inv sig d s v = ground arith

step-Inv :
    (e : Event) (now jitter : ℕ) (s : ServiceData) → Inv s → Inv (step e now jitter s).service
unfolding step
step-Inv (lookup_for_start c) now jitter s v = lookup-Inv c now s v
step-Inv (start_call a) now jitter s v = start-Inv a now s v
step-Inv (abort_start d) now jitter s v = abort-Inv d now s v
step-Inv lookup_for_stop now jitter s v = for_stop-Inv now s v
step-Inv stop_call now jitter s v = stop-Inv now s v
step-Inv (process_exit code) now jitter s v = exit-Inv code now jitter s v
step-Inv (timer t a) now jitter s v = fire-Inv t now a s v
step-Inv (check_failure action) now jitter s v = check-Inv action now jitter s v
step-Inv (signal_request sig d) now jitter s v = signal-Inv sig d s v

-- After any history of a new service: a service in state starting, running, terminating or killing
-- has the pid of a process, only a service that is terminating or killing is marked as restarting,
-- and a service with a pid was started at least once.
pub run-Inv : (es : List (Event × ℕ × ℕ)) (s : ServiceData) → Inv s → Inv (run es s)
unfolding run
run-Inv [] s v = v
run-Inv ((e, now, jitter) ∷ es) s v =
    run-Inv es (step e now jitter s).service (step-Inv e now jitter s v)

abbrev pub panics : List Effect → Bool
panics [] = false
panics (nil_process ∷ es) = true
panics (_ ∷ es) = panics es

-- The events that the daemon sends while it does not abort a start.
abbrev pub is_abort : Event → Bool
is_abort (abort_start d) = true
is_abort _ = false

-- No event but the abort of a start reads the pid of a process that is nil.
pub step-panics :
    (e : Event) (now jitter : ℕ) (s : ServiceData)
    → Inv s
    → is_abort e ≡ false
    → panics (step e now jitter s).effects ≡ false
unfolding step
step-panics (lookup_for_start c) now jitter s v h = refl
step-panics (start_call a) now jitter s v h = ground arith
step-panics (abort_start d) now jitter s v h = cc
step-panics lookup_for_stop now jitter s v h = refl
step-panics stop_call now jitter s v h = ground arith
step-panics (process_exit code) now jitter s v h = ground arith
step-panics (timer t a) now jitter s v h = ground arith
step-panics (check_failure action) now jitter s v h = ground arith
step-panics (signal_request sig d) now jitter s v h = ground arith

-- `current_since` is set to the time of an event exactly when the event changes the status that a
-- client sees.
pub step-current_since :
    (e : Event) (now jitter : ℕ) (s : ServiceData)
    → let s' = (step e now jitter s).service in
      s'.current_since ≡ (
        if status_eq (state_to_status s.state) (state_to_status s'.state)
        then s.current_since
        else now)
unfolding step
step-current_since (lookup_for_start c) now jitter s = ground arith
step-current_since (start_call a) now jitter s = ground arith
step-current_since (abort_start d) now jitter s = ground arith
step-current_since lookup_for_stop now jitter s = ground arith
step-current_since stop_call now jitter s = ground arith
step-current_since (process_exit code) now jitter s = ground arith
step-current_since (timer t a) now jitter s = ground arith
step-current_since (check_failure action) now jitter s = ground arith
step-current_since (signal_request sig d) now jitter s = ground arith
