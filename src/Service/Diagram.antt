-- ===== src/Service/Diagram.antt =====
-- The transition diagram of a service, apart from the code, and that the code follows it.
use buildtest.Base.{Bool, arith, refl, ℕ, ◌≡◌}
use buildtest.Service.Data.{
  ServiceAction, ServiceConfig, ServiceData, ServiceState, StartAttempt, Timer, backoff,
  backoff_wait, exited, initial, kill_wait, killing, launched, okay_wait, restart, running,
  starting, stopped, terminate_wait, terminating,
}
use buildtest.Service.Machine.{start}
use buildtest.Service.Methods.{check_failed, exit, send_signal, stop}
use buildtest.Service.Event.{
  Event, abort_start, check_failure, fire, lookup_for_start, lookup_for_stop, process_exit,
  service_for_start, service_for_stop, signal_request, start_aborted, start_call, step, stop_call,
  timer,
}

pub data IsLive : ServiceState → Type 0 where
  live_starting : IsLive starting
  live_running : IsLive running

pub data IsDying : ServiceState → Type 0 where
  dying_terminating : IsDying terminating
  dying_killing : IsDying killing

-- A process of the service is still to exit.
pub data HasProcess : ServiceState → Type 0 where
  of_live : {s : ServiceState} → IsLive s → HasProcess s
  of_dying : {s : ServiceState} → IsDying s → HasProcess s

pub data IsIdle : ServiceState → Type 0 where
  idle_backoff : IsIdle backoff
  idle_stopped : IsIdle stopped
  idle_exited : IsIdle exited

-- Which event leads from which state to which other.
pub data Edge : Event → ServiceState → ServiceState → Type 0 where
  stays : {e : Event} {s : ServiceState} → Edge e s s
  readied : {c : ServiceConfig} {s : ServiceState} → IsIdle s → Edge (lookup_for_start c) s initial
  launches : {p : ℕ} → Edge (start_call (launched p)) initial starting
  fails_to_launch : {a : StartAttempt} → Edge (start_call a) initial stopped
  aborts : {d : Bool} {s : ServiceState} → Edge (abort_start d) s stopped
  acknowledges : Edge lookup_for_stop exited stopped
  terminates : {s : ServiceState} → IsLive s → Edge stop_call s terminating
  gives_up_backoff : Edge stop_call backoff stopped
  quits : {c : ℕ} {s : ServiceState} → IsLive s → Edge (process_exit c) s exited
  quits_well : {c : ℕ} {s : ServiceState} → c ≡ 0 → IsLive s → Edge (process_exit c) s stopped
  backs_off : {c : ℕ} {s : ServiceState} → HasProcess s → Edge (process_exit c) s backoff
  ends : {c : ℕ} {s : ServiceState} → IsDying s → Edge (process_exit c) s stopped
  settles : {a : StartAttempt} → Edge (timer okay_wait a) starting running
  restarts : {p : ℕ} → Edge (timer backoff_wait (launched p)) backoff running
  kills : {a : StartAttempt} → Edge (timer terminate_wait a) terminating killing
  gives_up : {a : StartAttempt} → Edge (timer kill_wait a) killing stopped
  replaces : Edge (check_failure restart) running terminating
  revives : Edge (check_failure restart) exited backoff

ruleset marks = (
  live_starting, live_running, dying_terminating, dying_killing, of_live, of_dying, idle_backoff,
  idle_stopped, idle_exited,
)

ruleset edges = (
  marks, stays, readied, launches, fails_to_launch, aborts, acknowledges, terminates,
  gives_up_backoff, quits, quits_well, backs_off, ends, settles, restarts, kills, gives_up,
  replaces, revives,
)

lookup-Edge :
    (c : ServiceConfig) (st : ServiceState) (now : ℕ) (s : ServiceData)
    → s.state ≡ st
    → Edge (lookup_for_start c) st (service_for_start c now s).0.state
unfolding service_for_start
lookup-Edge c st now s e = grind (arith, edges)

start-Edge :
    (a : StartAttempt) (now : ℕ) (s : ServiceData)
    → Edge (start_call a) s.state (start now a s).service.state
unfolding start
start-Edge a now s = grind (arith, edges)

exit-Edge :
    (code now jitter : ℕ) (s : ServiceData)
    → Edge (process_exit code) s.state (exit now jitter code s).service.state
unfolding exit
exit-Edge code now jitter s = grind (arith, edges)

abort-Edge :
    (d : Bool) (now : ℕ) (s : ServiceData)
    → Edge (abort_start d) s.state (start_aborted now d s).service.state
unfolding start_aborted
abort-Edge d now s = grind (arith, edges)

for_stop-Edge :
    (now : ℕ) (s : ServiceData) → Edge lookup_for_stop s.state (service_for_stop now s).0.state
unfolding service_for_stop
for_stop-Edge now s = grind (arith, edges)

stop-Edge : (now : ℕ) (s : ServiceData) → Edge stop_call s.state (stop now s).service.state
unfolding stop
stop-Edge now s = grind (arith, edges)

fire-Edge :
    (t : Timer) (now : ℕ) (a : StartAttempt) (s : ServiceData)
    → Edge (timer t a) s.state (fire t now a s).service.state
unfolding fire
fire-Edge t now a s = grind (arith, edges)

check-Edge :
    (action : ServiceAction) (now jitter : ℕ) (s : ServiceData)
    → Edge (check_failure action) s.state (check_failed action now jitter s).service.state
unfolding check_failed
check-Edge action now jitter s = grind (arith, edges)

signal-Edge :
    (sig : ℕ) (d : Bool) (s : ServiceData)
    → Edge (signal_request sig d) s.state (send_signal sig d s).service.state
unfolding send_signal
signal-Edge sig d s = grind (arith, edges)

-- Every event, in every state, leads along an edge of the diagram, or leaves the state.
pub step-Edge :
    (e : Event) (now jitter : ℕ) (s : ServiceData)
    → Edge e s.state (step e now jitter s).service.state
unfolding step
step-Edge (lookup_for_start c) now jitter s = lookup-Edge c s.state now s refl
step-Edge (start_call a) now jitter s = start-Edge a now s
step-Edge (abort_start d) now jitter s = abort-Edge d now s
step-Edge lookup_for_stop now jitter s = for_stop-Edge now s
step-Edge stop_call now jitter s = stop-Edge now s
step-Edge (process_exit code) now jitter s = exit-Edge code now jitter s
step-Edge (timer t a) now jitter s = fire-Edge t now a s
step-Edge (check_failure action) now jitter s = check-Edge action now jitter s
step-Edge (signal_request sig d) now jitter s = signal-Edge sig d s
