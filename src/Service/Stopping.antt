-- ===== src/Service/Stopping.antt =====
-- Who gets an answer on the `stopped` channel, on which `doStop` waits
-- (internals/overlord/servstate/handlers.go).
use buildtest.Base.{
  List, Option, [], arith, false, if◌then◌else◌, not, some, suc, true, ℕ, ◌&&◌, ◌++◌, ◌+◌, ◌∷◌, ◌≡◌,
  ◌⊎◌,
}
use buildtest.Service.Data.{
  Effect, Error, ServiceData, ServiceState, StartAttempt, backoff, backoff_wait, kill_wait, killing,
  launched, running, send_stopped, starting, still_running, stopped, terminate_wait, terminating,
}
use buildtest.Service.Event.{
  Event, abort_start, already_stopping, check_failure, lookup_for_start, lookup_for_stop,
  process_exit, run, service_for_stop, signal_request, start_call, step, stop_call, timer,
}
use buildtest.Service.Invariant.{is_abort, is_dying}

-- How many answers a list of effects holds.
abbrev pub count_answers : List Effect → ℕ
count_answers [] = 0
count_answers (send_stopped r ∷ es) = suc (count_answers es)
count_answers (_ ∷ es) = count_answers es

-- A stop that was accepted and is not answered yet.
abbrev pub pending : ServiceData → ℕ
pending s = if is_dying s.state && not s.restarting then 1 else 0

abbrev pub accepts_stop : ServiceState → ℕ
accepts_stop starting = 1
accepts_stop running = 1
accepts_stop backoff = 1
accepts_stop _ = 0

-- Whether an event is a stop that is accepted.
abbrev pub accepted : Event → ServiceData → ℕ
accepted stop_call s = accepts_stop s.state
accepted _ s = 0

step-answers :
    (e : Event) (now jitter : ℕ) (s : ServiceData)
    → is_abort e ≡ false
    → let o = step e now jitter s in
      count_answers o.effects + pending o.service ≡ pending s + accepted e s
unfolding step
step-answers (lookup_for_start c) now jitter s h = ground arith
step-answers (start_call a) now jitter s h = ground arith
step-answers (abort_start d) now jitter s h = cc
step-answers lookup_for_stop now jitter s h = ground arith
step-answers stop_call now jitter s h = ground arith
step-answers (process_exit code) now jitter s h = ground arith
step-answers (timer t a) now jitter s h = ground arith
step-answers (check_failure action) now jitter s h = ground arith
step-answers (signal_request sig d) now jitter s h = ground arith

-- Answers and accepted stops over a history.
abbrev pub answers : List (Event × ℕ × ℕ) → ServiceData → ℕ
answers [] s = 0
answers ((e, now, jitter) ∷ es) s =
    let o = step e now jitter s in count_answers o.effects + answers es o.service

abbrev pub requests : List (Event × ℕ × ℕ) → ServiceData → ℕ
requests [] s = 0
requests ((e, now, jitter) ∷ es) s = accepted e s + requests es (step e now jitter s).service

abbrev pub NoAbort : List (Event × ℕ × ℕ) → Type 0
NoAbort [] = Unit {0}
NoAbort ((e, now, jitter) ∷ es) = (is_abort e ≡ false) × NoAbort es

-- In a history in which no start is aborted, the answers sent and the one that is still due at the
-- end are as many as the stops that were accepted and the one that was due at the beginning.
pub run-answers :
    (es : List (Event × ℕ × ℕ)) (s : ServiceData)
    → NoAbort es
    → answers es s + pending (run es s) ≡ pending s + requests es s
unfolding run
run-answers [] s h = omega arith
run-answers ((e, now, jitter) ∷ es) s h =
    omega (arith, step-answers e now jitter s h.0, run-answers es (step e now jitter s).service h.1)

-- The answers themselves, of a list of effects and of a history.
abbrev pub sent : List Effect → List (Option Error)
sent [] = []
sent (send_stopped r ∷ es) = r ∷ sent es
sent (_ ∷ es) = sent es

abbrev pub replies : List (Event × ℕ × ℕ) → ServiceData → List (Option Error)
replies [] s = []
replies ((e, now, jitter) ∷ es) s =
    let o = step e now jitter s in sent o.effects ++ replies es o.service

-- A stop of a service that is starting or running and whose process does not exit: after both
-- timers the service is stopped, and the one answer that was sent is that the process still runs.
pub stop_gives_up :
    (t₀ t₁ t₂ jitter : ℕ) (a b : StartAttempt) (s : ServiceData)
    → (s.state ≡ starting) ⊎ (s.state ≡ running)
    → let history : List (Event × ℕ × ℕ) =
        (stop_call, t₀, jitter)
        ∷ (timer terminate_wait a, t₁, jitter)
        ∷ (timer kill_wait b, t₂, jitter)
        ∷ [] in
      ((run history s).state ≡ stopped) × (replies history s ≡ some still_running ∷ [])
unfolding run step
stop_gives_up t₀ t₁ t₂ jitter a b s h = ground (arith, h)

-- While a service is being terminated or killed for a restart, a client's stop finds it stopping
-- already and changes nothing, and the service does not stay stopped: when the process exits and
-- the backoff timer starts a new one, the service runs with that process, and no answer about a
-- stop was sent.
pub stop_of_restarting :
    (t₀ t₁ t₂ jitter code pid : ℕ) (s : ServiceData)
    → (s.state ≡ terminating) ⊎ (s.state ≡ killing)
    → s.restarting ≡ true
    → let history : List (Event × ℕ × ℕ) =
        (lookup_for_stop, t₀, jitter)
        ∷ (process_exit code, t₁, jitter)
        ∷ (timer backoff_wait (launched pid), t₂, jitter)
        ∷ [] in
      (service_for_stop t₀ s ≡ (s, already_stopping))
      × ((run history s).state ≡ running)
      × ((run history s).process ≡ some pid)
      × (replies history s ≡ [])
unfolding run step
stop_of_restarting t₀ t₁ t₂ jitter code pid s h k = ground (arith, h)
