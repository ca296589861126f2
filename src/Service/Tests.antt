-- ===== src/Service/Tests.antt =====
-- Runs of the service's state machine, and the theorems at concrete inputs.
use buildtest.Base.{
  List, [], arith, false, inl, inr, min, none, refl, some, true, ℕ, ◌+◌, ◌<◌, ◌∷◌, ◌≡◌, ◌≤◌,
}
use buildtest.Service.Data.{
  ServiceConfig, ServiceData, backoff_wait, kill_wait, launched, okay_wait, parse_failed, restart,
  running, still_running, stopped, terminate_wait, terminating, unset,
}
use buildtest.Service.Event.{
  Event, already_stopping, new_service, process_exit, run, service_for_stop, start_call, step,
  stop_call, timer,
}
use buildtest.Service.Diagram.{Edge, step-Edge}
use buildtest.Service.Invariant.{
  Inv, new_service-Inv, panics, run-Inv, step-current_since, step-panics,
}
use buildtest.Service.Stopping.{
  answers, pending, replies, requests, run-answers, stop_gives_up, stop_of_restarting,
}
use buildtest.Service.Crashes.{Crash, armed_in, crash_history, crash_rounds_lem, due}
use buildtest.Service.Backoff.{nth_backoff, nth_backoff_reaches}

-- Factor 2, first delay 1, limit 5; nothing is set but these.
abbrev doubling : ServiceConfig
doubling = record {
  on_success = unset;
  on_failure = restart;
  backoff_delay = 1;
  backoff_limit = 5;
  scale = λ d. d + d;
  kill_delay = none;
}

abbrev idle : ServiceData
idle = new_service doubling

abbrev life : List (Event × ℕ × ℕ)
life =
    (start_call (launched 7), 10, 0)
    ∷ (timer okay_wait parse_failed, 20, 0)
    ∷ (process_exit 1, 30, 0)
    ∷ (timer backoff_wait (launched 8), 40, 0)
    ∷ (stop_call, 50, 0)
    ∷ (process_exit 0, 60, 0)
    ∷ []

life_ends : (run life idle).state ≡ stopped
unfolding run step new_service
life_ends = refl

life_answered : answers life idle ≡ 1
unfolding run step new_service
life_answered = refl

-- A service that runs, and one that is being replaced after a failed check.
abbrev busy : ServiceData
busy = record {
  state = running;
  config = doubling;
  process = some 7;
  backoff_num = 0;
  backoff_time = 0;
  reset_timer = true;
  restarting = false;
  current_since = 10;
  start_count = 1;
}

abbrev replaced : ServiceData
replaced = record busy { state = terminating; restarting = true }

busy-Inv : Inv busy
busy-Inv = ground arith

step-Edge_example : Edge (process_exit 1) running (step (process_exit 1) 30 0 busy).service.state
step-Edge_example = step-Edge (process_exit 1) 30 0 busy

run-Inv_example : Inv (run life idle)
run-Inv_example = run-Inv life idle (new_service-Inv doubling)

step-panics_example : panics (step stop_call 30 0 busy).effects ≡ false
step-panics_example = step-panics stop_call 30 0 busy busy-Inv refl

step-current_since_example : (step stop_call 30 0 busy).service.current_since ≡ 30
unfolding step
step-current_since_example = step-current_since stop_call 30 0 busy

run-answers_example :
    answers life idle + pending (run life idle) ≡ pending idle + requests life idle
unfolding run step new_service
run-answers_example = run-answers life idle (refl, (refl, (refl, (refl, (refl, (refl, tt))))))

abbrev abandoned : List (Event × ℕ × ℕ)
abandoned =
    (stop_call, 1, 0)
    ∷ (timer terminate_wait parse_failed, 2, 0)
    ∷ (timer kill_wait parse_failed, 3, 0)
    ∷ []

stop_gives_up_example :
    ((run abandoned busy).state ≡ stopped) × (replies abandoned busy ≡ some still_running ∷ [])
stop_gives_up_example = stop_gives_up 1 2 3 0 parse_failed parse_failed busy (inr refl)

stop_of_restarting_example : service_for_stop 1 replaced ≡ (replaced, already_stopping)
stop_of_restarting_example = (stop_of_restarting 1 2 3 0 0 9 replaced (inl refl) refl).0

doubles_strictly :
    (d : ℕ) → doubling.backoff_delay ≤ d → d < doubling.backoff_limit → d < doubling.scale d
doubles_strictly d l h = omega arith

nth_backoff_reaches_example :
    (nth_backoff doubling 4 ≤ nth_backoff doubling 5)
    × (nth_backoff doubling 4 ≤ doubling.backoff_limit)
    × (min 5 doubling.backoff_limit ≤ nth_backoff doubling 4)
nth_backoff_reaches_example =
    nth_backoff_reaches doubling (omega arith) doubles_strictly (omega arith) (omega arith) 4

abbrev crash : ℕ → ℕ → Crash
crash code jitter = record {
  code = code;
  pid = 9;
  exit_time = 4;
  exit_jitter = jitter;
  timer_time = 6;
  timer_jitter = 1;
}

abbrev two_crashes : List Crash
two_crashes = crash 1 30 ∷ crash 7 20 ∷ []

crash_rounds_lem_example :
    let s' = run (crash_history two_crashes) busy in
    (s'.state ≡ running)
    × (s'.backoff_num ≡ 2)
    × (s'.start_count ≡ busy.start_count + 2)
    × (armed_in (crash_history two_crashes) busy ≡ due busy.config 0 two_crashes)
crash_rounds_lem_example =
    crash_rounds_lem two_crashes busy refl (inl refl) (omega arith, (omega arith, tt)) refl refl
      (omega arith) (omega arith) (λ d l h. omega arith)
