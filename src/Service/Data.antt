-- ===== src/Service/Data.antt =====
-- The data of a service's state machine (internals/overlord/servstate/handlers.go): states, actions,
-- configuration, and what a method does besides changing the service.
use buildtest.Base.{Bool, List, Option, ℕ}

-- `serviceState`.
pub data ServiceState : Type 0 where
  initial starting running terminating killing stopped backoff exited : ServiceState

-- `plan.ServiceAction`; `other` stands for a string that is none of the constants.
pub data ServiceAction : Type 0 where
  unset restart shutdown success_shutdown failure_shutdown ignore other : ServiceAction

-- `ServiceStatus`, what a client sees of a state.
pub data ServiceStatus : Type 0 where
  active inactive in_backoff in_error : ServiceStatus

-- The fields of `plan.Service` that the state machine reads. Durations are nanoseconds, not below 0.
-- `scale d` is `d` times the backoff factor, rounded and cut to whole nanoseconds as the source's floats
-- are. A product that does not fit an int64, which a conversion there makes negative, is left out.
pub record ServiceConfig : Type 0 where
  pub on_success : ServiceAction
  pub on_failure : ServiceAction
  pub backoff_delay : ℕ
  pub backoff_limit : ℕ
  pub scale : ℕ → ℕ
  pub kill_delay : Option ℕ

-- `serviceData`. `process` is the pid of `cmd.Process`, `none` while that is nil; `reset_timer` says
-- whether the reset timer was ever set.
pub record ServiceData : Type 0 where
  pub state : ServiceState
  pub config : ServiceConfig
  pub process : Option ℕ
  pub backoff_num : ℕ
  pub backoff_time : ℕ
  pub reset_timer : Bool
  pub restarting : Bool
  pub current_since : ℕ
  pub start_count : ℕ

-- Where starting a process ends: the command does not parse, its user is unknown, it cannot be
-- executed, or it runs under a pid.
pub data StartAttempt : Type 0 where
  parse_failed user_failed command_failed : StartAttempt
  launched : ℕ → StartAttempt

pub data Error : Type 0 where
  start_failed : StartAttempt → Error
  cannot_start_while cannot_stop_while invalid_in_state exited_invalid : ServiceState → Error
  exited_quickly : ℕ → ServiceAction → Error
  stopped_before_okay still_running not_running invalid_signal kill_failed : Error
  start_abort_sent start_abort_kill_failed : Error
  unexpected_action : ServiceAction → Error

pub data Signal : Type 0 where
  sigterm sigkill : Signal
  named : ℕ → Signal

-- The methods that a timer calls when it fires.
pub data Timer : Type 0 where
  okay_wait backoff_wait terminate_wait kill_wait backoff_reset : Timer

-- `restart.RestartType`, as far as services ask for one.
pub data RestartType : Type 0 where
  restart_daemon restart_service_failure restart_check_failure : RestartType

-- What a method does outside the service, in its order: sends on the two channels, signals, timers,
-- the daemon's shutdown, and the hand-over to the log manager. `nil_process` is the panic of reading
-- the pid of a process that was never started.
pub data Effect : Type 0 where
  send_started send_stopped : Option Error → Effect
  kill_group kill_process : ℕ → Signal → Effect
  nil_process stop_reset_timer forward_logs : Effect
  after : ℕ → Timer → Effect
  handle_restart : RestartType → Effect

-- What a method leaves behind.
pub record Outcome : Type 0 where
  pub service : ServiceData
  pub effects : List Effect
  pub error : Option Error
