-- ===== src/Plan/Data.antt =====
-- What a plan is made of (internals/plan/plan.go, types.go): services, health checks, log targets and
-- layers. A Go map that is only looked up is a function into Option (an absent map is the empty one),
-- and a map that is ranged over is the list of its entries in the order of one such pass. The enums
-- are strings in Go: each has a constructor for the values that it does not know. A factor is a
-- number of some type, since there are no floats. Ports, users and groups are not negative here.
use buildtest.Base.Int.{ℤ}
use buildtest.Base.{Bool, List, Option, String, ℕ}

abbrev pub Table {ℓ} : Type ℓ → Type ℓ
Table V = String → Option V

-- `OptionalDuration` (in nanoseconds) and `OptionalFloat`.
pub record Optional {ℓ} (V : Type ℓ) : Type ℓ where
  pub value : V
  pub is_set : Bool

pub data Override : Type 0 where
  unknown merge replace : Override
  invalid : String → Override

pub data ServiceStartup : Type 0 where
  startup_unknown enabled disabled : ServiceStartup
  other_service_startup : String → ServiceStartup

pub data Action : Type 0 where
  unset restart shutdown ignore failure_shutdown success_shutdown : Action
  other_action : String → Action

pub data CheckLevel : Type 0 where
  unset_level alive ready : CheckLevel
  other_level : String → CheckLevel

pub data CheckStartup : Type 0 where
  check_startup_unknown check_enabled check_disabled : CheckStartup
  other_startup : String → CheckStartup

pub data LogTargetType : Type 0 where
  unset_target loki opentelemetry syslog : LogTargetType
  other_target : String → LogTargetType

pub record Service (Factor : Type 0) : Type 0 where
  pub name : String
  pub summary : String
  pub description : String
  pub startup : ServiceStartup
  pub override : Override
  pub command : String
  pub after : List String
  pub before : List String
  pub requires : List String
  pub workload : String
  pub environment : Table String
  pub user_id : Option ℕ
  pub user : String
  pub group_id : Option ℕ
  pub group : String
  pub working_dir : String
  pub on_success : Action
  pub on_failure : Action
  pub on_check_failure : Table Action
  pub backoff_delay : Optional ℤ
  pub backoff_factor : Optional Factor
  pub backoff_limit : Optional ℤ
  pub kill_delay : Optional ℤ

pub record HttpCheck : Type 0 where
  pub url : String
  pub headers : Table String

pub record TcpCheck : Type 0 where
  pub port : ℕ
  pub host : String

pub record ExecCheck : Type 0 where
  pub command : String
  pub service_context : String
  pub environment : Table String
  pub user_id : Option ℕ
  pub user : String
  pub group_id : Option ℕ
  pub group : String
  pub working_dir : String

pub record Check : Type 0 where
  pub name : String
  pub override : Override
  pub level : CheckLevel
  pub startup : CheckStartup
  pub period : Optional ℤ
  pub timeout : Optional ℤ
  pub threshold : ℤ
  pub http : Option HttpCheck
  pub tcp : Option TcpCheck
  pub exec : Option ExecCheck

pub record LogTarget : Type 0 where
  pub name : String
  pub target_type : LogTargetType
  pub location : String
  pub services : List String
  pub override : Override
  pub labels : Table String

-- A layer, less its order and the sections of extensions.
pub record Layer (Factor : Type 0) : Type 0 where
  pub label : String
  pub summary : String
  pub description : String
  pub services : List (String × Service Factor)
  pub checks : List (String × Check)
  pub log_targets : List (String × LogTarget)
