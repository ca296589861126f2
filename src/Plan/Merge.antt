-- ===== src/Plan/Merge.antt =====
-- The `Merge` methods (internals/plan/plan.go): what is set in the other object replaces or extends
-- what this one has. The receiver is changed in place there.
use buildtest.Base.Int.{pos, ℤ}
use buildtest.Base.{Option, String, if◌then◌else◌, none, some, suc, zero, ℕ, ◌++◌}
use buildtest.Plan.Data.{
  Action, Check, CheckLevel, CheckStartup, ExecCheck, HttpCheck, LogTarget, LogTargetType, Optional,
  Service, ServiceStartup, Table, TcpCheck, check_startup_unknown, startup_unknown, unset,
  unset_level, unset_target,
}

-- `if other.X != "" { s.X = other.X }`.
abbrev pub or_text : String → String → String
or_text old String.[] = old
or_text old (String.◌∷◌ c s) = String.◌∷◌ c s

abbrev pub or_option {ℓ} : {A : Type ℓ} → Option A → Option A → Option A
or_option old none = old
or_option old (some a) = some a

abbrev pub or_optional {ℓ} : {A : Type ℓ} → Optional A → Optional A → Optional A
or_optional old new = if new.is_set then new else old

-- `for k, v := range other { s[k] = v }`.
abbrev pub or_table {ℓ} : {A : Type ℓ} → Table A → Table A → Table A
or_table old new k = or_option (old k) (new k)

abbrev pub or_startup : ServiceStartup → ServiceStartup → ServiceStartup
or_startup old startup_unknown = old
or_startup old s = s

abbrev pub or_action : Action → Action → Action
or_action old unset = old
or_action old a = a

abbrev pub or_level : CheckLevel → CheckLevel → CheckLevel
or_level old unset_level = old
or_level old l = l

abbrev pub or_check_startup : CheckStartup → CheckStartup → CheckStartup
or_check_startup old check_startup_unknown = old
or_check_startup old s = s

abbrev pub or_number : ℕ → ℕ → ℕ
or_number old zero = old
or_number old (suc n) = suc n

abbrev pub or_threshold : ℤ → ℤ → ℤ
or_threshold old (pos zero) = old
or_threshold old n = n

abbrev pub or_target : LogTargetType → LogTargetType → LogTargetType
or_target old unset_target = old
or_target old t = t

-- `Service.Merge`.
unfoldable pub merge_service : {F : Type 0} → Service F → Service F → Service F
merge_service s other = record s {
  summary = or_text s.summary other.summary;
  description = or_text s.description other.description;
  startup = or_startup s.startup other.startup;
  command = or_text s.command other.command;
  kill_delay = or_optional s.kill_delay other.kill_delay;
  user_id = or_option s.user_id other.user_id;
  user = or_text s.user other.user;
  group_id = or_option s.group_id other.group_id;
  group = or_text s.group other.group;
  working_dir = or_text s.working_dir other.working_dir;
  after = s.after ++ other.after;
  before = s.before ++ other.before;
  requires = s.requires ++ other.requires;
  workload = or_text s.workload other.workload;
  environment = or_table s.environment other.environment;
  on_success = or_action s.on_success other.on_success;
  on_failure = or_action s.on_failure other.on_failure;
  on_check_failure = or_table s.on_check_failure other.on_check_failure;
  backoff_delay = or_optional s.backoff_delay other.backoff_delay;
  backoff_factor = or_optional s.backoff_factor other.backoff_factor;
  backoff_limit = or_optional s.backoff_limit other.backoff_limit;
}

-- `HTTPCheck.Merge`, `TCPCheck.Merge` and `ExecCheck.Merge`.
unfoldable pub merge_http : HttpCheck → HttpCheck → HttpCheck
merge_http c other = record c {
  url = or_text c.url other.url;
  headers = or_table c.headers other.headers;
}

unfoldable pub merge_tcp : TcpCheck → TcpCheck → TcpCheck
merge_tcp c other = record c {
  port = or_number c.port other.port;
  host = or_text c.host other.host;
}

unfoldable pub merge_exec : ExecCheck → ExecCheck → ExecCheck
merge_exec c other = record c {
  command = or_text c.command other.command;
  service_context = or_text c.service_context other.service_context;
  environment = or_table c.environment other.environment;
  user_id = or_option c.user_id other.user_id;
  user = or_text c.user other.user;
  group_id = or_option c.group_id other.group_id;
  group = or_text c.group other.group;
  working_dir = or_text c.working_dir other.working_dir;
}

abbrev pub no_table {ℓ} : {A : Type ℓ} → Table A
no_table k = none

abbrev pub no_http : HttpCheck
no_http = record { url = ""; headers = no_table }

abbrev pub no_tcp : TcpCheck
no_tcp = record { port = 0; host = "" }

abbrev pub no_exec : ExecCheck
no_exec = record {
  command = "";
  service_context = "";
  environment = no_table;
  user_id = none;
  user = "";
  group_id = none;
  group = "";
  working_dir = "";
}

-- A part of a check that the other has: merged into this one's, or into an empty one.
abbrev pub merge_part {ℓ} : {A : Type ℓ} → A → (A → A → A) → Option A → Option A → Option A
merge_part empty m old none = old
merge_part empty m none (some new) = some (m empty new)
merge_part empty m (some old) (some new) = some (m old new)

-- `Check.Merge`.
unfoldable pub merge_check : Check → Check → Check
unfolding merge_http merge_tcp merge_exec
merge_check c other = record c {
  level = or_level c.level other.level;
  startup = or_check_startup c.startup other.startup;
  period = or_optional c.period other.period;
  timeout = or_optional c.timeout other.timeout;
  threshold = or_threshold c.threshold other.threshold;
  http = merge_part no_http merge_http c.http other.http;
  tcp = merge_part no_tcp merge_tcp c.tcp other.tcp;
  exec = merge_part no_exec merge_exec c.exec other.exec;
}

-- `LogTarget.Merge`.
unfoldable pub merge_target : LogTarget → LogTarget → LogTarget
merge_target t other = record t {
  target_type = or_target t.target_type other.target_type;
  location = or_text t.location other.location;
  services = t.services ++ other.services;
  labels = or_table t.labels other.labels;
}
