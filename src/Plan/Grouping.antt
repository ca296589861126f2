-- ===== src/Plan/Grouping.antt =====
-- Merging does not depend on how the merges are grouped (internals/plan/plan.go).
use buildtest.Base.Int.{negsuc, pos, ℤ}
use buildtest.Base.{Option, String, arith, none, refl, some, suc, zero, ℕ, ◌≡◌}
use mathlib.Core.Path.{fun_ext}
use mathlib.Core.List.{append_assoc}
use buildtest.Plan.Data.{
  Action, Check, CheckLevel, CheckStartup, ExecCheck, HttpCheck, LogTarget, LogTargetType, Optional,
  Service, ServiceStartup, Table, TcpCheck,
}
use buildtest.Plan.Merge.{
  merge_check, merge_exec, merge_http, merge_part, merge_service, merge_target, merge_tcp, no_exec,
  no_http, no_tcp, or_action, or_check_startup, or_level, or_number, or_option, or_optional,
  or_startup, or_table, or_target, or_text, or_threshold,
}

or_text_assoc : (a b c : String) → or_text (or_text a b) c ≡ or_text a (or_text b c)
or_text_assoc a b String.[] = refl
or_text_assoc a b (String.◌∷◌ x c) = refl

or_option_assoc {ℓ} :
    {A : Type ℓ} (a b c : Option A) → or_option (or_option a b) c ≡ or_option a (or_option b c)
or_option_assoc a b none = refl
or_option_assoc a b (some x) = refl

or_optional_assoc {ℓ} :
    {A : Type ℓ} (a b c : Optional A)
    → or_optional (or_optional a b) c ≡ or_optional a (or_optional b c)
or_optional_assoc a b c = ground arith

or_table_assoc {ℓ} :
    {A : Type ℓ} (a b c : Table A) → or_table (or_table a b) c ≡ or_table a (or_table b c)
or_table_assoc a b c = fun_ext (λ k. or_option_assoc (a k) (b k) (c k))

or_startup_assoc :
    (a b c : ServiceStartup) → or_startup (or_startup a b) c ≡ or_startup a (or_startup b c)
or_startup_assoc a b c = ground arith

or_action_assoc : (a b c : Action) → or_action (or_action a b) c ≡ or_action a (or_action b c)
or_action_assoc a b c = ground arith

or_level_assoc : (a b c : CheckLevel) → or_level (or_level a b) c ≡ or_level a (or_level b c)
or_level_assoc a b c = ground arith

or_check_startup_assoc :
    (a b c : CheckStartup)
    → or_check_startup (or_check_startup a b) c ≡ or_check_startup a (or_check_startup b c)
or_check_startup_assoc a b c = ground arith

or_target_assoc :
    (a b c : LogTargetType) → or_target (or_target a b) c ≡ or_target a (or_target b c)
or_target_assoc a b c = ground arith

or_number_assoc : (a b c : ℕ) → or_number (or_number a b) c ≡ or_number a (or_number b c)
or_number_assoc a b c = ground arith

or_threshold_assoc :
    (a b c : ℤ) → or_threshold (or_threshold a b) c ≡ or_threshold a (or_threshold b c)
or_threshold_assoc a b (pos zero) = refl
or_threshold_assoc a b (pos (suc n)) = refl
or_threshold_assoc a b (negsuc n) = refl

ruleset grouping = (
  or_text_assoc, or_option_assoc, or_optional_assoc, or_table_assoc, or_startup_assoc,
  or_action_assoc, or_level_assoc, or_check_startup_assoc, or_target_assoc, or_number_assoc,
  append_assoc,
)

-- Merging a second and then a third service into a first one makes the same service as merging
-- into the first what the third, merged into the second, makes.
pub merge_service_assoc :
    {F : Type 0} (a b c : Service F)
    → merge_service (merge_service a b) c ≡ merge_service a (merge_service b c)
unfolding merge_service
merge_service_assoc a b c = simp grouping

merge_http_assoc :
    (a b c : HttpCheck) → merge_http (merge_http a b) c ≡ merge_http a (merge_http b c)
unfolding merge_http
merge_http_assoc a b c = simp grouping

merge_tcp_assoc : (a b c : TcpCheck) → merge_tcp (merge_tcp a b) c ≡ merge_tcp a (merge_tcp b c)
unfolding merge_tcp
merge_tcp_assoc a b c = simp grouping

merge_exec_assoc :
    (a b c : ExecCheck) → merge_exec (merge_exec a b) c ≡ merge_exec a (merge_exec b c)
unfolding merge_exec
merge_exec_assoc a b c = simp grouping

-- Merging a part with nothing set changes nothing.
merge_http-no_http : (a : HttpCheck) → merge_http a no_http ≡ a
unfolding merge_http
merge_http-no_http a = refl

merge_tcp-no_tcp : (a : TcpCheck) → merge_tcp a no_tcp ≡ a
unfolding merge_tcp
merge_tcp-no_tcp a = refl

merge_exec-no_exec : (a : ExecCheck) → merge_exec a no_exec ≡ a
unfolding merge_exec
merge_exec-no_exec a = refl

merge_part_assoc {ℓ} :
    {A : Type ℓ} (empty : A) (m : A → A → A)
    → ((a b c : A) → m (m a b) c ≡ m a (m b c))
    → ((a : A) → m a empty ≡ a)
    → (a b c : Option A)
    → merge_part empty m (merge_part empty m a b) c ≡ merge_part empty m a (merge_part empty m b c)
merge_part_assoc empty m assoc unit a b none = refl
merge_part_assoc empty m assoc unit none none (some c) = cc (assoc empty empty c, unit empty)
merge_part_assoc empty m assoc unit (some a) none (some c) = cc (assoc a empty c, unit a)
merge_part_assoc empty m assoc unit none (some b) (some c) = cc (assoc empty b c)
merge_part_assoc empty m assoc unit (some a) (some b) (some c) = cc (assoc a b c)

-- Merging a second and then a third check into a first one makes the same check as merging into
-- the first what the third, merged into the second, makes.
pub merge_check_assoc :
    (a b c : Check) → merge_check (merge_check a b) c ≡ merge_check a (merge_check b c)
unfolding merge_check
merge_check_assoc a b c = simp (
  or_level_assoc,
  or_check_startup_assoc,
  or_optional_assoc,
  or_threshold_assoc,
  merge_part_assoc no_http merge_http merge_http_assoc merge_http-no_http,
  merge_part_assoc no_tcp merge_tcp merge_tcp_assoc merge_tcp-no_tcp,
  merge_part_assoc no_exec merge_exec merge_exec_assoc merge_exec-no_exec,
)

pub merge_target_assoc :
    (a b c : LogTarget) → merge_target (merge_target a b) c ≡ merge_target a (merge_target b c)
unfolding merge_target
merge_target_assoc a b c = simp grouping
