-- ===== src/Plan/Validate.antt =====
-- What is refused in one layer (`Layer.Validate`, internals/plan/plan.go). The sections of extensions
-- are left out. The database of users and groups is a parameter.
use text.Mathlib.Text.{starts_with}
use buildtest.Base.Int.{pos, ℤ}
use buildtest.Base.{
  Bool, List, Option, String, [], false, if◌then◌else◌, none, not, some, text_eq, true, zero, ℕ,
  ◌&&◌, ◌∷◌,
}
use buildtest.Plan.Data.{
  Action, Check, CheckLevel, CheckStartup, ExecCheck, LogTarget, LogTargetType, Service,
  failure_shutdown, ignore, other_level, other_startup, other_target, restart, shutdown,
  success_shutdown, unset,
}
use buildtest.Plan.Command.{Parsed, parse_command, parsed, unparsed}

-- What is wrong, less the texts; with the name of the object.
pub data LayerError : Type 0 where
  reserved_label : LayerError
  empty_service_name reserved_service_name dash_service_name null_service bad_command :
      String → LayerError
  bad_on_success bad_on_failure bad_on_check_failure bad_backoff_factor : String → LayerError
  empty_check_name empty_target_name null_check bad_level bad_startup zero_period zero_timeout :
      String → LayerError
  bad_check_command bad_check_user : String → LayerError
  null_target reserved_target_label bad_target_type : String → LayerError

-- A layer as it is read: an object can be null, and the maps of a service's check actions and of a
-- target's labels are ranged over.
pub record RawLayer (F : Type 0) : Type 0 where
  pub label : String
  pub summary : String
  pub description : String
  pub services : List (String × Option (Service F × List Action))
  pub checks : List (String × Option Check)
  pub log_targets : List (String × Option (LogTarget × List String))

-- The first condition that holds decides.
abbrev pub first_error : {E : Type 0} → List (Bool × E) → Option E
first_error [] = none
first_error ((wrong, e) ∷ rest) = if wrong then some e else first_error rest

abbrev pub or_else : {E : Type 0} → Option E → Option E → Option E
or_else none o = o
or_else (some e) o = some e

-- `validServiceAction`, with one additional action.
abbrev pub valid_service_action : Action → Action → Bool
valid_service_action unset more = true
valid_service_action restart more = true
valid_service_action shutdown more = true
valid_service_action ignore more = true
valid_service_action failure_shutdown failure_shutdown = true
valid_service_action success_shutdown success_shutdown = true
valid_service_action action more = false

abbrev pub fails_to_parse : {A : Type 0} → Parsed A → Bool
fails_to_parse (parsed x) = false
fails_to_parse (unparsed e) = true

abbrev pub is_none : {A : Type 0} → Option A → Bool
is_none none = true
is_none (some x) = false

abbrev pub is_zero : ℤ → Bool
is_zero (pos zero) = true
is_zero n = false

abbrev pub known_level : CheckLevel → Bool
known_level (other_level s) = false
known_level l = true

abbrev pub known_startup : CheckStartup → Bool
known_startup (other_startup s) = false
known_startup s = true

abbrev pub known_target : LogTargetType → Bool
known_target (other_target s) = false
known_target t = true

abbrev pub bad_actions : String → List Action → Option LayerError
bad_actions name [] = none
bad_actions name (a ∷ rest) =
    if valid_service_action a success_shutdown
    then bad_actions name rest
    else some (bad_on_check_failure name)

abbrev pub bad_labels : String → List String → Option LayerError
bad_labels name [] = none
bad_labels name (l ∷ rest) =
    if starts_with l "pebble_" then some (reserved_target_label name) else bad_labels name rest

module _ {F : Type 0} (split : String → Option (List String)) (below_one : F → Bool)
    (normalizes : Option ℕ → Option ℕ → String → String → Bool) where
  unfoldable pub validate_service : String → Option (Service F × List Action) → Option LayerError
  unfolding parse_command
  validate_service name service =
      or_else
        (first_error (
          (text_eq name "", empty_service_name name)
          ∷ (text_eq name "pebble", reserved_service_name name)
          ∷ (starts_with name "-", dash_service_name name)
          ∷ []))
        (elim service [
          | none ↦ some (null_service name)
          | some (s, check_actions) ↦
              or_else
                (first_error (
                  (fails_to_parse (parse_command split s.command), bad_command name)
                  ∷ (not (valid_service_action s.on_success failure_shutdown), bad_on_success name)
                  ∷ (not (valid_service_action s.on_failure success_shutdown), bad_on_failure name)
                  ∷ []))
                (or_else (bad_actions name check_actions) (
                  first_error (
                    (
                      s.backoff_factor.is_set && below_one s.backoff_factor.value,
                      bad_backoff_factor name,
                    )
                    ∷ [])))
        ])

  abbrev pub validate_exec : String → Option ExecCheck → Option LayerError
  validate_exec name none = none
  validate_exec name (some e) = first_error (
      (is_none (split e.command), bad_check_command name)
      ∷ (not (normalizes e.user_id e.group_id e.user e.group), bad_check_user name)
      ∷ [])

  unfoldable pub validate_check : String → Option Check → Option LayerError
  validate_check name check =
      or_else (first_error ((text_eq name "", empty_check_name name) ∷ [])) (elim check [
        | none ↦ some (null_check name)
        | some c ↦
            or_else
              (first_error (
                (text_eq name "", empty_target_name name)
                ∷ (not (known_level c.level), bad_level name)
                ∷ (not (known_startup c.startup), bad_startup name)
                ∷ (c.period.is_set && is_zero c.period.value, zero_period name)
                ∷ (c.timeout.is_set && is_zero c.timeout.value, zero_timeout name)
                ∷ []))
              (validate_exec name c.exec)
      ])

  unfoldable pub validate_target : String → Option (LogTarget × List String) → Option LayerError
  validate_target name none = some (null_target name)
  validate_target name (some (t, label_names)) =
      or_else (bad_labels name label_names)
        (first_error ((not (known_target t.target_type), bad_target_type name) ∷ []))

  -- One of the loops over the objects of a layer.
  unfoldable pub validate_each :
      {A : Type 0} → (String → A → Option LayerError) → List (String × A) → Option LayerError
  validate_each validate [] = none
  validate_each validate ((name, a) ∷ rest) =
      or_else (validate name a) (validate_each validate rest)

  unfoldable pub validate_layer : RawLayer F → Option LayerError
  unfolding validate_service validate_check validate_target validate_each
  validate_layer l = or_else (first_error ((starts_with l.label "pebble-", reserved_label) ∷ [])) (
      or_else (validate_each validate_service l.services) (
        or_else (validate_each validate_check l.checks)
          (validate_each validate_target l.log_targets)))
