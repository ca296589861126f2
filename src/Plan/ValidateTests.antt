-- ===== src/Plan/ValidateTests.antt =====
-- Layers that are accepted, and log targets.
use buildtest.Plan.Merge.{merge_target, no_table}
use buildtest.Plan.Checked.{Runnable, layer_of}
use buildtest.Base.{
  Bool, List, Option, String, [], false, if◌then◌else◌, map, none, refl, some, text_eq, true, ℕ,
  ◌==◌, ◌∷◌, ◌≡◌,
}
use mathlib.Core.Option
use buildtest.Base.Int.{negsuc, pos, ℤ}
use buildtest.Plan.Data.{
  Check, Layer, LogTarget, Optional, Table, check_startup_unknown, loki, merge, replace,
  unset_level,
}
use buildtest.Plan.Combine.{
  Combined, check_defaults, combine_all, combine_extensions, combine_layer, combine_layers,
  combine_objects, no_layers, valid,
}
use buildtest.Plan.LayerTests.{combined_or, no_sections}
use buildtest.Plan.Logs.{logs_to, logs_to-merge_target, some_decides}
use buildtest.Plan.Runnable.{accepted, checks-Runnable}
use buildtest.Plan.Validate.{
  RawLayer, validate_check, validate_each, validate_layer, validate_service, validate_target,
}

abbrev any_words : String → Option (List String)
any_words s = some (s ∷ [])

abbrev small_factor : ℕ → Bool
small_factor n = n == 0

abbrev any_user : Option ℕ → Option ℕ → String → String → Bool
any_user user_id group_id user group = true

abbrev a_check : Optional ℤ → Check
a_check period = record {
  name = "up";
  override = replace;
  level = unset_level;
  startup = check_startup_unknown;
  period = period;
  timeout = record { value = pos 0; is_set = false };
  threshold = pos 0;
  http = none;
  tcp = some (record { port = 80; host = "" });
  exec = none;
}

abbrev a_raw_layer : Optional ℤ → RawLayer ℕ
a_raw_layer period = record {
  label = "base";
  summary = "";
  description = "";
  services = [];
  checks = ("up", some (a_check period)) ∷ [];
  log_targets = [];
}

abbrev one_second : Optional ℤ
one_second = record { value = pos 1_000_000_000; is_set = true }

abbrev full_layers : Optional ℤ → List (Layer ℕ × Table ℕ)
full_layers period = (layer_of (a_raw_layer period), no_sections) ∷ []

unfoldable with_check : Optional ℤ → Combined ℕ
unfolding combine_layers
with_check period = (combined_or no_layers (combine_layers 2 [] (full_layers period))).0

with_check_lem :
    combine_layers 2 [] (full_layers one_second) ≡ valid (with_check one_second, no_table)
unfolding with_check combine_layers combine_extensions combine_all combine_layer combine_objects
with_check_lem = refl

unfoldable checked_each_second : Check
unfolding check_defaults
checked_each_second = check_defaults (a_check one_second)

found_check : (with_check one_second).checks "up" ≡ some checked_each_second
unfolding with_check combine_layers combine_extensions combine_all combine_layer combine_objects
    checked_each_second check_defaults buildtest.Base.text_eq
found_check = refl

accepted_lem : accepted any_words small_factor any_user (a_raw_layer one_second ∷ []) ≡ true
unfolding validate_layer validate_service validate_check validate_target validate_each
    buildtest.Base.text_eq
accepted_lem = refl

checks-Runnable_example : Runnable checked_each_second
checks-Runnable_example =
    checks-Runnable any_words small_factor any_user 2 [] (a_raw_layer one_second ∷ [])
      (full_layers one_second) (with_check one_second) no_table "up" checked_each_second
      accepted_lem refl refl with_check_lem found_check

-- A negative period is accepted.
abbrev minus_one : Optional ℤ
minus_one = record { value = negsuc 0; is_set = true }

negative_period :
    (accepted any_words small_factor any_user (a_raw_layer minus_one ∷ []) ≡ true)
    × (Option.map (λ (c : Check). c.period.value) ((with_check minus_one).checks "up")
        ≡ some (negsuc 0))
unfolding with_check combine_layers combine_extensions combine_all combine_layer combine_objects
    check_defaults validate_layer validate_service validate_check validate_target validate_each
    buildtest.Base.text_eq
negative_period = (refl, refl)

abbrev a_target : List String → LogTarget
a_target services = record {
  name = "loki";
  target_type = loki;
  location = "here";
  services = services;
  override = merge;
  labels = λ x. none;
}

-- A log target with an empty name is accepted.
empty_target_name_accepted :
    validate_target any_words small_factor any_user "" (some (a_target [], [])) ≡ none
unfolding validate_target
empty_target_name_accepted = refl

logs_to-merge_target_example :
    logs_to "web" (merge_target (a_target ("all" ∷ [])) (a_target ("-web" ∷ []))) ≡ (
      if some_decides "web" ("-web" ∷ [])
      then logs_to "web" (a_target ("-web" ∷ []))
      else logs_to "web" (a_target ("all" ∷ [])))
logs_to-merge_target_example =
    logs_to-merge_target "web" (a_target ("all" ∷ [])) (a_target ("-web" ∷ []))
