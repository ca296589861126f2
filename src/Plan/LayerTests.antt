-- ===== src/Plan/LayerTests.antt =====
-- Two layers, and the theorems on layers at them.

use buildtest.Base.{List, String, [], false, none, refl, some, ℕ, ◌+◌, ◌∷◌, ◌≡◌}
use mathlib.Core.Option
use buildtest.Plan.Combine.{
  Checked, Combined, SectionExtension, check_defaults, check_kind, combine_all, combine_extensions,
  combine_layer, combine_layers, combine_objects, layers_of, no_layers, put, rejected,
  service_defaults, service_kind, target_kind, valid,
}
use buildtest.Plan.Layers.{combine_layers-settled, settled}
use buildtest.Plan.Refusals.{combine_layers-valid, is_valid}
use buildtest.Plan.Data.{Layer, Service, Table, merge}
use buildtest.Plan.Tests.{a_service}

abbrev a_layer : String → List (String × Service ℕ) → Layer ℕ
a_layer label services = record {
  label = label;
  summary = "";
  description = "";
  services = services;
  checks = [];
  log_targets = [];
}

abbrev base_web : Service ℕ
base_web = a_service "web" [] []

abbrev more_web : Service ℕ
more_web = record base_web { after = "db" ∷ []; override = merge }

abbrev pub no_sections : Table ℕ
no_sections name = none

-- The second layer has a section under the only field.
abbrev two_layers : List (Layer ℕ × Table ℕ)
two_layers =
    (a_layer "base" (("web", base_web) ∷ []), no_sections)
    ∷ (a_layer "more" (("web", more_web) ∷ []), put "numbers" 3 no_sections)
    ∷ []

-- Adds its sections up; an extension of which nothing is combined fails.
abbrev total : List ℕ → ℕ
total [] = 0
total (n ∷ ns) = n + total ns

abbrev adds_up : SectionExtension ℕ
adds_up = record { field = "numbers"; combine_sections = λ ns. some (total ns) }

abbrev fails : SectionExtension ℕ
fails = record { field = "broken"; combine_sections = λ ns. none }

abbrev pub combined_or : Combined ℕ → Checked (Combined ℕ × Table ℕ) → Combined ℕ × Table ℕ
combined_or c (valid r) = r
combined_or c (rejected e) = (c, no_sections)

unfoldable combined : Combined ℕ × Table ℕ
unfolding combine_layers
combined = combined_or no_layers (combine_layers 2 (adds_up ∷ []) two_layers)

combined_lem : combine_layers 2 (adds_up ∷ []) two_layers ≡ valid (combined.0, combined.1)
unfolding combined combine_layers combine_extensions combine_all combine_layer combine_objects
combined_lem = refl

combine_layers-settled_example :
    (combined.0.services "web"
      ≡ Option.map
          (service_defaults 2)
          (settled service_kind (λ (l : Layer ℕ). l.services) (layers_of two_layers) "web"))
    × (combined.0.checks "web"
        ≡ Option.map check_defaults
            (settled check_kind (λ (l : Layer ℕ). l.checks) (layers_of two_layers) "web"))
    × (combined.0.log_targets "web"
        ≡ settled target_kind (λ (l : Layer ℕ). l.log_targets) (layers_of two_layers) "web")
combine_layers-settled_example =
    combine_layers-settled 2 (adds_up ∷ []) two_layers combined.0 combined.1 "web" combined_lem

combine_layers-valid_example : is_valid (combine_layers 2 (adds_up ∷ fails ∷ []) two_layers) ≡ false
combine_layers-valid_example = combine_layers-valid 2 (adds_up ∷ fails ∷ []) two_layers
