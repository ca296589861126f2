-- ===== src/Plan/Combine.antt =====
-- `CombineLayers` (internals/plan/plan.go). A section extension is a
-- parameter: its name and how it combines sections. The three loops
-- over services, checks and log targets are one function, of what the three kinds have in common.
use mathlib.Core.Option
use buildtest.Base.Int.{ltb_ℤ, pos}
use buildtest.Base.{List, Option, String, [], if◌then◌else◌, none, some, text_eq, ◌∷◌, ◌≡◌}
use buildtest.Plan.Data.{
  Check, Layer, LogTarget, Optional, Override, Service, Table, invalid, merge, replace, unknown,
}
use buildtest.Plan.Merge.{merge_check, merge_service, merge_target, no_table, or_threshold}
use buildtest.Plan.Grouping.{merge_check_assoc, merge_service_assoc, merge_target_assoc}

-- A `FormatError`, by what it reports, the label of the layer and the name of the object; or the error
-- of the extension for a field.
pub data CombineError : Type 0 where
  no_override bad_override : String → String → CombineError
  section_failed : String → CombineError

pub data Checked (A : Type 0) : Type 0 where
  valid : A → Checked A
  rejected : CombineError → Checked A

infixl 5 ◌>>=◌
abbrev pub ◌>>=◌ : {A B : Type 0} → Checked A → (A → Checked B) → Checked B
valid x >>= next = next x
rejected because >>= next = rejected because

-- What layers hold by name and can be merged.
pub record Kind (A : Type 0) : Type 0 where
  pub name_of : A → String
  pub override_of : A → Override
  pub merge_with : A → A → A
  pub merge_assoc : (a b c : A) → merge_with (merge_with a b) c ≡ merge_with a (merge_with b c)

abbrev pub put {ℓ} : {A : Type ℓ} → String → A → Table A → Table A
put name a t j = if text_eq name j then some a else t j

module _ {A : Type 0} (k : Kind A) where
  -- `if old, valid := combined[name]; valid { old.Merge(x) } else { combined[name] = x.Copy() }`.
  abbrev pub merge_onto : Option A → A → A
  merge_onto none a = a
  merge_onto (some old) a = k.merge_with old a

  -- One object of a layer, by its override.
  abbrev pub combine_one : Override → String → String → A → Table A → Checked (Table A)
  combine_one merge label name a t = valid (put name (merge_onto (t name) a) t)
  combine_one replace label name a t = valid (put name a t)
  combine_one unknown label name a t = rejected (no_override label (k.name_of a))
  combine_one (invalid s) label name a t = rejected (bad_override label (k.name_of a))

  -- The loop over the objects of one kind in a layer.
  unfoldable pub combine_objects : String → List (String × A) → Table A → Checked (Table A)
  combine_objects label [] t = valid t
  combine_objects label ((name, a) ∷ rest) t = do
    t' ← combine_one (k.override_of a) label name a t
    combine_objects label rest t'

module _ {F : Type 0} where
  abbrev pub service_kind : Kind (Service F)
  service_kind = record {
    name_of = λ s. s.name;
    override_of = λ s. s.override;
    merge_with = merge_service;
    merge_assoc = merge_service_assoc;
  }

abbrev pub check_kind : Kind Check
check_kind = record {
  name_of = λ c. c.name;
  override_of = λ c. c.override;
  merge_with = merge_check;
  merge_assoc = merge_check_assoc;
}

abbrev pub target_kind : Kind LogTarget
target_kind = record {
  name_of = λ t. t.name;
  override_of = λ t. t.override;
  merge_with = merge_target;
  merge_assoc = merge_target_assoc;
}

-- The combined layer.
pub record Combined (F : Type 0) : Type 0 where
  pub summary : String
  pub description : String
  pub services : Table (Service F)
  pub checks : Table Check
  pub log_targets : Table LogTarget

-- The defaults, in nanoseconds. A default does not count as set.
abbrev pub or_default {ℓ} : {A : Type ℓ} → A → Optional A → Optional A
or_default d o = if o.is_set then o else record o { value = d }

unfoldable pub service_defaults : {F : Type 0} → F → Service F → Service F
service_defaults factor s = record s {
  backoff_delay = or_default (pos 500_000_000) s.backoff_delay;
  backoff_factor = or_default factor s.backoff_factor;
  backoff_limit = or_default (pos 30_000_000_000) s.backoff_limit;
}

-- The timeout is at most the period.
abbrev pub cap_timeout : Check → Check
cap_timeout c = record c {
  timeout = record c.timeout {
    value = if ltb_ℤ c.period.value c.timeout.value then c.period.value else c.timeout.value;
  };
}

unfoldable pub check_defaults : Check → Check
check_defaults c =
    let c' = cap_timeout (record c {
      period = or_default (pos 10_000_000_000) c.period;
      timeout = or_default (pos 3_000_000_000) c.timeout;
    }) in
    record c' { threshold = or_threshold (pos 3) c.threshold }

module _ {F : Type 0} where
  abbrev pub no_layers : Combined F
  no_layers = record {
    summary = "";
    description = "";
    services = no_table;
    checks = no_table;
    log_targets = no_table;
  }

  -- The loop's body for one layer. The last layer's summary and description stay.
  unfoldable pub combine_layer : Layer F → Combined F → Checked (Combined F)
  unfolding combine_objects
  combine_layer l c = do
    services ← combine_objects service_kind l.label l.services c.services
    checks ← combine_objects check_kind l.label l.checks c.checks
    targets ← combine_objects target_kind l.label l.log_targets c.log_targets
    valid (record {
      summary = l.summary;
      description = l.description;
      services = services;
      checks = checks;
      log_targets = targets;
    })

  unfoldable pub combine_all : List (Layer F) → Combined F → Checked (Combined F)
  unfolding combine_layer
  combine_all [] c = valid c
  combine_all (l ∷ ls) c = do c' ← combine_layer l c; combine_all ls c'

  abbrev pub with_defaults : F → Combined F → Combined F
  with_defaults factor c = record c {
    services = λ name. Option.map (service_defaults factor) (c.services name);
    checks = λ name. Option.map check_defaults (c.checks name);
  }

-- A `SectionExtension`: `combine_sections` gives nothing when it returns an error.
pub record SectionExtension (S : Type 0) : Type 0 where
  pub field : String
  pub combine_sections : List S → Option S

abbrev pub checked_section : {S : Type 0} → String → Option S → Checked S
checked_section field none = rejected (section_failed field)
checked_section field (some section) = valid section

-- A layer comes with its `Sections`.
module _ {F S : Type 0} where
  -- The sections of the layers that have the field.
  abbrev pub sections_of : String → List (Layer F × Table S) → List S
  sections_of field [] = []
  sections_of field ((l, sections) ∷ ls) =
      let rest = sections_of field ls in
      elim (sections field) [ none ↦ rest | some section ↦ section ∷ rest ]

  -- The loop over the extensions, in the order of the pass over the map.
  unfoldable pub combine_extensions :
      List (SectionExtension S) → List (Layer F × Table S) → Table S → Checked (Table S)
  combine_extensions [] ls sections = valid sections
  combine_extensions (x ∷ xs) ls sections = do
    section ← checked_section x.field (x.combine_sections (sections_of x.field ls))
    combine_extensions xs ls (put x.field section sections)

  abbrev pub layers_of : List (Layer F × Table S) → List (Layer F)
  layers_of [] = []
  layers_of ((l, sections) ∷ ls) = l ∷ layers_of ls

  -- `CombineLayers`, with the default factor and the registered extensions.
  unfoldable pub combine_layers :
      F → List (SectionExtension S) → List (Layer F × Table S) → Checked (Combined F × Table S)
  unfolding combine_all combine_extensions
  combine_layers factor extensions ls = do
    sections ← combine_extensions extensions ls no_table
    c ← combine_all (layers_of ls) no_layers
    valid (with_defaults factor c, sections)
