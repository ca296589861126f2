-- ===== src/Plan/Refusals.antt =====
-- When `CombineLayers` refuses layers (internals/plan/plan.go).
use buildtest.Plan.Merge.{no_table}
use mathlib.Core.List.{filter_map}
use buildtest.Base.{
  Bool, List, Option-cases, String, [], ap, arith, false, inl, inr, none, refl, some, true, ◌&&◌,
  ◌∙◌, ◌∷◌, ◌≡◌,
}
use buildtest.Plan.Data.{Layer, Override, Table, invalid, merge, replace, unknown}
use buildtest.Plan.Combine.{
  Checked, Combined, Kind, SectionExtension, check_kind, combine_all, combine_extensions,
  combine_layer, combine_layers, combine_objects, combine_one, layers_of, no_layers, put, rejected,
  sections_of, service_kind, target_kind, valid, ◌>>=◌,
}
use buildtest.Plan.Overlay.{all_known, is_known}

module _ {A : Type 0} where
  abbrev pub is_valid : Checked A → Bool
  is_valid (valid a) = true
  is_valid (rejected e) = false

is_valid-bind :
    {A B : Type 0} (first : Checked A) (next : A → Checked B) (b : Bool)
    → ((x : A) → is_valid (next x) ≡ b)
    → is_valid (first >>= next) ≡ is_valid first && b
is_valid-bind (valid x) next b h = h x
is_valid-bind (rejected because) next b h = refl

combine_one-valid :
    {A : Type 0} (k : Kind A) (o : Override) (label name : String) (a : A) (t : Table A)
    → is_valid (combine_one k o label name a t) ≡ is_known o
combine_one-valid k merge label name a t = refl
combine_one-valid k replace label name a t = refl
combine_one-valid k unknown label name a t = refl
combine_one-valid k (invalid s) label name a t = refl

combine_objects-valid :
    {A : Type 0} (k : Kind A) (label : String) (objects : List (String × A)) (t : Table A)
    → is_valid (combine_objects k label objects t) ≡ all_known k objects
unfolding combine_objects
combine_objects-valid k label [] t = refl
combine_objects-valid k label ((name, a) ∷ rest) t =
    is_valid-bind (combine_one k (k.override_of a) label name a t) (combine_objects k label rest)
      (all_known k rest) (combine_objects-valid k label rest)
    ∙ ap (λ b. b && all_known k rest) (combine_one-valid k (k.override_of a) label name a t)

module _ {F : Type 0} where
  -- Whether every object of a layer says how it is combined.
  abbrev pub layer_known : Layer F → Bool
  layer_known l =
      all_known service_kind l.services
      && (all_known check_kind l.checks && all_known target_kind l.log_targets)

  abbrev pub layers_known : List (Layer F) → Bool
  layers_known [] = true
  layers_known (l ∷ ls) = layer_known l && layers_known ls

  combine_layer-valid :
      (l : Layer F) (c : Combined F) → is_valid (combine_layer l c) ≡ layer_known l
  unfolding combine_layer
  combine_layer-valid l c =
      is_valid-bind (combine_objects service_kind l.label l.services c.services) _
        (all_known check_kind l.checks && all_known target_kind l.log_targets)
        (λ ss.
          is_valid-bind (combine_objects check_kind l.label l.checks c.checks) _
            (all_known target_kind l.log_targets)
            (λ cs.
              is_valid-bind (combine_objects target_kind l.label l.log_targets c.log_targets) _ true
                (λ ts. refl)
              ∙ ground
                  (arith, combine_objects-valid target_kind l.label l.log_targets c.log_targets))
          ∙ ap (λ b. b && all_known target_kind l.log_targets)
              (combine_objects-valid check_kind l.label l.checks c.checks))
      ∙ ap (λ b. b && (all_known check_kind l.checks && all_known target_kind l.log_targets))
          (combine_objects-valid service_kind l.label l.services c.services)

  combine_all-valid :
      (ls : List (Layer F)) (c : Combined F) → is_valid (combine_all ls c) ≡ layers_known ls
  unfolding combine_all
  combine_all-valid [] c = refl
  combine_all-valid (l ∷ ls) c =
      is_valid-bind (combine_layer l c) (combine_all ls) (layers_known ls) (combine_all-valid ls)
      ∙ ap (λ b. b && layers_known ls) (combine_layer-valid l c)

  -- Whether every extension combines what the layers have for it.
  abbrev pub all_combine :
      {S : Type 0} → List (SectionExtension S) → List (Layer F × Table S) → Bool
  all_combine [] ls = true
  all_combine (x ∷ xs) ls =
      let rest = all_combine xs ls in
      elim (x.combine_sections (filter_map (λ l. l.1 x.field) ls)) [
        | none ↦ false
        | some section ↦ rest
      ]

  sections_of-filter_map :
      {S : Type 0} (field : String) (ls : List (Layer F × Table S))
      → sections_of field ls ≡ filter_map (λ l. l.1 field) ls
  unfolding filter_map
  sections_of-filter_map field [] = refl
  sections_of-filter_map field ((l, sections) ∷ ls) = elim (Option-cases (sections field)) [
    | inl e ↦ rw (e) (sections_of-filter_map field ls)
    | inr (s, e) ↦ rw (e) (ap (λ ss. s ∷ ss) (sections_of-filter_map field ls))
  ]

  combine_extensions-valid :
      {S : Type 0} (extensions : List (SectionExtension S)) (ls : List (Layer F × Table S))
      (sections : Table S)
      → is_valid (combine_extensions extensions ls sections) ≡ all_combine extensions ls
  unfolding combine_extensions
  combine_extensions-valid [] ls sections = refl
  combine_extensions-valid (x ∷ xs) ls sections =
      rw (sections_of-filter_map x.field ls)
        elim (Option-cases (x.combine_sections (filter_map (λ l. l.1 x.field) ls))) [
          | inl e ↦ rw (e) refl
          | inr (s, e) ↦ rw (e) (combine_extensions-valid xs ls (put x.field s sections))
        ]

  -- CombineLayers returns no error exactly if every section extension combines without an error
  -- the sections that the layers have for it, and every service, check and log target of every
  -- layer has the override merge or replace.
  pub combine_layers-valid :
      {S : Type 0} (factor : F) (extensions : List (SectionExtension S))
      (ls : List (Layer F × Table S))
      → is_valid (combine_layers factor extensions ls)
        ≡ all_combine extensions ls && layers_known (layers_of ls)
  unfolding combine_layers
  combine_layers-valid factor extensions ls =
      is_valid-bind (combine_extensions extensions ls no_table) _ (layers_known (layers_of ls))
        (λ sections.
          is_valid-bind (combine_all (layers_of ls) no_layers) _ true (λ c. refl)
          ∙ ground (arith, combine_all-valid (layers_of ls) no_layers))
      ∙ ap (λ b. b && layers_known (layers_of ls)) (combine_extensions-valid extensions ls no_table)
