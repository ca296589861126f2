-- ===== src/Plan/Layers.antt =====
-- `CombineLayers` against its description, for all kinds of objects (internals/plan/plan.go).
use buildtest.Plan.Merge.{no_table}
use mathlib.Core.Option
use buildtest.Base.{List, Option, String, [], ap, sym, ◌++◌, ◌∙◌, ◌∷◌, ◌≡◌}
use buildtest.Plan.Data.{Layer, Table}
use buildtest.Plan.Combine.{
  Combined, Kind, SectionExtension, check_defaults, check_kind, combine_all, combine_extensions,
  combine_layer, combine_layers, combine_objects, layers_of, no_layers, service_defaults,
  service_kind, target_kind, valid,
}
use buildtest.Plan.Overlay.{
  bind-valid, combine_objects-resolved, merged, named, resolved, resolved-nil, resolved-none,
  since_replace, valid_injective,
}

module _ {F : Type 0} where
  -- The objects with a name in all layers, in the order of the layers.
  abbrev pub entries :
      {A : Type 0} → (Layer F → List (String × A)) → String → List (Layer F) → List A
  entries objects name [] = []
  entries objects name (l ∷ ls) = named name (objects l) ++ entries objects name ls

  -- What a layer's loop does to the three tables.
  layer_tables :
      (l : Layer F) (c c' : Combined F)
      → combine_layer l c ≡ valid c'
      → (combine_objects service_kind l.label l.services c.services ≡ valid c'.services)
        × (combine_objects check_kind l.label l.checks c.checks ≡ valid c'.checks)
        × (combine_objects target_kind l.label l.log_targets c.log_targets ≡ valid c'.log_targets)
  unfolding combine_layer
  layer_tables l c c' h =
      let (ss, es, h₁) =
        bind-valid (combine_objects service_kind l.label l.services c.services) _ h in
      let (cs, ec, h₂) = bind-valid (combine_objects check_kind l.label l.checks c.checks) _ h₁ in
      let (ts, et, h₃) =
        bind-valid (combine_objects target_kind l.label l.log_targets c.log_targets) _ h₂ in
      let e = valid_injective _ _ h₃ in
      (
        es ∙ ap (λ (x : Combined F). valid x.services) e,
        ec ∙ ap (λ (x : Combined F). valid x.checks) e,
        et ∙ ap (λ (x : Combined F). valid x.log_targets) e,
      )

  module _ {A : Type 0} (k : Kind A) (objects : Layer F → List (String × A))
      (table : Combined F → Table A)
      (steps : (l : Layer F) (c c' : Combined F)
        → combine_layer l c ≡ valid c'
        → combine_objects k l.label (objects l) (table c) ≡ valid (table c')) where
    combine_all-resolved :
        (ls : List (Layer F)) (c c' : Combined F) (name : String)
        → combine_all ls c ≡ valid c'
        → table c' name ≡ resolved k (table c name) (entries objects name ls)
    unfolding combine_all
    combine_all-resolved [] c c' name h =
        ap (λ x. table x name) (sym (valid_injective c c' h)) ∙ sym (resolved-nil k (table c name))
    combine_all-resolved (l ∷ ls) c c' name h =
        let (c₁, e, h') = bind-valid (combine_layer l c) (combine_all ls) h in
        combine_all-resolved ls c₁ c' name h'
        ∙ combine_objects-resolved k l.label (objects l) (table c) (table c₁) name
            (entries objects name ls) (steps l c c₁ e)

  -- The object with a name after all layers, without the defaults.
  abbrev pub settled :
      {A : Type 0} → Kind A → (Layer F → List (String × A)) → List (Layer F) → String → Option A
  settled k objects ls name = merged k (since_replace k (entries objects name ls))

  -- When CombineLayers returns no error, then of the services, checks and log targets with a name,
  -- in the order of the layers, the last one that replaces and those after it count: what the plan
  -- has under that name is the first of these with the merge of the later ones merged into it, and
  -- with the defaults of a service or a check; if no layer has the name, it is nothing.
  pub combine_layers-settled :
      {S : Type 0} (factor : F) (extensions : List (SectionExtension S))
      (full : List (Layer F × Table S)) (c : Combined F) (sections : Table S) (name : String)
      → combine_layers factor extensions full ≡ valid (c, sections)
      → let ls = layers_of full in
        (c.services name
          ≡ Option.map (service_defaults factor) (settled service_kind (λ l. l.services) ls name))
        × (c.checks name ≡ Option.map check_defaults (settled check_kind (λ l. l.checks) ls name))
        × (c.log_targets name ≡ settled target_kind (λ l. l.log_targets) ls name)
  unfolding combine_layers
  combine_layers-settled {S} factor extensions full c sections name h =
      let ls = layers_of full in
      let (sections', e', h₀) = bind-valid (combine_extensions extensions full no_table) _ h in
      let (c₁, e, h') = bind-valid (combine_all ls no_layers) _ h₀ in
      let same = ap (λ (p : Combined F × Table S). p.0) (valid_injective _ _ h') in
      (
        ap (λ (x : Combined F). x.services name) (sym same)
            ∙ ap (Option.map (service_defaults factor)) (
                combine_all-resolved service_kind (λ l. l.services) (λ x. x.services)
                  (λ l d d' p. (layer_tables l d d' p).0) ls no_layers c₁ name e
                ∙ resolved-none service_kind (entries (λ l. l.services) name ls)),
        ap (λ (x : Combined F). x.checks name) (sym same)
            ∙ ap (Option.map check_defaults) (
                combine_all-resolved check_kind (λ l. l.checks) (λ x. x.checks)
                  (λ l d d' p. (layer_tables l d d' p).1) ls no_layers c₁ name e
                ∙ resolved-none check_kind (entries (λ l. l.checks) name ls)),
        ap (λ (x : Combined F). x.log_targets name) (sym same)
            ∙ combine_all-resolved target_kind (λ l. l.log_targets) (λ x. x.log_targets)
                (λ l d d' p. (layer_tables l d d' p).2) ls no_layers c₁ name e
            ∙ resolved-none target_kind (entries (λ l. l.log_targets) name ls),
      )
