-- ===== src/Plan/Runnable.antt =====
-- The checks of a plan whose layers were all accepted can be run (internals/plan/plan.go).
use buildtest.Plan.Data.{Check, Layer, Table}
use mathlib.Core.Option
use mathlib.Core.Option.{some_inj}
use buildtest.Base.{
  Bool, Bool-cases, List, Option, Option-cases, String, [], ap, arith, inl, inr, map, none, refl,
  some, subst, sym, text_eq, true, ℕ, ◌&&◌, ◌∙◌, ◌∷◌, ◌≡◌,
}
use buildtest.Plan.Checked.{
  Runnable, all_hold, all_hold-append, all_hold-merged, all_hold-since_replace,
  check_defaults-Runnable, layer_of, merge_check_sound, no_negatives, present, sound_check,
  validate_check_sound,
}
use buildtest.Plan.Combine.{
  Combined, SectionExtension, check_defaults, check_kind, combine_layers, layers_of, valid,
}
use buildtest.Plan.Layers.{combine_layers-settled, entries, settled}
use buildtest.Plan.Overlay.{named}
use buildtest.Plan.Validate.{
  RawLayer, is_none, or_else, validate_check, validate_each, validate_layer,
}

-- No check of a layer has a negative duration or threshold.
abbrev pub no_negative_checks : List (String × Option Check) → Bool
no_negative_checks [] = true
no_negative_checks ((name, none) ∷ rest) = no_negative_checks rest
no_negative_checks ((name, some c) ∷ rest) = no_negatives c && no_negative_checks rest

or_else-none : {E : Type 0} (a b : Option E) → or_else a b ≡ none → (a ≡ none) × (b ≡ none)
or_else-none none b h = (refl, h)
or_else-none (some e) b h = absurd (ground (arith, h))

module _ {F : Type 0} (split : String → Option (List String)) (below_one : F → Bool)
    (normalizes : Option ℕ → Option ℕ → String → String → Bool) where
  abbrev pub accepted : List (RawLayer F) → Bool
  accepted [] = true
  accepted (l ∷ ls) = is_none (validate_layer split below_one normalizes l) && accepted ls

  abbrev pub without_negatives : List (RawLayer F) → Bool
  without_negatives [] = true
  without_negatives (l ∷ ls) = no_negative_checks l.checks && without_negatives ls

  named_sound :
      (name : String) (checks : List (String × Option Check))
      → validate_each split below_one normalizes (validate_check split below_one normalizes) checks
        ≡ none
      → no_negative_checks checks ≡ true
      → all_hold sound_check (named name (present (λ (x : Check). x) checks)) ≡ true
  unfolding validate_each
  named_sound name [] v n = refl
  named_sound name ((j, none) ∷ rest) v n =
      named_sound name rest (or_else-none (validate_check split below_one normalizes j none) _ v).1
        n
  named_sound name ((j, some c) ∷ rest) v n =
      let parts = or_else-none (validate_check split below_one normalizes j (some c)) _ v in
      let here = validate_check_sound split below_one normalizes j c parts.0 (ground (arith, n)) in
      let later = named_sound name rest parts.1 (ground (arith, n)) in
      elim (Bool-cases (text_eq j name)) [
        | inl t ↦ rw (t) (ground (arith, here, later))
        | inr t ↦ rw (t) later
      ]

  validate_layer-checks :
      (l : RawLayer F)
      → validate_layer split below_one normalizes l ≡ none
      → validate_each split below_one normalizes
          (validate_check split below_one normalizes)
          l.checks
        ≡ none
  unfolding validate_layer
  validate_layer-checks l v = (or_else-none _ _ (or_else-none _ _ (or_else-none _ _ v).1).1).0

  entries_sound :
      (name : String) (ls : List (RawLayer F))
      → accepted ls ≡ true
      → without_negatives ls ≡ true
      → all_hold sound_check (entries (λ (l : Layer F). l.checks) name (map layer_of ls)) ≡ true
  entries_sound name [] v n = refl
  entries_sound name (l ∷ ls) v n =
      let ok_here : validate_layer split below_one normalizes l ≡ none = ground (arith, v) in
      ground (
        arith,
        all_hold-append sound_check (named name (present (λ (x : Check). x) l.checks))
            (entries (λ (l : Layer F). l.checks) name (map layer_of ls)),
        named_sound name l.checks (validate_layer-checks l ok_here) (ground (arith, n)),
        entries_sound name ls (ground (arith, v)) (ground (arith, n)),
      )

  -- If Validate accepts every layer, no check in a layer has a negative period, timeout or
  -- threshold, and CombineLayers returns no error, then every check of the combined layer has a
  -- positive period, a positive timeout of at most the period, and a positive threshold.
  pub checks-Runnable :
      {S : Type 0} (factor : F) (extensions : List (SectionExtension S)) (ls : List (RawLayer F))
      (full : List (Layer F × Table S)) (c : Combined F) (sections : Table S) (name : String)
      (k : Check)
      → accepted ls ≡ true
      → without_negatives ls ≡ true
      → layers_of full ≡ map layer_of ls
      → combine_layers factor extensions full ≡ valid (c, sections)
      → c.checks name ≡ some k
      → Runnable k
  checks-Runnable {S} factor extensions ls full c sections name k v n g h e =
      let all = entries_sound name ls v n in
      let kept =
        all_hold-since_replace check_kind sound_check merge_check_sound
          (entries (λ (l : Layer F). l.checks) name (map layer_of ls)) all in
      let what =
        (combine_layers-settled factor extensions full c sections name h).1
        ∙ ap
            (λ z. Option.map check_defaults (settled check_kind (λ (l : Layer F). l.checks) z name))
            g in
      elim (Option-cases (settled check_kind (λ (l : Layer F). l.checks) (map layer_of ls) name)) [
        | inl m ↦ absurd (ground (arith, m, what, e))
        | inr (o, m) ↦
            let same : check_defaults o ≡ k =
              some_inj.0 (ap (Option.map check_defaults) (sym m) ∙ sym what ∙ e) in
            subst Runnable same (
              check_defaults-Runnable o
                (all_hold-merged check_kind sound_check merge_check_sound _ o kept m))
      ]
