-- ===== src/Plan/Overlay.antt =====
-- What `CombineLayers` makes of the layers, name by name (internals/plan/plan.go).
use mathlib.Core.List.{append_assoc}
use buildtest.Base.{
  Bool, Bool-cases, List, Option, Option-cases, String, [], ap, arith, false, if◌then◌else◌, inl,
  inr, none, refl, some, sym, text_eq, text_eq_iff, true, ◌&&◌, ◌++◌, ◌||◌, ◌∙◌, ◌∷◌, ◌≡◌,
}
use buildtest.Plan.Data.{Override, Table, invalid, merge, replace, unknown}
use buildtest.Plan.Combine.{
  Checked, Kind, combine_objects, combine_one, merge_onto, rejected, valid, ◌>>=◌,
}

-- What an object is by its layers, apart from the code: of those with its name, the last one that
-- replaces and all after it count, and they are merged into one another from the last on.
abbrev pub replaces : Override → Bool
replaces replace = true
replaces o = false

abbrev pub is_known : Override → Bool
is_known merge = true
is_known replace = true
is_known o = false

module _ {A : Type 0} where
  -- The objects with a name in the layers' sections.
  abbrev pub named : String → List (String × A) → List A
  named name [] = []
  named name ((n, a) ∷ rest) = (if text_eq n name then a ∷ [] else []) ++ named name rest

pub valid_injective : {A : Type 0} (a b : A) → valid a ≡ valid b → a ≡ b
valid_injective a b h = cc

pub bind-valid :
    {A B : Type 0} (first : Checked A) (next : A → Checked B) {out : B}
    → first >>= next ≡ valid out
    → (x : A) × (first ≡ valid x) × (next x ≡ valid out)
bind-valid (valid x) next h = (x, refl, h)
bind-valid (rejected because) next h = cc

module _ {A : Type 0} (k : Kind A) where
  abbrev pub some_replaces : List A → Bool
  some_replaces [] = false
  some_replaces (a ∷ later) = replaces (k.override_of a) || some_replaces later

  -- From the last one that replaces on, or all.
  abbrev pub since_replace : List A → List A
  since_replace [] = []
  since_replace (a ∷ later) =
      let rest = since_replace later in if some_replaces later then rest else a ∷ later

  abbrev pub merged : List A → Option A
  merged [] = none
  merged (a ∷ later) = some (elim (merged later) [ none ↦ a | some b ↦ k.merge_with a b ])

  abbrev pub all_known : List (String × A) → Bool
  all_known [] = true
  all_known ((name, a) ∷ rest) = is_known (k.override_of a) && all_known rest

  -- What a table holds, with more objects after it.
  abbrev pub onto : Option A → List A → Option A
  onto none later = merged later
  onto (some old) later = some (elim (merged later) [ none ↦ old | some b ↦ k.merge_with old b ])

  abbrev pub resolved : Option A → List A → Option A
  resolved old later = if some_replaces later then merged (since_replace later) else onto old later

  since_replace-none : (later : List A) → some_replaces later ≡ false → since_replace later ≡ later
  since_replace-none [] h = refl
  since_replace-none (a ∷ later) h = ground (arith, since_replace-none later)

  pub resolved-none : (later : List A) → resolved none later ≡ merged (since_replace later)
  resolved-none later = ground (arith, since_replace-none later)

  pub resolved-nil : (old : Option A) → resolved old [] ≡ old
  resolved-nil none = refl
  resolved-nil (some a) = refl

  resolved-merge :
      (old : Option A) (a : A) (later : List A)
      → replaces (k.override_of a) ≡ false
      → resolved (some (merge_onto k old a)) later ≡ resolved old (a ∷ later)
  resolved-merge none a later h = ground (arith, h)
  resolved-merge (some o) a later h = elim (Option-cases (merged later)) [
    | inl e ↦ ground (arith, h, e)
    | inr (b, e) ↦ ground (arith, h, e, k.merge_assoc o a b)
  ]

  resolved-replace :
      (old : Option A) (a : A) (later : List A)
      → replaces (k.override_of a) ≡ true
      → resolved (some a) later ≡ resolved old (a ∷ later)
  resolved-replace old a later h = ground (arith, h)

  combine_one-resolved :
      (o : Override) (label n : String) (a : A) (t t' : Table A) (name : String) (later : List A)
      → k.override_of a ≡ o
      → combine_one k o label n a t ≡ valid t'
      → resolved (t' name) later
        ≡ resolved (t name) ((if text_eq n name then a ∷ [] else []) ++ later)
  combine_one-resolved merge label n a t t' name later h e = elim (Bool-cases (text_eq n name)) [
    | inl s ↦ ground (
      arith,
      s,
      h,
      e,
      ap t ((text_eq_iff n name).0 s),
      ap (λ u. u name) (valid_injective _ _ e),
      resolved-merge (t name) a later (rw h refl),
    )
    | inr s ↦ ground (arith, s, e, ap (λ u. u name) (valid_injective _ _ e))
  ]
  combine_one-resolved replace label n a t t' name later h e = elim (Bool-cases (text_eq n name)) [
    | inl s ↦ ground (
      arith,
      s,
      e,
      ap (λ u. u name) (valid_injective _ _ e),
      resolved-replace (t name) a later (rw h refl),
    )
    | inr s ↦ ground (arith, s, e, ap (λ u. u name) (valid_injective _ _ e))
  ]
  combine_one-resolved unknown label n a t t' name later h e = cc
  combine_one-resolved (invalid s) label n a t t' name later h e = cc

  pub combine_objects-resolved :
      (label : String) (objects : List (String × A)) (t t' : Table A) (name : String)
      (later : List A)
      → combine_objects k label objects t ≡ valid t'
      → resolved (t' name) later ≡ resolved (t name) (named name objects ++ later)
  unfolding combine_objects
  combine_objects-resolved label [] t t' name later h =
      ap (λ u. resolved (u name) later) (sym (valid_injective t t' h))
  combine_objects-resolved label ((n, a) ∷ rest) t t' name later h =
      let (t₁, e, h') = bind-valid (combine_one k (k.override_of a) label n a t) _ h in
      let first = if text_eq n name then a ∷ [] else [] in
      combine_objects-resolved label rest t₁ t' name later h'
      ∙ combine_one-resolved (k.override_of a) label n a t t₁ name (named name rest ++ later) refl e
      ∙ ap (resolved (t name)) (sym (append_assoc first (named name rest) later))
