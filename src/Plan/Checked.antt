-- ===== src/Plan/Checked.antt =====
-- What validated layers promise of the combined layer (internals/plan/plan.go).
use buildtest.Base.Int.{ltb_ℤ, negsuc, pos, ℤ, ◌≤ℤ◌}
use buildtest.Plan.Merge.{merge_check}
use buildtest.Plan.Data.{Action, Check, Layer, LogTarget, Optional, Service}
use buildtest.Base.{
  Bool, Bool-cases, List, Option, Option-cases, String, [], ap, arith, false, if◌then◌else◌, inl,
  inr, none, not, refl, some, suc, sym, true, ℕ, ◌&&◌, ◌++◌, ◌||◌, ◌∙◌, ◌∷◌, ◌≡◌,
}
use buildtest.Plan.Combine.{Kind, check_defaults, or_default}
use buildtest.Plan.Overlay.{merged, since_replace}
use buildtest.Plan.Validate.{RawLayer, validate_check}

-- The layer, once there are no null objects in it.
abbrev pub present : {A B : Type 0} → (A → B) → List (String × Option A) → List (String × B)
present f [] = []
present f ((name, none) ∷ rest) = present f rest
present f ((name, some a) ∷ rest) = (name, f a) ∷ present f rest

abbrev pub layer_of : {F : Type 0} → RawLayer F → Layer F
layer_of l = record {
  label = l.label;
  summary = l.summary;
  description = l.description;
  services = present (λ (x : Service _ × List Action). x.0) l.services;
  checks = present (λ (x : Check). x) l.checks;
  log_targets = present (λ (x : LogTarget × List String). x.0) l.log_targets;
}

abbrev pub all_hold : {A : Type 0} → (A → Bool) → List A → Bool
all_hold p [] = true
all_hold p (a ∷ rest) = p a && all_hold p rest

pub all_hold-append :
    {A : Type 0} (p : A → Bool) (xs ys : List A)
    → all_hold p (xs ++ ys) ≡ all_hold p xs && all_hold p ys
all_hold-append p [] ys = refl
all_hold-append p (x ∷ xs) ys = ground (arith, all_hold-append p xs ys)

module _ {A : Type 0} (k : Kind A) (p : A → Bool)
    (keeps : (a b : A) → p a ≡ true → p b ≡ true → p (k.merge_with a b) ≡ true) where
  pub all_hold-since_replace :
      (xs : List A) → all_hold p xs ≡ true → all_hold p (since_replace k xs) ≡ true
  all_hold-since_replace [] h = refl
  all_hold-since_replace (x ∷ xs) h = ground (arith, h, all_hold-since_replace xs)

  pub all_hold-merged :
      (xs : List A) (a : A) → all_hold p xs ≡ true → merged k xs ≡ some a → p a ≡ true
  all_hold-merged [] a h e = absurd (ground (arith, e))
  all_hold-merged (x ∷ xs) a h e = elim (Option-cases (merged k xs)) [
    | inl m ↦ let same : x ≡ a = ground (arith, m, e) in ap p (sym same) ∙ ground (arith, h)
    | inr (b, m) ↦
        let same : k.merge_with x b ≡ a = ground (arith, m, e) in
        ap p (sym same) ∙ keeps x b (ground (arith, h)) (all_hold-merged xs b (ground (arith, h)) m)
  ]

-- What a check promises of its own durations.
abbrev pub positive : ℤ → Bool
positive (pos (suc n)) = true
positive n = false

abbrev pub not_negative : ℤ → Bool
not_negative (pos n) = true
not_negative (negsuc n) = false

abbrev pub sound_duration : Optional ℤ → Bool
sound_duration o = not o.is_set || positive o.value

-- Of each layer: no duration that is set, and no threshold, is negative.
abbrev pub no_negatives : Check → Bool
no_negatives c =
    (not c.period.is_set || not_negative c.period.value)
    && ((not c.timeout.is_set || not_negative c.timeout.value) && not_negative c.threshold)

abbrev pub sound_check : Check → Bool
sound_check c = sound_duration c.period && (sound_duration c.timeout && not_negative c.threshold)

pub merge_check_sound :
    (a b : Check)
    → sound_check a ≡ true
    → sound_check b ≡ true
    → sound_check (merge_check a b) ≡ true
unfolding merge_check
merge_check_sound a b ha hb = ground arith

module _ {F : Type 0} (split : String → Option (List String)) (below_one : F → Bool)
    (normalizes : Option ℕ → Option ℕ → String → String → Bool) where
  pub validate_check_sound :
      (name : String) (c : Check)
      → validate_check split below_one normalizes name (some c) ≡ none
      → no_negatives c ≡ true
      → sound_check c ≡ true
  unfolding validate_check
  validate_check_sound name c v n = ground (arith, v, n)

-- A check that can be run.
abbrev pub Runnable : Check → Type 0
Runnable c =
    (positive c.period.value ≡ true)
    × (positive c.timeout.value ≡ true)
    × (c.timeout.value ≤ℤ c.period.value)
    × (positive c.threshold ≡ true)

or_default-positive :
    (n : ℕ) (o : Optional ℤ)
    → sound_duration o ≡ true
    → positive (or_default (pos (suc n)) o).value ≡ true
or_default-positive n o h = ground (arith, h)

capped :
    (p t : ℤ)
    → positive p ≡ true
    → positive t ≡ true
    → (positive (if ltb_ℤ p t then p else t) ≡ true) × ((if ltb_ℤ p t then p else t) ≤ℤ p)
capped p t hp ht = elim (Bool-cases (ltb_ℤ p t)) [
  | inl e ↦ (ground (arith, e, hp), ground (arith, e))
  | inr e ↦ (ground (arith, e, ht), ground (arith, e))
]

pub check_defaults-Runnable : (c : Check) → sound_check c ≡ true → Runnable (check_defaults c)
unfolding check_defaults
check_defaults-Runnable c h =
    let hp = or_default-positive 9_999_999_999 c.period (ground (arith, h)) in
    let ht = or_default-positive 2_999_999_999 c.timeout (ground (arith, h)) in
    let both =
      capped (or_default (pos 10_000_000_000) c.period).value
        (or_default (pos 3_000_000_000) c.timeout).value hp ht in
    (hp, both.0, both.1, ground (arith, h))
