-- ===== src/Identities/Keeping.antt =====
-- What holds of the identities, and that requests keep it (internals/overlord/identities/identities.go).
use mathlib.Core.Option.{some_inj}
use buildtest.Base.{
  Bool, Bool-cases, List, Option, Option-cases, String, [], ap, arith, bool_eq, has, has-append,
  if◌then◌else◌, inl, inr, none, refl, some, subst, sym, text_eq, text_eq_iff, true, ℕ, ◌++◌, ◌==◌,
  ◌∙◌, ◌∷◌, ◌≡◌,
}
use buildtest.Identities.Data.{Identity, is_nil, validate}
use buildtest.Identities.Manager.{
  delete, examine, find, first_invalid, is_known, keys_distinct, names_with, put, put_all,
  replace_all, shared_by, shared_in,
}

-- A map has each key once; each identity is valid, has its key for a name, and has its user ID alone.
pub record IsSound {C : Type 0} (l : List (String × Identity C)) : Type 0 where
  pub distinct : keys_distinct l ≡ true
  pub well_formed :
      (name : String) (d : Identity C)
      → find name l ≡ some d
      → (validate name (some d) ≡ none) × (d.name ≡ name)
  pub alone :
      (a b : String) (d e : Identity C) (u : ℕ)
      → find a l ≡ some d
      → find b l ≡ some e
      → d.local_id ≡ some u
      → e.local_id ≡ some u
      → a ≡ b

validate-nil : (C : Type 0) (name : String) → validate {C = C} name none ≡ some is_nil
unfolding validate
validate-nil C name = refl

shared_by-none :
    (names : List String) (u : ℕ) (a b : String)
    → shared_by names u ≡ none
    → has a names ≡ true
    → has b names ≡ true
    → a ≡ b
shared_by-none [] u a b s ha hb = absurd (ground (arith, ha))
shared_by-none (x ∷ []) u a b s ha hb =
    sym ((text_eq_iff x a).0 (ground (arith, ha))) ∙ (text_eq_iff x b).0 (ground (arith, hb))
shared_by-none (x ∷ y ∷ names) u a b s ha hb = absurd (ground (arith, s))

module _ {C : Type 0} where
  -- All but the user IDs.
  abbrev pub Formed : List (String × Identity C) → Type 0
  Formed l =
      (keys_distinct l ≡ true)
      × ((name : String) (d : Identity C)
          → find name l ≡ some d
          → (validate name (some d) ≡ none) × (d.name ≡ name))

  find-put :
      (name j : String) (d : Identity C) (l : List (String × Identity C))
      → find j (put name d l) ≡ (if text_eq name j then some d else find j l)
  find-put name j d [] = refl
  find-put name j d ((n, e) ∷ rest) =
      ground
        (arith, find-put name j d rest, text_eq_iff n name, text_eq_iff n j, text_eq_iff name j)

  pub find-delete :
      (name j : String) (l : List (String × Identity C))
      → find j (delete name l) ≡ (if text_eq name j then none else find j l)
  find-delete name j [] = ground arith
  find-delete name j ((n, e) ∷ rest) =
      ground
        (arith, find-delete name j rest, text_eq_iff n name, text_eq_iff n j, text_eq_iff name j)

  put_distinct :
      (name : String) (d : Identity C) (l : List (String × Identity C))
      → keys_distinct l ≡ true
      → keys_distinct (put name d l) ≡ true
  put_distinct name d [] h = refl
  put_distinct name d ((n, e) ∷ rest) h = ground (
    arith,
    h,
    put_distinct name d rest,
    find-put name n d rest,
    text_eq_iff n name,
    text_eq_iff name n,
  )

  delete_distinct :
      (name : String) (l : List (String × Identity C))
      → keys_distinct l ≡ true
      → keys_distinct (delete name l) ≡ true
  delete_distinct name [] h = refl
  delete_distinct name ((n, e) ∷ rest) h =
      ground (arith, h, delete_distinct name rest, find-delete name n rest)

  put-Formed :
      (name : String) (d : Identity C) (l : List (String × Identity C))
      → validate name (some d) ≡ none
      → Formed l
      → Formed (put name (record d { name = name }) l)
  unfolding validate
  put-Formed name d l v f = (
    put_distinct name (record d { name = name }) l f.0,
    λ j e h.
        let found = sym (find-put name j (record d { name = name }) l) ∙ h in
        elim (Bool-cases (text_eq name j)) [
          | inl t ↦
              let same : name ≡ j = (text_eq_iff name j).0 t in
              let it : record d { name = name } ≡ e = some_inj.0 (ground (arith, found, t)) in
              subst (λ x. (validate j (some x) ≡ none) × (x.name ≡ j)) it
                (ap (λ x. validate x (some d)) (sym same) ∙ v, same)
          | inr t ↦ f.1 j e (ground (arith, found, t))
        ],
  )

  pub delete-Formed :
      (name : String) (l : List (String × Identity C)) → Formed l → Formed (delete name l)
  delete-Formed name l f = (
    delete_distinct name l f.0,
    λ j e h. f.1 j e (ground (arith, sym (find-delete name j l) ∙ h)),
  )

  pub put_all-Formed :
      (wrong : Bool) (all : List (String × Identity C))
      (inputs : List (String × Option (Identity C))) (names out : List String)
      (l : List (String × Identity C))
      → examine wrong all inputs names ≡ inr out
      → Formed l
      → Formed (put_all inputs l)
  unfolding examine put_all
  put_all-Formed wrong all [] names out l e f = f
  put_all-Formed wrong all ((name, none) ∷ rest) names out l e f =
      absurd (ground (arith, e, validate-nil C name))
  put_all-Formed wrong all ((name, some d) ∷ rest) names out l e f =
      elim (Option-cases (validate name (some d))) [
        | inl v ↦
            put_all-Formed wrong all rest
              (if bool_eq (is_known name all) wrong then names ++ name ∷ [] else names) out
              (put name (record d { name = name }) l) (ground (arith, v, e))
              (put-Formed name d l v f)
        | inr (x, v) ↦ absurd (ground (arith, v, e))
      ]

  pub replace_all-Formed :
      (inputs : List (String × Option (Identity C))) (l : List (String × Identity C))
      → first_invalid inputs ≡ none
      → Formed l
      → Formed (replace_all inputs l)
  unfolding first_invalid replace_all
  replace_all-Formed [] l e f = f
  replace_all-Formed ((name, none) ∷ rest) l e f =
      replace_all-Formed rest (delete name l) e (delete-Formed name l f)
  replace_all-Formed ((name, some d) ∷ rest) l e f = elim (Option-cases (validate name (some d))) [
    | inl v ↦
        replace_all-Formed rest (put name (record d { name = name }) l) (ground (arith, v, e))
          (put-Formed name d l v f)
    | inr (x, v) ↦ absurd (ground (arith, v, e))
  ]

  has-names_with :
      (name : String) (d : Identity C) (u : ℕ) (l : List (String × Identity C))
      → find name l ≡ some d
      → d.local_id ≡ some u
      → has name (names_with u l) ≡ true
  has-names_with name d u [] h e = absurd (ground (arith, h))
  has-names_with name d u ((n, x) ∷ rest) h e = elim (Bool-cases (text_eq n name)) [
    | inl t ↦
        let same : x ≡ d = some_inj.0 (ground (arith, h, t)) in
        let its : x.local_id ≡ some u = ap (λ (y : Identity C). y.local_id) same ∙ e in
        rw (its) (ground (arith, t))
    | inr t ↦
        let there = has-names_with name d u rest (ground (arith, h, t)) e in
        elim (Option-cases x.local_id) [
          | inl m ↦ rw (m) there
          | inr (w, m) ↦ rw (m) (
              ground (
                arith,
                there,
                t,
                has-append name (if w == u then n ∷ [] else []) (names_with u rest),
              ))
        ]
  ]

  shared_in-none :
      (all l : List (String × Identity C)) (name : String) (d : Identity C) (u : ℕ)
      → shared_in all l ≡ none
      → find name l ≡ some d
      → d.local_id ≡ some u
      → shared_by (names_with u all) u ≡ none
  unfolding shared_in
  shared_in-none all [] name d u s h e = absurd (ground (arith, h))
  shared_in-none all ((n, x) ∷ rest) name d u s h e = elim (Bool-cases (text_eq n name)) [
    | inl t ↦
        let same : x ≡ d = some_inj.0 (ground (arith, h, t)) in
        let its : x.local_id ≡ some u = ap (λ (y : Identity C). y.local_id) same ∙ e in
        ground (arith, its, s, Option-cases (shared_by (names_with u all) u))
    | inr t ↦ elim (Option-cases x.local_id) [
      | inl m ↦ shared_in-none all rest name d u (ground (arith, m, s)) (ground (arith, h, t)) e
      | inr (w, m) ↦ elim (Option-cases (shared_by (names_with w all) w)) [
        | inl k ↦
            shared_in-none all rest name d u (ground (arith, m, k, s)) (ground (arith, h, t)) e
        | inr (x', k) ↦ absurd (ground (arith, m, k, s))
      ]
    ]
  ]

  pub shared_in-IsSound :
      (l : List (String × Identity C)) → shared_in l l ≡ none → Formed l → IsSound l
  shared_in-IsSound l s f = record {
    distinct = f.0;
    well_formed = f.1;
    alone = λ a b d e u ha hb la lb.
        shared_by-none (names_with u l) u a b (shared_in-none l l a d u s ha la)
          (has-names_with a d u l ha la) (has-names_with b e u l hb lb);
  }
