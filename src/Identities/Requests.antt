-- ===== src/Identities/Requests.antt =====
-- What requests make of the identities (internals/overlord/identities/identities.go).
use buildtest.Base.{
  List, Option, Option-cases, String, [], ap, arith, false, inl, inr, none, refl, some, subst, sym,
  true, ◌∙◌, ◌∷◌, ◌≡◌,
}
use buildtest.Identities.Data.{Identity}
use buildtest.Identities.Manager.{
  Examined, IdentityError, Manager, add_identities, already_exist, commit, delete, delete_all,
  do_not_exist, examine, first_invalid, put_all, remove_identities, replace_all, replace_identities,
  saved_as, shared_in, unknown_names, unless_wrong, update_identities,
}
use buildtest.Identities.Keeping.{
  Formed, IsSound, delete-Formed, find-delete, put_all-Formed, replace_all-Formed,
  shared_in-IsSound,
}

-- The four requests that change the identities.
pub data Request (C : Type 0) : Type 0 where
  add update replace : List (String × Option (Identity C)) → Request C
  remove : List String → Request C

-- The state of the overlord has the identities, and they are sound.
abbrev pub Kept : {C : Type 0} → Manager C → Type 0
Kept m = IsSound m.identities × (m.saved ≡ m.identities)

module _ {C : Type 0} where
  abbrev pub perform : Request C → Manager C → Manager C × Option IdentityError
  perform (add inputs) m = add_identities inputs m
  perform (update inputs) m = update_identities inputs m
  perform (replace inputs) m = replace_identities inputs m
  perform (remove names) m = remove_identities names m

  formed : (l : List (String × Identity C)) → IsSound l → Formed l
  formed l s = (s.distinct, s.well_formed)

  commit_saves :
      (l : List (String × Identity C)) (m : Manager C)
      → shared_in l l ≡ none
      → commit l m ≡ (saved_as l, none)
  unfolding commit
  commit_saves l m e = rw (e, commit) refl

  commit_refuses :
      (l : List (String × Identity C)) (m : Manager C) (x : IdentityError)
      → shared_in l l ≡ some x
      → commit l m ≡ (m, some x)
  unfolding commit
  commit_refuses l m x e = rw (e, commit) refl

  replace_identities-valid :
      (inputs : List (String × Option (Identity C))) (m : Manager C)
      → first_invalid inputs ≡ none
      → replace_identities inputs m ≡ commit (replace_all inputs m.identities) m
  unfolding replace_identities
  replace_identities-valid inputs m e = rw (e, replace_identities) refl

  replace_identities-invalid :
      (inputs : List (String × Option (Identity C))) (m : Manager C) (x : IdentityError)
      → first_invalid inputs ≡ some x
      → replace_identities inputs m ≡ (m, some x)
  unfolding replace_identities
  replace_identities-invalid inputs m x e = rw (e, replace_identities) refl

  commit-Kept :
      (l : List (String × Identity C)) (m : Manager C) → Formed l → Kept m → Kept (commit l m).0
  commit-Kept l m f k = elim (Option-cases (shared_in l l)) [
    | inl e ↦ subst (λ r. Kept r.0) (sym (commit_saves l m e)) (shared_in-IsSound l e f, refl)
    | inr (x, e) ↦ subst (λ r. Kept r.0) (sym (commit_refuses l m x e)) k
  ]

  -- A result that reports an error leaves the manager as it was.
  abbrev Atomic : Manager C → Manager C × Option IdentityError → Type 0
  Atomic m r = (e : IdentityError) → r.1 ≡ some e → r.0 ≡ m

  commit-Atomic : (l : List (String × Identity C)) (m : Manager C) → Atomic m (commit l m)
  commit-Atomic l m = elim (Option-cases (shared_in l l)) [
    | inl n ↦ subst (Atomic m) (sym (commit_saves l m n)) (λ e h. absurd (ground (arith, h)))
    | inr (x, n) ↦ subst (Atomic m) (sym (commit_refuses l m x n)) (λ e h. refl)
  ]

  unless_wrong-Kept :
      (error : List String → IdentityError) (m : Manager C)
      (next : Manager C × Option IdentityError) (x : Examined)
      → Kept m
      → ((names : List String) → x ≡ inr names → Kept next.0)
      → Kept (unless_wrong error m next x).0
  unless_wrong-Kept error m next (inl e) k h = k
  unless_wrong-Kept error m next (inr []) k h = h [] refl
  unless_wrong-Kept error m next (inr (n ∷ names)) k h = k

  unless_wrong_error :
      (error : List String → IdentityError) (m : Manager C)
      (next : Manager C × Option IdentityError) (x : Examined) (e : IdentityError)
      → (next.1 ≡ some e → next.0 ≡ m)
      → (unless_wrong error m next x).1 ≡ some e
      → (unless_wrong error m next x).0 ≡ m
  unless_wrong_error error m next (inl w) e h k = refl
  unless_wrong_error error m next (inr []) e h k = h k
  unless_wrong_error error m next (inr (n ∷ names)) e h k = refl

  delete-IsSound :
      (name : String) (l : List (String × Identity C)) → IsSound l → IsSound (delete name l)
  delete-IsSound name l s =
      let f = delete-Formed name l (formed l s) in
      record {
        distinct = f.0;
        well_formed = f.1;
        alone = λ a b d e u ha hb la lb.
            s.alone a b d e u (ground (arith, sym (find-delete name a l) ∙ ha))
              (ground (arith, sym (find-delete name b l) ∙ hb)) la lb;
      }

  delete_all-IsSound :
      (names : List String) (l : List (String × Identity C))
      → IsSound l
      → IsSound (delete_all names l)
  delete_all-IsSound [] l s = s
  delete_all-IsSound (n ∷ names) l s = delete_all-IsSound names (delete n l) (delete-IsSound n l s)

  -- AddIdentities, UpdateIdentities, ReplaceIdentities and RemoveIdentities keep what holds of the
  -- identities: each name is there once, each identity passes Validate under its key, which is its
  -- name, no two have the same user ID, and what is saved in the state is what the manager has.
  pub perform-Kept : (r : Request C) (m : Manager C) → Kept m → Kept (perform r m).0
  unfolding add_identities update_identities replace_identities remove_identities
  perform-Kept (add inputs) m k =
      unless_wrong-Kept already_exist m (commit (put_all inputs m.identities) m)
        (examine true m.identities inputs []) k
        (λ names e.
          commit-Kept (put_all inputs m.identities) m
            (put_all-Formed true m.identities inputs [] names m.identities e
              (formed m.identities k.0))
            k)
  perform-Kept (update inputs) m k =
      unless_wrong-Kept do_not_exist m (commit (put_all inputs m.identities) m)
        (examine false m.identities inputs []) k
        (λ names e.
          commit-Kept (put_all inputs m.identities) m
            (put_all-Formed false m.identities inputs [] names m.identities e
              (formed m.identities k.0))
            k)
  perform-Kept (replace inputs) m k = elim (Option-cases (first_invalid inputs)) [
    | inl e ↦
        subst (λ r. Kept r.0) (sym (replace_identities-valid inputs m e))
          (commit-Kept (replace_all inputs m.identities) m
            (replace_all-Formed inputs m.identities e (formed m.identities k.0)) k)
    | inr (x, e) ↦ subst (λ r. Kept r.0) (sym (replace_identities-invalid inputs m x e)) k
  ]
  perform-Kept (remove names) m k =
      unless_wrong-Kept do_not_exist m (saved_as (delete_all names m.identities), none)
        (inr (unknown_names names m.identities)) k
        (λ others e. (delete_all-IsSound names m.identities k.0, refl))

  -- A request to add, update, replace or remove identities that returns an error leaves the
  -- identities and what is saved of them as they were.
  pub perform_error :
      (r : Request C) (m : Manager C) (e : IdentityError)
      → (perform r m).1 ≡ some e
      → (perform r m).0 ≡ m
  unfolding add_identities update_identities replace_identities remove_identities
  perform_error (add inputs) m e h =
      unless_wrong_error already_exist m (commit (put_all inputs m.identities) m)
        (examine true m.identities inputs []) e (commit-Atomic (put_all inputs m.identities) m e) h
  perform_error (update inputs) m e h =
      unless_wrong_error do_not_exist m (commit (put_all inputs m.identities) m)
        (examine false m.identities inputs []) e (commit-Atomic (put_all inputs m.identities) m e) h
  perform_error (replace inputs) m e h = elim (Option-cases (first_invalid inputs)) [
    | inl n ↦
        subst (Atomic m) (sym (replace_identities-valid inputs m n))
          (commit-Atomic (replace_all inputs m.identities) m) e h
    | inr (x, n) ↦ ap (λ r. r.0) (replace_identities-invalid inputs m x n)
  ]
  perform_error (remove names) m e h =
      unless_wrong_error do_not_exist m (saved_as (delete_all names m.identities), none)
        (inr (unknown_names names m.identities)) e (λ n. absurd (ground (arith, n))) h
