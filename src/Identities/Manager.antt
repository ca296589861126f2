-- ===== src/Identities/Manager.antt =====
-- The manager of identities (internals/overlord/identities/identities.go). A map is the list of its
-- entries, in the order of one pass. Errors name the identities in that order, and not sorted.
use buildtest.Base.{
  Bool, List, Option, String, [], bool_eq, false, if◌then◌else◌, inl, inr, none, not, some, text_eq,
  true, ℕ, ◌&&◌, ◌++◌, ◌==◌, ◌∷◌, ◌⊎◌,
}
use buildtest.Identities.Data.{Identity, Invalid, validate}

pub data IdentityError : Type 0 where
  invalid : String → Invalid → IdentityError
  already_exist do_not_exist : List String → IdentityError
  shared_user_id : ℕ → List String → IdentityError

-- What is in the state of the overlord is `saved`.
pub record Manager (C : Type 0) : Type 0 where
  pub identities : List (String × Identity C)
  pub saved : List (String × Identity C)

abbrev pub Examined : Type 0
Examined = IdentityError ⊎ List String

abbrev pub shared_by : List String → ℕ → Option IdentityError
shared_by (a ∷ b ∷ names) u = some (shared_user_id u (a ∷ b ∷ names))
shared_by names u = none

module _ {C : Type 0} where
  abbrev pub find : String → List (String × Identity C) → Option (Identity C)
  find name [] = none
  find name ((n, d) ∷ rest) = if text_eq n name then some d else find name rest

  abbrev pub is_known : String → List (String × Identity C) → Bool
  is_known name l = elim (find name l) [ some d ↦ true | none ↦ false ]

  -- A map has each key once.
  abbrev pub keys_distinct : List (String × Identity C) → Bool
  keys_distinct [] = true
  keys_distinct ((n, d) ∷ rest) = not (is_known n rest) && keys_distinct rest

  abbrev pub put : String → Identity C → List (String × Identity C) → List (String × Identity C)
  put name d [] = (name, d) ∷ []
  put name d ((n, e) ∷ rest) =
      let later = put name d rest in if text_eq n name then (name, d) ∷ rest else (n, e) ∷ later

  abbrev pub delete : String → List (String × Identity C) → List (String × Identity C)
  delete name [] = []
  delete name ((n, e) ∷ rest) =
      let later = delete name rest in if text_eq n name then later else (n, e) ∷ later

  -- The first loop of AddIdentities and UpdateIdentities: the names that are known, or are not.
  unfoldable pub examine :
      Bool
      → List (String × Identity C)
      → List (String × Option (Identity C))
      → List String
      → Examined
  examine wrong l [] names = inr names
  examine wrong l ((name, d) ∷ rest) names =
      let here = if bool_eq (is_known name l) wrong then names ++ name ∷ [] else names in
      let later = examine wrong l rest here in
      elim (validate name d) [ some e ↦ inl (invalid name e) | none ↦ later ]

  -- The loop that copies the identities; a null one was refused before.
  unfoldable pub put_all :
      List (String × Option (Identity C)) → List (String × Identity C) → List (String × Identity C)
  put_all [] l = l
  put_all ((name, none) ∷ rest) l = put_all rest l
  put_all ((name, some d) ∷ rest) l = put_all rest (put name (record d { name = name }) l)

  -- The names of the identities with a user ID.
  abbrev pub names_with : ℕ → List (String × Identity C) → List String
  names_with u [] = []
  names_with u ((n, d) ∷ rest) = elim d.local_id [
    | none ↦ names_with u rest
    | some v ↦ (if v == u then n ∷ [] else []) ++ names_with u rest
  ]

  -- `verifyUniqueUserIDs`: the user IDs of the second list, among all.
  unfoldable pub shared_in :
      List (String × Identity C) → List (String × Identity C) → Option IdentityError
  shared_in all [] = none
  shared_in all ((n, d) ∷ rest) =
      let later = shared_in all rest in
      elim d.local_id [
        | none ↦ later
        | some u ↦ elim (shared_by (names_with u all) u) [ none ↦ later | some e ↦ some e ]
      ]

  -- The end of AddIdentities, UpdateIdentities and ReplaceIdentities.
  unfoldable pub commit : List (String × Identity C) → Manager C → Manager C × Option IdentityError
  unfolding shared_in
  commit l m = elim (shared_in l l) [
    | some e ↦ (m, some e)
    | none ↦ (record { identities = l; saved = l }, none)
  ]

  abbrev pub unless_wrong :
      (List String → IdentityError)
      → Manager C
      → Manager C × Option IdentityError
      → Examined
      → Manager C × Option IdentityError
  unless_wrong error m next (inl e) = (m, some e)
  unless_wrong error m next (inr []) = next
  unless_wrong error m next (inr (n ∷ names)) = (m, some (error (n ∷ names)))

  unfoldable pub add_identities :
      List (String × Option (Identity C)) → Manager C → Manager C × Option IdentityError
  unfolding examine put_all commit
  add_identities inputs m =
      unless_wrong already_exist m (commit (put_all inputs m.identities) m)
        (examine true m.identities inputs [])

  unfoldable pub update_identities :
      List (String × Option (Identity C)) → Manager C → Manager C × Option IdentityError
  unfolding examine put_all commit
  update_identities inputs m =
      unless_wrong do_not_exist m (commit (put_all inputs m.identities) m)
        (examine false m.identities inputs [])

  unfoldable pub first_invalid : List (String × Option (Identity C)) → Option IdentityError
  first_invalid [] = none
  first_invalid ((name, none) ∷ rest) = first_invalid rest
  first_invalid ((name, some d) ∷ rest) =
      let later = first_invalid rest in
      elim (validate name (some d)) [ some e ↦ some (invalid name e) | none ↦ later ]

  unfoldable pub replace_all :
      List (String × Option (Identity C)) → List (String × Identity C) → List (String × Identity C)
  replace_all [] l = l
  replace_all ((name, none) ∷ rest) l = replace_all rest (delete name l)
  replace_all ((name, some d) ∷ rest) l = replace_all rest (put name (record d { name = name }) l)

  unfoldable pub replace_identities :
      List (String × Option (Identity C)) → Manager C → Manager C × Option IdentityError
  unfolding first_invalid replace_all commit
  replace_identities inputs m = elim (first_invalid inputs) [
    | some e ↦ (m, some e)
    | none ↦ commit (replace_all inputs m.identities) m
  ]

  abbrev pub unknown_names : List String → List (String × Identity C) → List String
  unknown_names [] l = []
  unknown_names (name ∷ names) l =
      if is_known name l then unknown_names names l else name ∷ unknown_names names l

  abbrev pub delete_all : List String → List (String × Identity C) → List (String × Identity C)
  delete_all [] l = l
  delete_all (name ∷ names) l = delete_all names (delete name l)

  abbrev pub saved_as : List (String × Identity C) → Manager C
  saved_as l = record { identities = l; saved = l }

  unfoldable pub remove_identities : List String → Manager C → Manager C × Option IdentityError
  remove_identities names m =
      unless_wrong do_not_exist m (saved_as (delete_all names m.identities), none)
        (inr (unknown_names names m.identities))
