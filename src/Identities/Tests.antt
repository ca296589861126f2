-- ===== src/Identities/Tests.antt =====
-- Two identities and requests on them. A certificate is a number here, and a password its own hash.
use mathlib.Core.Option
use buildtest.Identities.Lookup.{identity_from_inputs}
use buildtest.Base.{
  Bool, List, Option, String, [], arith, map, none, refl, some, subst, text_eq, true, ℕ, ◌==◌, ◌∷◌,
  ◌≡◌,
}
use buildtest.Identities.Data.{Access, Identity, admin_access, read_access, validate}
use buildtest.Identities.Manager.{
  Manager, add_identities, commit, examine, find, put_all, shared_in, shared_user_id,
}
use buildtest.Identities.Requests.{Kept, add, perform, perform-Kept, perform_error}
use buildtest.Identities.Matching.{
  Presents, identity_from_inputs-user_id, identity_from_inputs_matches,
}

abbrev local_identity : String → ℕ → Identity ℕ
local_identity name u = record {
  name = name;
  access = admin_access;
  local_id = some u;
  basic = none;
  cert = none;
}

abbrev empty_manager : Manager ℕ
empty_manager = record { identities = []; saved = [] }

empty-Kept : Kept empty_manager
empty-Kept = (
  record {
    distinct = refl;
    well_formed = λ name d h. absurd (ground (arith, h));
    alone = λ a b d e u h. absurd (ground (arith, h));
  },
  refl,
)

abbrev two_identities : List (String × Option (Identity ℕ))
two_identities =
    ("alice", some (local_identity "" 1000)) ∷ ("bob", some (local_identity "" 1001)) ∷ []

abbrev twice_alice : List (String × Option (Identity ℕ))
twice_alice = ("alice", some (local_identity "" 1000)) ∷ ("eve", some (local_identity "" 1000)) ∷ []

abbrev full_manager : Manager ℕ
full_manager = record {
  identities = ("alice", local_identity "alice" 1000) ∷ ("bob", local_identity "bob" 1001) ∷ [];
  saved = ("alice", local_identity "alice" 1000) ∷ ("bob", local_identity "bob" 1001) ∷ [];
}

added : perform (add two_identities) empty_manager ≡ (full_manager, none)
unfolding add_identities examine put_all commit shared_in validate buildtest.Base.text_eq
added = refl

full-Kept : Kept full_manager
full-Kept = subst (λ r. Kept r.0) added (perform-Kept (add two_identities) empty_manager empty-Kept)

perform-Kept_example : Kept (perform (add two_identities) empty_manager).0
perform-Kept_example = perform-Kept (add two_identities) empty_manager empty-Kept

refused :
    (perform (add twice_alice) empty_manager).1 ≡ some (shared_user_id 1000 ("alice" ∷ "eve" ∷ []))
unfolding add_identities examine put_all commit shared_in validate buildtest.Base.text_eq
refused = refl

perform_error_example : (perform (add twice_alice) empty_manager).0 ≡ empty_manager
perform_error_example =
    perform_error (add twice_alice) empty_manager (shared_user_id 1000 ("alice" ∷ "eve" ∷ []))
      refused

abbrev same_number : ℕ → ℕ → Bool
same_number a b = a == b

abbrev is_self_signed : ℕ → ℕ → Bool
is_self_signed a b = true

abbrev plain_password : String → String → Bool
plain_password hash password = text_eq hash password

bob_by_id :
    identity_from_inputs same_number is_self_signed plain_password
      (some 1001)
      ""
      ""
      none
      full_manager.identities
    ≡ some (local_identity "bob" 1001)
unfolding identity_from_inputs buildtest.Base.text_eq
bob_by_id = refl

identity_from_inputs-user_id_example :
    identity_from_inputs same_number is_self_signed plain_password
      (some 1001)
      ""
      ""
      none
      full_manager.identities
    ≡ some (local_identity "bob" 1001)
unfolding buildtest.Base.text_eq
identity_from_inputs-user_id_example =
    identity_from_inputs-user_id same_number is_self_signed plain_password full_manager.identities
      "bob" (local_identity "bob" 1001) 1001 full-Kept.0 refl refl

identity_from_inputs_matches_example :
    (find "bob" full_manager.identities ≡ some (local_identity "bob" 1001))
    × Presents same_number is_self_signed plain_password
        (some 1001)
        ""
        ""
        (local_identity "bob" 1001)
        none
identity_from_inputs_matches_example =
    identity_from_inputs_matches same_number is_self_signed plain_password full_manager.identities
      (some 1001) "" "" none (local_identity "bob" 1001) full-Kept.0 bob_by_id

-- Two identities with one certificate are accepted, and which of them a request gets is decided by the
-- order of a pass over the map.
abbrev with_cert : Access → Identity ℕ
with_cert access = record {
  name = "";
  access = access;
  local_id = none;
  basic = none;
  cert = some (some 7);
}

shared_certificate :
    ((perform
        (add
          (("alice", some (with_cert admin_access)) ∷ ("bob", some (with_cert read_access)) ∷ []))
        empty_manager).1
      ≡ none)
    × (Option.map
          (λ (d : Identity ℕ). d.access)
          (identity_from_inputs same_number is_self_signed plain_password none "" ""
            (some 7)
            (("alice", with_cert admin_access) ∷ ("bob", with_cert read_access) ∷ []))
        ≡ some admin_access)
    × (Option.map
          (λ (d : Identity ℕ). d.access)
          (identity_from_inputs same_number is_self_signed plain_password none "" ""
            (some 7)
            (("bob", with_cert read_access) ∷ ("alice", with_cert admin_access) ∷ []))
        ≡ some read_access)
unfolding add_identities examine put_all commit shared_in validate identity_from_inputs
    buildtest.Base.text_eq
shared_certificate = (refl, refl, refl)
