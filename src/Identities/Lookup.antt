-- ===== src/Identities/Lookup.antt =====
-- Which identity the inputs of a request have (`IdentityFromInputs`,
-- internals/overlord/identities/identities.go). Certificates and hashed passwords are checked by
-- libraries: equality, the verification by a certificate as its own root, and the password check are
-- parameters.
use buildtest.Base.{
  Bool, List, Option, String, [], false, if◌then◌else◌, none, not, some, text_eq, ℕ, ◌&&◌, ◌==◌,
  ◌||◌, ◌∷◌,
}
use buildtest.Identities.Data.{Identity}

-- A loop that returns the first identity that matches.
abbrev pub first_match :
    {C : Type 0} → (Identity C → Bool) → List (String × Identity C) → Option (Identity C)
first_match p [] = none
first_match p ((n, d) ∷ rest) = if p d then some d else first_match p rest

module _ {C : Type 0} (same_cert : C → C → Bool) (verifies : C → C → Bool)
    (password_ok : String → String → Bool) where
  abbrev pub cert_matches : C → Identity C → Bool
  cert_matches c d = elim d.cert [ some (some x) ↦ same_cert x c && verifies x c | _ ↦ false ]

  abbrev pub by_cert : C → List (String × Identity C) → Option (Identity C)
  by_cert c l = first_match (cert_matches c) l

  abbrev pub password_of : String → Identity C → Option String
  password_of username d = if text_eq d.name username then d.basic else none

  -- The first basic identity with the name decides.
  abbrev pub by_password : String → String → List (String × Identity C) → Option (Identity C)
  by_password username password [] = none
  by_password username password ((n, d) ∷ rest) = elim (password_of username d) [
    | none ↦ by_password username password rest
    | some hash ↦ if password_ok hash password then some d else none
  ]

  abbrev pub has_user_id : ℕ → Identity C → Bool
  has_user_id u d = elim d.local_id [ some v ↦ v == u | none ↦ false ]

  abbrev pub by_user_id : ℕ → List (String × Identity C) → Option (Identity C)
  by_user_id u l = first_match (has_user_id u) l

  abbrev pub by_local : Option ℕ → List (String × Identity C) → Option (Identity C)
  by_local none l = none
  by_local (some u) l = by_user_id u l

  unfoldable pub identity_from_inputs :
      Option ℕ → String → String → Option C → List (String × Identity C) → Option (Identity C)
  identity_from_inputs user_id username password (some c) l = by_cert c l
  identity_from_inputs user_id username password none l =
      if not (text_eq username "") || not (text_eq password "")
      then by_password username password l
      else by_local user_id l
