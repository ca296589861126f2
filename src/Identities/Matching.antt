-- ===== src/Identities/Matching.antt =====
-- The identity that a request gets is the right one (internals/overlord/identities/identities.go).
use buildtest.Identities.Keeping.{IsSound}
use mathlib.Core.Option.{some_inj}
use buildtest.Base.{
  Bool, Bool-cases, List, Option, Option-cases, String, [], ap, arith, false, if◌then◌else◌, inl,
  inr, none, not, refl, some, sym, text_eq, text_eq_iff, true, ℕ, ◌||◌, ◌∙◌, ◌∷◌, ◌≡◌, ◌≢◌, ◌⊎◌,
}
use buildtest.Identities.Data.{Identity}
use buildtest.Identities.Manager.{find, keys_distinct}
use buildtest.Identities.Lookup.{
  by_local, by_password, cert_matches, first_match, has_user_id, identity_from_inputs, password_of,
}

module _ {C : Type 0} where
  -- Found under some name.
  abbrev Stored : Identity C → List (String × Identity C) → Type 0
  Stored d l = (name : String) × (find name l ≡ some d)

  Stored-later :
      (n : String) (x d : Identity C) (rest : List (String × Identity C))
      → keys_distinct ((n, x) ∷ rest) ≡ true
      → Stored d rest
      → Stored d ((n, x) ∷ rest)
  Stored-later n x d rest h (name, e) = elim (Bool-cases (text_eq n name)) [
    | inl t ↦
        let same = (text_eq_iff n name).0 t in
        let known : find n rest ≡ some d = ap (λ z. find z rest) same ∙ e in
        absurd (ground (arith, h, known))
    | inr t ↦ (name, ground (arith, t, e))
  ]

  first_match-Stored :
      (p : Identity C → Bool) (l : List (String × Identity C)) (d : Identity C)
      → keys_distinct l ≡ true
      → first_match p l ≡ some d
      → Stored d l × (p d ≡ true)
  first_match-Stored p [] d h e = absurd (ground (arith, e))
  first_match-Stored p ((n, x) ∷ rest) d h e = elim (Bool-cases (p x)) [
    | inl m ↦
        let same : x ≡ d = some_inj.0 (ground (arith, m, e)) in
        (
          (n, ground (arith, (text_eq_iff n n).1 refl, ap (λ (z : Identity C). some z) same)),
          ap p (sym same) ∙ m,
        )
    | inr m ↦
        let (stored, holds) =
          first_match-Stored p rest d (ground (arith, h)) (ground (arith, m, e)) in
        (Stored-later n x d rest h stored, holds)
  ]

  first_match-some :
      (p : Identity C → Bool) (l : List (String × Identity C)) (name : String) (d : Identity C)
      → find name l ≡ some d
      → p d ≡ true
      → first_match p l ≢ none
  first_match-some p [] name d h e = absurd (ground (arith, h))
  first_match-some p ((n, x) ∷ rest) name d h e = elim (Bool-cases (p x)) [
    | inl m ↦ λ k. absurd (ground (arith, m, k))
    | inr m ↦ elim (Bool-cases (text_eq n name)) [
      | inl t ↦
          let same : x ≡ d = some_inj.0 (ground (arith, h, t)) in
          absurd (ground (arith, m, e, ap p same))
      | inr t ↦ λ k. first_match-some p rest name d (ground (arith, h, t)) e (ground (arith, m, k))
    ]
  ]

module _ {C : Type 0} (same_cert : C → C → Bool) (verifies : C → C → Bool)
    (password_ok : String → String → Bool) where
  abbrev password_matches : String → String → Identity C → Bool
  password_matches username password d =
      elim (password_of same_cert verifies password_ok username d) [
        | none ↦ false
        | some hash ↦ password_ok hash password
      ]

  by_password-Stored :
      (username password : String) (l : List (String × Identity C)) (d : Identity C)
      → keys_distinct l ≡ true
      → by_password same_cert verifies password_ok username password l ≡ some d
      → Stored d l × (password_matches username password d ≡ true)
  by_password-Stored username password [] d h e = absurd (ground (arith, e))
  by_password-Stored username password ((n, x) ∷ rest) d h e =
      elim (Option-cases (password_of same_cert verifies password_ok username x)) [
        | inl m ↦
            let (stored, holds) =
              by_password-Stored username password rest d (ground (arith, h))
                (ground (arith, m, e)) in
            (Stored-later n x d rest h stored, holds)
        | inr (hash, m) ↦ elim (Bool-cases (password_ok hash password)) [
          | inl k ↦
              let same : x ≡ d = some_inj.0 (ground (arith, m, k, e)) in
              let here : password_matches username password x ≡ true = ground (arith, m, k) in
              (
                (n, ground (arith, (text_eq_iff n n).1 refl, ap (λ (z : Identity C). some z) same)),
                ap (password_matches username password) (sym same) ∙ here,
              )
          | inr k ↦ absurd (ground (arith, m, k, e))
        ]
      ]

  abbrev local_matches : Option ℕ → Identity C → Bool
  local_matches none d = false
  local_matches (some u) d = has_user_id same_cert verifies password_ok u d

  -- The inputs are those of the identity; a certificate counts before a password, and a password
  -- before a user ID.
  abbrev credentials_match : Option ℕ → String → String → Option C → Identity C → Bool
  credentials_match user_id username password (some c) d =
      cert_matches same_cert verifies password_ok c d
  credentials_match user_id username password none d =
      if not (text_eq username "") || not (text_eq password "")
      then password_matches username password d
      else local_matches user_id d

  found_by_local :
      (user_id : Option ℕ) (l : List (String × Identity C)) (d : Identity C)
      → keys_distinct l ≡ true
      → by_local same_cert verifies password_ok user_id l ≡ some d
      → Stored d l × (local_matches user_id d ≡ true)
  found_by_local none l d h e = absurd (ground (arith, e))
  found_by_local (some u) l d h e =
      first_match-Stored (has_user_id same_cert verifies password_ok u) l d h e

  matched :
      (user_id : Option ℕ) (username password : String) (cert : Option C)
      (l : List (String × Identity C)) (d : Identity C)
      → keys_distinct l ≡ true
      → identity_from_inputs same_cert verifies password_ok user_id username password cert l
        ≡ some d
      → Stored d l × (credentials_match user_id username password cert d ≡ true)
  unfolding identity_from_inputs
  matched user_id username password (some c) l d h e =
      first_match-Stored (cert_matches same_cert verifies password_ok c) l d h e
  matched user_id username password none l d h e =
      elim (Bool-cases (not (text_eq username "") || not (text_eq password ""))) [
        | inl b ↦
            let (stored, holds) =
              by_password-Stored username password l d h (ground (arith, b, e)) in
            (stored, rw (b) holds)
        | inr b ↦
            let (stored, holds) = found_by_local user_id l d h (ground (arith, b, e)) in
            (stored, rw (b) holds)
      ]

  -- What a request presents is what an identity has: its certificate, which verifies, if one is
  -- given, else its name and password if either is given, else its user ID.
  pub data Presents (user_id : Option ℕ) (username password : String) (d : Identity C)
      : Option C → Type 0 where
    by_certificate :
        (c x : C)
        → d.cert ≡ some (some x)
        → same_cert x c ≡ true
        → verifies x c ≡ true
        → Presents user_id username password d (some c)
    by_secret :
        (username ≢ "") ⊎ (password ≢ "")
        → d.name ≡ username
        → (hash : String) → d.basic ≡ some hash
        → password_ok hash password ≡ true
        → Presents user_id username password d none
    by_own_id :
        username ≡ ""
        → password ≡ ""
        → (u : ℕ) → user_id ≡ some u
        → d.local_id ≡ some u
        → Presents user_id username password d none

  has_user_id-local :
      (x : Identity C) (u : ℕ)
      → has_user_id same_cert verifies password_ok u x ≡ true
      → x.local_id ≡ some u
  has_user_id-local x u h = elim (Option-cases x.local_id) [
    | inl m ↦ absurd (ground (arith, m, h))
    | inr (v, m) ↦ let one : v ≡ u = ground (arith, m, h) in m ∙ ap some one
  ]

  given : (a : String) → text_eq a "" ≡ false → a ≢ ""
  given a h e = absurd (ground (arith, h, (text_eq_iff a "").1 e))

  certificate-Presents :
      (user_id : Option ℕ) (username password : String) (c : C) (d : Identity C)
      (o : Option (Option C))
      → d.cert ≡ o
      → cert_matches same_cert verifies password_ok c d ≡ true
      → Presents user_id username password d (some c)
  certificate-Presents user_id username password c d none e h = absurd (ground (arith, e, h))
  certificate-Presents user_id username password c d (some none) e h = absurd (ground (arith, e, h))
  certificate-Presents user_id username password c d (some (some x)) e h =
      by_certificate c x e (ground (arith, e, h)) (ground (arith, e, h))

  secret-Presents :
      (user_id : Option ℕ) (username password : String) (d : Identity C)
      → (username ≢ "") ⊎ (password ≢ "")
      → password_matches username password d ≡ true
      → Presents user_id username password d none
  secret-Presents user_id username password d g h = elim (Bool-cases (text_eq d.name username)) [
    | inr t ↦ absurd (ground (arith, t, h))
    | inl t ↦ elim (Option-cases d.basic) [
      | inl m ↦ absurd (ground (arith, t, m, h))
      | inr (hash, m) ↦
          by_secret g ((text_eq_iff d.name username).0 t) hash m (ground (arith, t, m, h))
    ]
  ]

  credentials-Presents :
      (user_id : Option ℕ) (username password : String) (cert : Option C) (d : Identity C)
      → credentials_match user_id username password cert d ≡ true
      → Presents user_id username password d cert
  credentials-Presents user_id username password (some c) d h =
      certificate-Presents user_id username password c d d.cert refl h
  credentials-Presents user_id username password none d h =
      elim (Bool-cases (text_eq username "")) [
        | inr a ↦
            secret-Presents user_id username password d (inl (given username a))
              (ground (arith, a, h))
        | inl a ↦ elim (Bool-cases (text_eq password "")) [
          | inr b ↦
              secret-Presents user_id username password d (inr (given password b))
                (ground (arith, a, b, h))
          | inl b ↦ elim (Option-cases user_id) [
            | inl m ↦ absurd (ground (arith, a, b, m, h))
            | inr (u, m) ↦
                by_own_id ((text_eq_iff username "").0 a) ((text_eq_iff password "").0 b) u m
                  (has_user_id-local d u (ground (arith, a, b, m, h)))
          ]
        ]
      ]

  -- If what holds of the identities holds, an identity that IdentityFromInputs returns is stored
  -- under its name; and if a certificate is given, it equals that of the identity and verifies; if
  -- none is given but a name or a password is, the name is that of the identity and the password
  -- fits its hash; and if neither is given, a user ID is, and it is that of the identity.
  pub identity_from_inputs_matches :
      (l : List (String × Identity C)) (user_id : Option ℕ) (username password : String)
      (cert : Option C) (d : Identity C)
      → IsSound l
      → identity_from_inputs same_cert verifies password_ok user_id username password cert l
        ≡ some d
      → (find d.name l ≡ some d) × Presents user_id username password d cert
  identity_from_inputs_matches l user_id username password cert d s e =
      let ((name, f), holds) = matched user_id username password cert l d s.distinct e in
      (
        ap (λ z. find z l) (s.well_formed name d f).1 ∙ f,
        credentials-Presents user_id username password cert d holds,
      )

  -- If what holds of the identities holds, and an identity with a user ID is stored, then
  -- IdentityFromInputs, given that user ID and no other input, returns it.
  pub identity_from_inputs-user_id :
      (l : List (String × Identity C)) (name : String) (d : Identity C) (u : ℕ)
      → IsSound l
      → find name l ≡ some d
      → d.local_id ≡ some u
      → identity_from_inputs same_cert verifies password_ok (some u) "" "" none l ≡ some d
  unfolding identity_from_inputs buildtest.Base.text_eq
  identity_from_inputs-user_id l name d u s f e =
      let p = has_user_id same_cert verifies password_ok u in
      let here : p d ≡ true = rw (e) (ground arith) in
      elim (Option-cases (first_match p l)) [
        | inl m ↦ absurd (first_match-some p l name d f here m)
        | inr (x, m) ↦
            let ((other, g), holds) = first_match-Stored p l x s.distinct m in
            let its : x.local_id ≡ some u = has_user_id-local x u holds in
            let one = s.alone name other d x u f g e its in
            let same : d ≡ x = some_inj.0 (sym f ∙ ap (λ z. find z l) one ∙ g) in
            m ∙ ap (λ (z : Identity C). some z) (sym same)
      ]
