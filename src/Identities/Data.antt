-- ===== src/Identities/Data.antt =====
-- An identity and what is refused of one (internals/overlord/identities/identities.go). A certificate
-- is of some type. Names and passwords are texts.
use Prim.Native.Char.{code}
use buildtest.Base.{
  Bool, Option, String, false, if◌then◌else◌, leb, none, some, text_eq, true, ℕ, ◌&&◌, ◌==◌, ◌||◌,
}

pub data Access : Type 0 where
  admin_access read_access metrics_access untrusted_access no_access : Access
  other_access : String → Access

-- A local identity is a user ID, a basic one a hashed password. The certificate of a certificate
-- identity can be missing.
pub record Identity (Cert : Type 0) : Type 0 where
  pub name : String
  pub access : Access
  pub local_id : Option ℕ
  pub basic : Option String
  pub cert : Option (Option Cert)

-- What is wrong with an identity.
pub data Invalid : Type 0 where
  is_nil bad_name access_missing bad_access password_missing certificate_missing type_missing :
      Invalid

abbrev pub is_alphabetic : ℕ → Bool
is_alphabetic c = (leb 65 c && leb c 90) || (leb 97 c && leb c 122)

abbrev pub is_name_char : ℕ → Bool
is_name_char c = is_alphabetic c || ((leb 48 c && leb c 57) || (c == 95 || c == 45))

abbrev pub name_chars : String → Bool
name_chars String.[] = true
name_chars (String.◌∷◌ c s) = is_name_char (code c) && name_chars s

-- `identityNameRegexp`.
abbrev pub is_identity_name : String → Bool
is_identity_name String.[] = false
is_identity_name (String.◌∷◌ c s) = is_alphabetic (code c) && name_chars s

abbrev pub access_error : Access → Option Invalid
access_error no_access = some access_missing
access_error (other_access s) = some bad_access
access_error a = none

abbrev pub basic_error : Option String → Option Invalid
basic_error none = none
basic_error (some password) = if text_eq password "" then some password_missing else none

abbrev pub or_invalid : Option Invalid → Option Invalid → Option Invalid
or_invalid none o = o
or_invalid (some e) o = some e

module _ {C : Type 0} where
  abbrev pub cert_error : Option (Option C) → Option Invalid
  cert_error (some none) = some certificate_missing
  cert_error c = none

  abbrev pub type_error : Identity C → Option Invalid
  type_error d = elim d.local_id [
    | some u ↦ none
    | none ↦ elim d.basic [
      | some p ↦ none
      | none ↦ elim d.cert [ some c ↦ none | none ↦ some type_missing ]
    ]
  ]

  -- `Identity.Validate`.
  unfoldable pub validate : String → Option (Identity C) → Option Invalid
  validate name none = some is_nil
  validate name (some d) =
      if is_identity_name name
      then or_invalid (access_error d.access)
          (or_invalid (basic_error d.basic) (or_invalid (cert_error d.cert) (type_error d)))
      else some bad_name
