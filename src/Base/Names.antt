-- ===== src/Base/Names.antt =====
-- Names: texts that are compared, and lists of them.
use Prim.Native.String.{String}
use text.Mathlib.Text.{◌==◌}
use text.Mathlib.TextEquality.{eq_iff}
use mathlib.Core.Bool.{Bool, true, false, ◌||◌}
use mathlib.Core.List.{List, [], ◌∷◌, ◌++◌}
use native.Mathlib.Omega.{arith}
use mathlib.Core.Logic.{◌↔◌}
use mathlib.Core.Path.{◌≡◌, refl}

unfoldable pub text_eq : String → String → Bool
text_eq a b = a == b

pub text_eq_iff : (a b : String) → (text_eq a b ≡ true) ↔ (a ≡ b)
unfolding text_eq
text_eq_iff a b = eq_iff a b

abbrev pub has : String → List String → Bool
has x [] = false
has x (y ∷ ys) = text_eq y x || has x ys

pub has-append : (x : String) (xs ys : List String) → has x (xs ++ ys) ≡ has x xs || has x ys
has-append x [] ys = refl
has-append x (y ∷ xs) ys = ground (arith, has-append x xs ys)

-- A name that is put at the end.
pub has-end :
    (x name : String) (xs : List String) → has x (xs ++ name ∷ []) ≡ has x xs || text_eq name x
has-end x name xs = ground (arith, has-append x xs (name ∷ []))
