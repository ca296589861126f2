-- ===== src/Ring/Slices.antt =====
-- Slices of lists by their elements: what the copies of the ring buffer
-- (internals/servicelog/ringbuffer.go) leave at each index.
use native.Mathlib.Nat.{suc-add, zero-add, sub-zero}
use buildtest.Base.{
  List, [], ap, arith, drop, get_or, if◌then◌else◌, leb, length, ltb, refl, suc, take, zero, ℕ,
  ◌&&◌, ◌++◌, ◌+◌, ◌-◌, ◌<◌, ◌∷◌, ◌≡◌,
}
use buildtest.Ring.Data.{copy_at}

pub length-copy_at : (low : ℕ) (ys xs : List ℕ) → length (copy_at low ys xs) ≡ length xs
unfolding copy_at
length-copy_at zero [] xs = refl
length-copy_at zero (y ∷ ys) [] = refl
length-copy_at zero (y ∷ ys) (x ∷ xs) = omega (arith, length-copy_at zero ys xs)
length-copy_at (suc low) ys [] = refl
length-copy_at (suc low) ys (x ∷ xs) = omega (arith, length-copy_at low ys xs)

-- A copy changes the indices from `low` on, as far as it reaches.
pub get_or-copy_at :
    (low : ℕ) (ys xs : List ℕ) (i : ℕ)
    → i < length xs
    → get_or (copy_at low ys xs) i 0
      ≡ (if leb low i && ltb i (low + length ys) then get_or ys (i - low) 0 else get_or xs i 0)
unfolding copy_at
get_or-copy_at zero [] xs i h = ground arith
get_or-copy_at zero (y ∷ ys) [] i h = absurd (omega arith)
get_or-copy_at zero (y ∷ ys) (x ∷ xs) zero h = ground arith
get_or-copy_at zero (y ∷ ys) (x ∷ xs) (suc i) h = ground (arith, get_or-copy_at zero ys xs i)
get_or-copy_at (suc low) ys [] i h = absurd (omega arith)
get_or-copy_at (suc low) ys (x ∷ xs) zero h = ground arith
get_or-copy_at (suc low) ys (x ∷ xs) (suc i) h = ground (arith, get_or-copy_at low ys xs i)

pub get_or-drop : (n : ℕ) (xs : List ℕ) (i : ℕ) → get_or (drop n xs) i 0 ≡ get_or xs (n + i) 0
get_or-drop zero xs i = rw zero-add refl
get_or-drop (suc n) [] i = refl
get_or-drop (suc n) (x ∷ xs) i = rw suc-add (get_or-drop n xs i)

pub get_or-take : (n : ℕ) (xs : List ℕ) (i : ℕ) → i < n → get_or (take n xs) i 0 ≡ get_or xs i 0
get_or-take zero xs i h = absurd (omega arith)
get_or-take (suc n) [] i h = refl
get_or-take (suc n) (x ∷ xs) zero h = refl
get_or-take (suc n) (x ∷ xs) (suc i) h = get_or-take n xs i (omega arith)

-- The list of f 0, f 1, …, f (n - 1).
abbrev pub tabulate : ℕ → (ℕ → ℕ) → List ℕ
tabulate zero f = []
tabulate (suc n) f = f 0 ∷ tabulate n (λ k. f (suc k))

pub length-tabulate : (n : ℕ) (f : ℕ → ℕ) → length (tabulate n f) ≡ n
length-tabulate zero f = refl
length-tabulate (suc n) f = ap suc (length-tabulate n (λ k. f (suc k)))

tabulate-ext : (n : ℕ) (f g : ℕ → ℕ) → ((k : ℕ) → k < n → f k ≡ g k) → tabulate n f ≡ tabulate n g
tabulate-ext zero f g h = refl
tabulate-ext (suc n) f g h =
    rw (h 0 (omega arith)) (ap (◌∷◌ (g 0)) (tabulate-ext n _ _ (λ k p. h (suc k) (omega arith))))

pub get_or-tabulate : (n : ℕ) (f : ℕ → ℕ) (i : ℕ) → i < n → get_or (tabulate n f) i 0 ≡ f i
get_or-tabulate zero f i h = absurd (omega arith)
get_or-tabulate (suc n) f zero h = refl
get_or-tabulate (suc n) f (suc i) h = get_or-tabulate n (λ k. f (suc k)) i (omega arith)

pub get_or-append :
    (xs ys : List ℕ) (i : ℕ)
    → get_or (xs ++ ys) i 0
      ≡ (if ltb i (length xs) then get_or xs i 0 else get_or ys (i - length xs) 0)
get_or-append [] ys i = ground (arith, ap (λ t. get_or ys t 0) (sub-zero i))
get_or-append (x ∷ xs) ys zero = ground arith
get_or-append (x ∷ xs) ys (suc i) = ground (arith, get_or-append xs ys i)

-- Lists of one length with the same elements are equal.
pub list_ext :
    (xs ys : List ℕ)
    → length xs ≡ length ys
    → ((i : ℕ) → i < length xs → get_or xs i 0 ≡ get_or ys i 0)
    → xs ≡ ys
list_ext [] [] e h = refl
list_ext [] (y ∷ ys) e h = absurd (omega arith)
list_ext (x ∷ xs) [] e h = absurd (omega arith)
list_ext (x ∷ xs) (y ∷ ys) e h =
    rw (h 0 (omega arith))
      (ap (◌∷◌ y) (list_ext xs ys (omega arith) (λ i p. h (suc i) (omega arith))))
