-- ===== src/State/Abort/Markings.antt =====
-- What is left to see and to abort: measures of the maps and lists of an abort
-- (internals/overlord/state/change.go).
use buildtest.Base.{
  Bool, Bool-cases, List, [], ap, arith, false, if◌then◌else◌, inl, inr, length, ltb, not, refl,
  suc, true, zero, ℕ, ℕ_discrete, ◌&&◌, ◌++◌, ◌+◌, ◌<◌, ◌||◌, ◌∷◌, ◌≡◌, ◌≤◌,
}
use buildtest.State.Data.{Tasks, lanes_of}
use buildtest.State.Settled.{contains}
use buildtest.State.Aggregate.{is_nil}
use buildtest.State.Searching.{AllBelow}
use buildtest.State.Abort.{
  Marks, doomed, healthy, lanes_added, mark_all, mark_one, meets, no_marks, unseen,
}

-- The sum of a weight over the unmarked numbers below n.
abbrev pub unmarked : (ℕ → ℕ) → ℕ → Marks → ℕ
unmarked weight zero m = 0
unmarked weight (suc n) m = (if m n then 0 else weight n) + unmarked weight n m

pub unmarked-mark_one :
    (weight : ℕ → ℕ) (n x : ℕ) (m : Marks)
    → m x ≡ false
    → unmarked weight n (mark_one x m) + (if ltb x n then weight x else 0) ≡ unmarked weight n m
unmarked-mark_one weight zero x m h = ground arith
unmarked-mark_one weight (suc n) x m h =
    ground
      (arith, unmarked-mark_one weight n x m h, ap m {x = x} {y = n}, ap weight {x = x} {y = n})

-- Whether some lane of a list is below a bound and not marked.
abbrev pub some_new : ℕ → Marks → List ℕ → Bool
some_new bound m [] = false
some_new bound m (l ∷ ls) = (ltb l bound && not (m l)) || some_new bound m ls

pub unmarked_mono :
    (n : ℕ) (ls : List ℕ) (m : Marks) → unmarked (λ _. 1) n (mark_all ls m) ≤ unmarked (λ _. 1) n m
unmarked_mono zero ls m = omega arith
unmarked_mono (suc n) ls m = ground (arith, unmarked_mono n ls m)

pub unmarked-mark_all :
    (n x : ℕ) (ls : List ℕ) (m : Marks)
    → x < n
    → m x ≡ false
    → contains x ls ≡ true
    → unmarked (λ _. 1) n (mark_all ls m) < unmarked (λ _. 1) n m
unmarked-mark_all zero x ls m h k o = omega arith
unmarked-mark_all (suc n) x ls m h k o = elim (ℕ_discrete x n) [
  | yes e ↦ ground (arith, e, ap m e, ap (λ y. contains y ls) e, unmarked_mono n ls m)
  | no ne ↦ ground (arith, unmarked-mark_all n x ls m (omega arith) k o)
]

pub some_new-lane :
    (bound : ℕ) (m : Marks) (ls : List ℕ)
    → some_new bound m ls ≡ true
    → (x : ℕ) × (x < bound) × (m x ≡ false) × (contains x ls ≡ true)
some_new-lane bound m [] h = cc
some_new-lane bound m (l ∷ ls) h = elim (Bool-cases (ltb l bound && not (m l))) [
  | inl e ↦ (l, ground arith, ground arith, ground arith)
  | inr e ↦
      let (x, below, new, there) = some_new-lane bound m ls (ground (arith, e)) in
      (x, below, new, ground (arith, there))
]

pub some_new-append :
    (bound : ℕ) (m : Marks) (xs ys : List ℕ)
    → some_new bound m (xs ++ ys) ≡ some_new bound m xs || some_new bound m ys
some_new-append bound m [] ys = refl
some_new-append bound m (x ∷ xs) ys = ground (arith, some_new-append bound m xs ys)

-- The lanes that a task adds, if any, have a new one among them.
pub lanes_added-new :
    (bound : ℕ) (m : Marks) (ls all : List ℕ)
    → AllBelow bound ls
    → (some_new bound m ls ≡ true → some_new bound m all ≡ true)
    → is_nil (lanes_added m ls all) || some_new bound m (lanes_added m ls all) ≡ true
lanes_added-new bound m [] all h k = refl
lanes_added-new bound m (l ∷ ls) all h k = elim (Bool-cases (m l)) [
  | inl e ↦ rw (e) (lanes_added-new bound m ls all h.1 (λ e'. k (ground (arith, e'))))
  | inr e ↦
      let new : some_new bound m all ≡ true = k (ground (arith, e, h.0)) in
      ground (arith, e, new, some_new-append bound m all (lanes_added m ls all))
]

pub is_nil-append : (xs ys : List ℕ) → is_nil (xs ++ ys) ≡ is_nil xs && is_nil ys
is_nil-append [] ys = refl
is_nil-append (x ∷ xs) ys = refl

pub AllBelow-append :
    (n : ℕ) (xs ys : List ℕ) → AllBelow n xs → AllBelow n ys → AllBelow n (xs ++ ys)
AllBelow-append n [] ys h k = k
AllBelow-append n (x ∷ xs) ys h k = (h.0, AllBelow-append n xs ys h.1 k)

pub unseen-below :
    (n : ℕ) (seen : Marks) (xs : List ℕ)
    → AllBelow n xs
    → AllBelow n (unseen seen xs) × (length (unseen seen xs) ≤ length xs)
unseen-below n seen [] h = (tt, omega arith)
unseen-below n seen (x ∷ xs) h =
    let rest = unseen-below n seen xs h.1 in
    elim (Bool-cases (seen x)) [
      | inl e ↦ rw (e) (rest.0, omega (arith, rest.1))
      | inr e ↦ rw (e) ((h.0, rest.0), omega (arith, rest.1))
    ]

pub doomed-below :
    (n : ℕ) (kill live dead : List ℕ) (tasks : Tasks) (ids : List ℕ)
    → AllBelow n ids
    → let victims = doomed kill live dead tasks ids in
      AllBelow n victims × (length victims ≤ length ids)
doomed-below n kill live dead tasks [] h = (tt, omega arith)
doomed-below n kill live dead tasks (id ∷ ids) h =
    let rest = doomed-below n kill live dead tasks ids h.1 in
    elim (Bool-cases (
      meets kill (lanes_of (tasks id).lanes)
      && not (healthy live dead (lanes_of (tasks id).lanes)))) [
        | inl e ↦ rw (e) ((h.0, rest.0), omega (arith, rest.1))
        | inr e ↦ rw (e) (rest.0, omega (arith, rest.1))
      ]

pub unmarked-le :
    (weight : ℕ → ℕ) (n : ℕ) (m : Marks) → unmarked weight n m ≤ unmarked weight n no_marks
unmarked-le weight zero m = omega arith
unmarked-le weight (suc n) m = ground (arith, unmarked-le weight n m)
