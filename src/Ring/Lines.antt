-- ===== src/Ring/Lines.antt =====
-- Where a head iterator that replays lines starts: `reverseLinePosition`
-- (internals/servicelog/ringbuffer.go).
use buildtest.Ring.Slices.{get_or-append}
use mathlib.Core.List.{reverse-append, reverse-cons}
use mathlib.Core.Path.{ap₂}
use buildtest.Base.{
  Bool-cases, List, [], ap, arith, drop, get_or, if◌then◌else◌, inl, inr, length, length-append,
  length-drop, refl, reverse, suc, sym, take, take-append-drop, zero, ℕ, ◌++◌, ◌+◌, ◌-◌, ◌<◌, ◌==◌,
  ◌∙◌, ◌∷◌, ◌≡◌, ◌≤◌, ◌⊎◌,
}
use buildtest.Ring.Data.{scan_back}

abbrev pub newlines : List ℕ → ℕ
newlines [] = 0
newlines (b ∷ bs) = (if b == 10 then 1 else 0) + newlines bs

pub newlines-append : (xs ys : List ℕ) → newlines (xs ++ ys) ≡ newlines xs + newlines ys
newlines-append [] ys = omega arith
newlines-append (x ∷ xs) ys = omega (arith, newlines-append xs ys)

pub newlines-reverse : (xs : List ℕ) → newlines (reverse xs) ≡ newlines xs
newlines-reverse [] = refl
newlines-reverse (x ∷ xs) =
    rw (reverse-cons x xs, newlines-append (reverse xs) (x ∷ []), newlines-reverse xs) (omega arith)

pub newlines-take-suc :
    (k : ℕ) (xs : List ℕ)
    → k < length xs
    → newlines (take (suc k) xs) ≡ newlines (take k xs) + (if get_or xs k 0 == 10 then 1 else 0)
newlines-take-suc k [] h = absurd (omega arith)
newlines-take-suc zero (x ∷ xs) h = omega arith
newlines-take-suc (suc k) (x ∷ xs) h = omega (arith, newlines-take-suc k xs (omega arith))

suc-sub_one : (k : ℕ) → suc k - 1 ≡ k
suc-sub_one k = omega arith

get_or-cons :
    (b : ℕ) (bs : List ℕ) (k : ℕ)
    → get_or (b ∷ bs) k 0 ≡ (if k == 0 then b else get_or bs (k - 1) 0)
get_or-cons b bs zero = refl
get_or-cons b bs (suc k) = ground (arith, ap (λ t. get_or bs t 0) (suc-sub_one k))

-- How many bytes the loop passes.
abbrev pub passed : ℕ → ℕ → List ℕ → ℕ
passed n found [] = 0
passed n found (b ∷ bs) =
    let found' = if b == 10 then suc found else found in
    let rest = passed n found' bs in if found' == suc n then 1 else suc rest

unfoldable pub scan_result : ℕ → ℕ → List ℕ → ℕ → ℕ × ℕ
scan_result steps last bs s = (steps + s, if s == 0 then last else get_or bs (s - 1) 0)

scan_result-suc :
    (steps last b q : ℕ) (bs : List ℕ)
    → scan_result (suc steps) b bs q ≡ scan_result steps last (b ∷ bs) (suc q)
unfolding scan_result
scan_result-suc steps last b q bs =
    ap₂ {C = ℕ × ℕ} (λ x y. (x, y)) (omega arith)
      (ground (arith, get_or-cons b bs q, ap (λ t. get_or (b ∷ bs) t 0) (suc-sub_one q)))

scan_result-one :
    (steps last b : ℕ) (bs : List ℕ) → (suc steps, b) ≡ scan_result steps last (b ∷ bs) 1
unfolding scan_result
scan_result-one steps last b bs = ap₂ {C = ℕ × ℕ} (λ x y. (x, y)) (omega arith) refl

scan_step :
    (n found steps last b : ℕ) (bs : List ℕ) (rest : ℕ × ℕ)
    → rest ≡ scan_result (suc steps) b bs (passed n found bs)
    → (if found == suc n then (suc steps, b) else rest)
      ≡ scan_result steps last (b ∷ bs) (if found == suc n then 1 else suc (passed n found bs))
scan_step n found steps last b bs rest e = elim (Bool-cases (found == suc n)) [
  | inl hit ↦ rw hit (scan_result-one steps last b bs)
  | inr miss ↦ rw miss (e ∙ scan_result-suc steps last b (passed n found bs) bs)
]

pub scan_back_lem :
    (n found steps last : ℕ) (bs : List ℕ)
    → scan_back n found steps last bs ≡ scan_result steps last bs (passed n found bs)
unfolding scan_back
scan_back_lem n found steps last [] =
    unfold scan_result in ap₂ {C = ℕ × ℕ} (λ x y. (x, y)) (omega arith) refl
scan_back_lem n found steps last (b ∷ bs) =
    let found' = if b == 10 then suc found else found in
    scan_step n found' steps last b bs _ (scan_back_lem n found' (suc steps) b bs)

pub record Stop (n found : ℕ) (bs : List ℕ) (s : ℕ) : Type 0 where
  pub within : s ≤ length bs
  pub few : found + newlines (take s bs) ≤ suc n
  pub full : found + newlines (take s bs) ≡ suc n → (0 < s) × (get_or bs (s - 1) 0 ≡ 10)
  pub whole : (s ≡ length bs) ⊎ (found + newlines (take s bs) ≡ suc n)

pub passed-Stop : (n found : ℕ) (bs : List ℕ) → found ≤ n → Stop n found bs (passed n found bs)
passed-Stop n found [] h = ground arith
passed-Stop n found (b ∷ bs) h =
    ground (arith, passed-Stop n found bs, passed-Stop n (suc found) bs)

take-append_len : (xs ys : List ℕ) → take (length xs) (xs ++ ys) ≡ xs
take-append_len [] ys = refl
take-append_len (x ∷ xs) ys = ap (◌∷◌ x) (take-append_len xs ys)

pub length-reverse : (xs : List ℕ) → length (reverse xs) ≡ length xs
length-reverse [] = refl
length-reverse (x ∷ xs) =
    omega
      (arith, ap length (reverse-cons x xs), length-append (reverse xs) (x ∷ []), length-reverse xs)

-- The first of the reversed list are the last, reversed.
pub take-reverse :
    (s : ℕ) (xs : List ℕ) → s ≤ length xs → take s (reverse xs) ≡ reverse (drop (length xs - s) xs)
take-reverse s xs h =
    let k = length xs - s in
    let split = ap reverse (sym (take-append-drop k xs)) ∙ reverse-append (take k xs) (drop k xs) in
    let len : s ≡ length (reverse (drop k xs)) =
      omega (arith, length-reverse (drop k xs), length-drop k xs) in
    ap₂ take len split ∙ take-append_len (reverse (drop k xs)) (reverse (take k xs))

pub get_or-reverse :
    (i : ℕ) (xs : List ℕ)
    → i < length xs
    → get_or (reverse xs) i 0 ≡ get_or xs (length xs - 1 - i) 0
get_or-reverse i [] h = absurd (omega arith)
get_or-reverse i (x ∷ xs) h = ground (
  arith,
  ap (λ t. get_or t i 0) (reverse-cons x xs),
  get_or-append (reverse xs) (x ∷ []) i,
  get_or-cons x xs (length xs - i),
  get_or-reverse i xs,
  length-reverse xs,
  ap (λ t. get_or (x ∷ xs) (t - i) 0) (suc-sub_one (length xs)),
)
