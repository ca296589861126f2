-- ===== src/Plan/Chosen.antt =====
-- The services that will be started or stopped are found, whatever cycles they are in
-- (internals/plan/plan.go).
use buildtest.Base.{
  Bool, Bool-cases, List, Option-cases, String, [], ap, arith, false, has, has-end, if◌then◌else◌,
  inl, inr, length, length-append, refl, some, suc, sym, text_eq, text_eq_iff, true, zero, ℕ, ◌++◌,
  ◌+◌, ◌∷◌, ◌≡◌, ◌≤◌, ◌⊎◌,
}
use buildtest.Plan.Data.{Service}
use buildtest.Plan.Order.{
  Ordered, Returns, Services, added, collect, err, find, hits, no_service, ok, out_of_fuel,
  panicked, predecessors, ◌>>=◌,
}

pub bind-Returns :
    {A B : Type 0} (r : Ordered A) (f : A → Ordered B)
    → Returns r
    → ((a : A) → r ≡ ok a → Returns (f a))
    → Returns (r >>= f)
bind-Returns (ok a) f h g = g a refl
bind-Returns (err x) f h g = refl
bind-Returns panicked f h g = h
bind-Returns out_of_fuel f h g = h

abbrev pub count_open : List String → List String → ℕ
count_open chosen [] = 0
count_open chosen (r ∷ rs) = (if has r chosen then 0 else 1) + count_open chosen rs

-- A name that is among the chosen ones does not count, once it is there.
count_open-hits :
    (chosen : List String) (name n : String) (rs : List String)
    → has name chosen ≡ false
    → length (hits name n rs) + count_open (chosen ++ name ∷ []) rs ≡ count_open chosen rs
count_open-hits chosen name n [] h = refl
count_open-hits chosen name n (r ∷ rs) h = ground (
  arith,
  count_open-hits chosen name n rs h,
  has-end r name chosen,
  text_eq_iff r name,
  text_eq_iff name r,
  ap (λ x. has x chosen) {x = r} {y = name},
)

module _ {F : Type 0} where
  -- How many names the services that are not chosen yet can still add.
  abbrev pub weight : Bool → Services F → List String → ℕ
  weight stop [] chosen = 0
  weight true ((n, s) ∷ rest) chosen = count_open chosen s.requires + weight true rest chosen
  weight false ((n, s) ∷ rest) chosen =
      (if has n chosen then 0 else length s.requires) + weight false rest chosen

  weight_mono :
      (services : Services F) (chosen : List String) (name : String)
      → weight false services (chosen ++ name ∷ []) ≤ weight false services chosen
  weight_mono [] chosen name = omega arith
  weight_mono ((n, s) ∷ rest) chosen name =
      ground (arith, weight_mono rest chosen name, has-end n name chosen)

  weight-find :
      (services : Services F) (chosen : List String) (name : String) (s : Service F)
      → has name chosen ≡ false
      → find name services ≡ some s
      → length s.requires + weight false services (chosen ++ name ∷ [])
        ≤ weight false services chosen
  weight-find [] chosen name s h e = cc
  weight-find ((n, s') ∷ rest) chosen name s h e = elim (Bool-cases (text_eq n name)) [
    | inl t ↦
        let same = (text_eq_iff n name).0 t in
        let found : s' ≡ s = ground (arith, t, e) in
        ground (
          arith,
          t,
          has-end n name chosen,
          (text_eq_iff name n).1 (sym same),
          ap (λ x. has x chosen) same,
          ap (λ (x : Service F). length x.requires) found,
          weight_mono rest chosen name,
        )
    | inr t ↦
        ground
          (arith, t, weight-find rest chosen name s h (ground (arith, t, e)), has-end n name chosen)
  ]

  weight-predecessors :
      (services : Services F) (chosen : List String) (name : String)
      → has name chosen ≡ false
      → length (predecessors name services) + weight true services (chosen ++ name ∷ [])
        ≡ weight true services chosen
  weight-predecessors [] chosen name h = refl
  weight-predecessors ((n, s) ∷ rest) chosen name h = omega (
    arith,
    weight-predecessors rest chosen name h,
    count_open-hits chosen name n s.requires h,
    length-append (hits name n s.requires) (predecessors name rest),
  )

  weight-added :
      (stop : Bool) (services : Services F) (chosen : List String) (name : String)
      (more : List String)
      → has name chosen ≡ false
      → added stop name services ≡ ok more
      → length more + weight stop services (chosen ++ name ∷ []) ≤ weight stop services chosen
  weight-added true services chosen name more h e =
      let same : predecessors name services ≡ more = cc in
      omega (arith, weight-predecessors services chosen name h, ap length same)
  weight-added false services chosen name more h e = elim (Option-cases (find name services)) [
    | inl m ↦ absurd (ground (arith, m, e))
    | inr (s, m) ↦
        let same : s.requires ≡ more = ground (arith, m, e) in
        omega (arith, weight-find services chosen name s h m, ap length same)
  ]

  pub added-cases :
      (stop : Bool) (name : String) (services : Services F)
      → ((more : List String) × (added stop name services ≡ ok more))
        ⊎ (added stop name services ≡ err (no_service name))
  added-cases true name services = inl (predecessors name services, refl)
  added-cases false name services = elim (Option-cases (find name services)) [
    | inl m ↦ inr (ground (arith, m))
    | inr (s, m) ↦ inl (s.requires, ground (arith, m))
  ]

  pub collect-Returns :
      (f : ℕ) (stop : Bool) (services : Services F) (pending chosen : List String)
      → length pending + weight stop services chosen ≤ f
      → Returns (collect f stop services pending chosen)
  unfolding collect
  collect-Returns f stop services [] chosen h = refl
  collect-Returns zero stop services (name ∷ pending) chosen h = absurd (omega arith)
  collect-Returns (suc f) stop services (name ∷ pending) chosen h =
      elim (Bool-cases (has name chosen)) [
        | inl e ↦ rw (e) (collect-Returns f stop services pending chosen (omega arith))
        | inr e ↦ elim (added-cases stop name services) [
          | inr m ↦ rw (e, m) refl
          | inl (more, m) ↦
              rw (e, m)
                (collect-Returns f stop services (pending ++ more) (chosen ++ name ∷ []) (
                  omega (
                    arith,
                    weight-added stop services chosen name more e m,
                    length-append pending more,
                  )))
        ]
      ]
