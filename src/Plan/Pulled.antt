-- ===== src/Plan/Pulled.antt =====
-- Which services a service takes along when it is started or stopped (internals/plan/plan.go).
use buildtest.Base.{
  Bool, Bool-cases, List, Option-cases, String, [], ap, arith, false, has, has-append,
  if◌then◌else◌, inl, inr, refl, some, subst, sym, text_eq, text_eq_iff, true, ◌&&◌, ◌∙◌, ◌∷◌, ◌≡◌,
}
use buildtest.Plan.Data.{Service}
use buildtest.Plan.Order.{Ordered, Services, added, find, hits, ok, predecessors}

pub ok_inj : {A : Type 0} {a b : A} → Ordered.ok a ≡ ok b → a ≡ b
ok_inj {a} {b} e = cc

has-hits :
    (req name y : String) (rs : List String)
    → has y (hits req name rs) ≡ has req rs && text_eq name y
has-hits req name y [] = refl
has-hits req name y (r ∷ rs) = ground (
  arith,
  has-hits req name y rs,
  has-append y (if text_eq r req then name ∷ [] else []) (hits req name rs),
)

module _ {F : Type 0} where
  -- A service of the map, with its key.
  pub data Entry (name : String) (s : Service F) : Services F → Type 0 where
    first : (rest : Services F) → Entry name s ((name, s) ∷ rest)
    later :
        (other : String × Service F) (rest : Services F)
        → Entry name s rest
        → Entry name s (other ∷ rest)

  predecessors-Entry :
      (x y : String) (services : Services F)
      → has y (predecessors x services) ≡ true
      → (s : Service F) × Entry y s services × (has x s.requires ≡ true)
  predecessors-Entry x y [] h = absurd (ground (arith, h))
  predecessors-Entry x y ((n, s) ∷ rest) h = elim (Bool-cases (has x s.requires && text_eq n y)) [
    | inl t ↦
        let same : n ≡ y = (text_eq_iff n y).0 (ground (arith, t)) in
        (s, subst (λ z. Entry z s ((n, s) ∷ rest)) same (first rest), ground (arith, t))
    | inr t ↦
        let (s', i, r) = predecessors-Entry x y rest (
          ground (
            arith,
            h,
            t,
            has-hits x n y s.requires,
            has-append y (hits x n s.requires) (predecessors x rest),
          )) in
        (s', later (n, s) rest i, r)
  ]

  Entry-predecessors :
      (x y : String) (s : Service F) (services : Services F)
      → Entry y s services
      → has x s.requires ≡ true
      → has y (predecessors x services) ≡ true
  Entry-predecessors x y s [] i h = elim i [ ]
  Entry-predecessors x n s ((n', s') ∷ rest) (first rest') h = ground (
    arith,
    h,
    has-hits x n n s.requires,
    (text_eq_iff n n).1 refl,
    has-append n (hits x n s.requires) (predecessors x rest),
  )
  Entry-predecessors x y s ((n, s') ∷ rest) (later other rest' i) h = ground (
    arith,
    Entry-predecessors x y s rest i h,
    has-append y (hits x n s'.requires) (predecessors x rest),
  )

module _ {F : Type 0} (stop : Bool) (services : Services F) where
  -- What the code adds for a service.
  abbrev pub Adds : String → String → Type 0
  Adds x y = (more : List String) × (added stop x services ≡ ok more) × (has y more ≡ true)

  -- A service that is started pulls in those that it requires, and one that is stopped those that
  -- require it.
  pub data Pulls (x y : String) : Type 0 where
    requires_it :
        stop ≡ false
        → (s : Service F) → find x services ≡ some s
        → has y s.requires ≡ true
        → Pulls x y
    required_by :
        stop ≡ true → (s : Service F) → Entry y s services → has x s.requires ≡ true → Pulls x y

  pub Adds-Pulls : (x y : String) → Adds x y → Pulls x y
  Adds-Pulls x y (more, e, h) = elim (Bool-cases stop) [
    | inl t ↦
        let all : predecessors x services ≡ more =
          ok_inj (ap (λ b. added b x services) (sym t) ∙ e) in
        let (s, i, r) = predecessors-Entry x y services (ap (has y) all ∙ h) in required_by t s i r
    | inr t ↦
        let e' : added false x services ≡ ok more = ap (λ b. added b x services) (sym t) ∙ e in
        elim (Option-cases (find x services)) [
          | inl m ↦ absurd (ground (arith, m, e'))
          | inr (s, m) ↦
              let all : s.requires ≡ more = ground (arith, m, e') in
              requires_it t s m (ap (has y) all ∙ h)
        ]
  ]

  pub Pulls-Adds : (x y : String) → Pulls x y → Adds x y
  Pulls-Adds x y (requires_it t s m h) =
      (s.requires, ap (λ b. added b x services) t ∙ ground (arith, m), h)
  Pulls-Adds x y (required_by t s i h) = (
    predecessors x services,
    ap (λ b. added b x services) t,
    Entry-predecessors x y s services i h,
  )
