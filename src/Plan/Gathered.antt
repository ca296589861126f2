-- ===== src/Plan/Gathered.antt =====
-- Which services will be started or stopped (internals/plan/plan.go).
use buildtest.Base.{
  Bool, Bool-cases, List, String, [], ap, arith, has, has-append, has-end, inl, inr, refl, subst,
  suc, sym, text_eq, text_eq_iff, true, zero, ℕ, ◌++◌, ◌↔◌, ◌∙◌, ◌∷◌, ◌≡◌, ◌⊎◌,
}
use buildtest.Plan.Chosen.{added-cases}
use buildtest.Plan.Order.{Services, added, collect, ok}
use buildtest.Plan.Pulled.{Adds, Adds-Pulls, Pulls, Pulls-Adds, ok_inj}

module _ {F : Type 0} (stop : Bool) (services : Services F) where
  -- The services that some named ones need, directly or not.
  pub data Needs (names : List String) : String → Type 0 where
    asked : (x : String) → has x names ≡ true → Needs names x
    further : (x y : String) → Needs names x → Pulls stop services x y → Needs names y

  module _ (names : List String) where
    -- Between two rounds of the loop.
    record Gathering (pending chosen : List String) : Type 0 where
      needed : (x : String) → (has x chosen ≡ true) ⊎ (has x pending ≡ true) → Needs names x
      closed :
          (x y : String)
          → has x chosen ≡ true
          → Adds stop services x y
          → (has y chosen ≡ true) ⊎ (has y pending ≡ true)

    skipped :
        (name : String) (pending chosen : List String)
        → has name chosen ≡ true
        → Gathering (name ∷ pending) chosen
        → Gathering pending chosen
    skipped name pending chosen h g = record {
      needed = λ x o. elim o [
        | inl e ↦ g.needed x (inl e)
        | inr e ↦ g.needed x (inr (ground (arith, e)))
      ];
      closed = λ x y e a. elim (g.closed x y e a) [
        | inl c ↦ inl c
        | inr c ↦ ground (arith, c, text_eq_iff name y, ap (λ z. has z chosen) {x = name} {y = y})
      ];
    }

    taken :
        (name : String) (pending chosen more : List String)
        → added stop name services ≡ ok more
        → Gathering (name ∷ pending) chosen
        → Gathering (pending ++ more) (chosen ++ name ∷ [])
    taken name pending chosen more e g = record {
      needed = λ x o. elim o [
        | inl c ↦ elim (Bool-cases (has x chosen)) [
          | inl k ↦ g.needed x (inl k)
          | inr k ↦ g.needed x (inr (ground (arith, c, k, has-end x name chosen)))
        ]
        | inr c ↦ elim (Bool-cases (has x pending)) [
          | inl k ↦ g.needed x (inr (ground (arith, k)))
          | inr k ↦
              let asks = g.needed name (inr (ground (arith, (text_eq_iff name name).1 refl))) in
              let adds : Adds stop services name x =
                (more, e, ground (arith, c, k, has-append x pending more)) in
              further name x asks (Adds-Pulls stop services name x adds)
        ]
      ];
      closed = λ x y c a. elim (Bool-cases (has x chosen)) [
        | inl k ↦ elim (g.closed x y k a) [
          | inl d ↦ inl (ground (arith, d, has-end y name chosen))
          | inr d ↦ elim (Bool-cases (text_eq name y)) [
            | inl t ↦ inl (ground (arith, t, has-end y name chosen))
            | inr t ↦ inr (ground (arith, d, t, has-append y pending more))
          ]
        ]
        | inr k ↦
            let same : name ≡ x =
              (text_eq_iff name x).0 (ground (arith, c, k, has-end x name chosen)) in
            let all : more ≡ a.0 = ok_inj (sym e ∙ ap (λ n. added stop n services) same ∙ a.1) in
            inr (ground (arith, ap (has y) all, a.2, has-append y pending more))
      ];
    }

    -- What the loop returns has what it began with.
    collect-Gathering :
        (f : ℕ) (pending chosen out : List String)
        → Gathering pending chosen
        → collect f stop services pending chosen ≡ ok out
        → Gathering [] out
          × ((x : String) → (has x chosen ≡ true) ⊎ (has x pending ≡ true) → has x out ≡ true)
    unfolding collect
    collect-Gathering f [] chosen out g e =
        let same : chosen ≡ out = ok_inj e in
        (
          subst (Gathering []) same g,
          λ x o. elim o [
            | inl c ↦ ground (arith, c, ap (has x) same)
            | inr c ↦ absurd (ground (arith, c))
          ],
        )
    collect-Gathering zero (name ∷ pending) chosen out g e = absurd (ground (arith, e))
    collect-Gathering (suc f) (name ∷ pending) chosen out g e =
        elim (Bool-cases (has name chosen)) [
          | inl h ↦
              let rest =
                collect-Gathering f pending chosen out (skipped name pending chosen h g)
                  (ground (arith, h, e)) in
              (
                rest.0,
                λ x o. elim o [
                  | inl c ↦ rest.1 x (inl c)
                  | inr c ↦ elim (Bool-cases (text_eq name x)) [
                    | inl t ↦
                        rest.1 x (
                          inl
                            (ground (arith, h, ap (λ z. has z chosen) ((text_eq_iff name x).0 t))))
                    | inr t ↦ rest.1 x (inr (ground (arith, c, t)))
                  ]
                ],
              )
          | inr h ↦ elim (added-cases stop name services) [
            | inr m ↦ absurd (ground (arith, h, m, e))
            | inl (more, m) ↦
                let rest =
                  collect-Gathering f (pending ++ more) (chosen ++ name ∷ []) out
                    (taken name pending chosen more m g) (ground (arith, h, m, e)) in
                (
                  rest.0,
                  λ x o. elim o [
                    | inl c ↦ rest.1 x (inl (ground (arith, c, has-end x name chosen)))
                    | inr c ↦ elim (Bool-cases (text_eq name x)) [
                      | inl t ↦ rest.1 x (inl (ground (arith, t, has-end x name chosen)))
                      | inr t ↦ rest.1 x (inr (ground (arith, c, t, has-append x pending more)))
                    ]
                  ],
                )
          ]
        ]

    all_in :
        (out : List String)
        → Gathering [] out
        → ((x : String) → has x names ≡ true → has x out ≡ true)
        → (x : String) → Needs names x
        → has x out ≡ true
    all_in out g h z (asked x e) = h x e
    all_in out g h z (further x y n a) =
        elim (g.closed x y (all_in out g h x n) (Pulls-Adds stop services x y a)) [
          | inl c ↦ c
          | inr c ↦ absurd (ground (arith, c))
        ]

    begun : Gathering names []
    begun = record {
      needed = λ x o. elim o [ inl c ↦ absurd (ground (arith, c)) | inr c ↦ asked x c ];
      closed = λ x y c a. absurd (ground (arith, c));
    }

    pub collect-Needs :
        (f : ℕ) (out : List String)
        → collect f stop services names [] ≡ ok out
        → (x : String) → (has x out ≡ true) ↔ Needs names x
    collect-Needs f out e x =
        let done = collect-Gathering f names [] out begun e in
        let back : (y : String) → Needs names y → has y out ≡ true =
          all_in out done.0 (λ y c. done.1 y (inr c)) in
        (λ h. done.0.needed x (inl h), back x)
