-- ===== src/Plan/Links.antt =====
-- The successors that `order` notes for each service (internals/plan/plan.go).
use buildtest.Plan.Pulled.{ok_inj}
use buildtest.Base.{
  Bool, Bool-cases, List, Option-cases, String, [], ap, arith, false, has, has-append, has-end,
  if◌then◌else◌, inl, inr, none, refl, some, sym, text_eq, text_eq_iff, true, ◌++◌, ◌∙◌, ◌∷◌, ◌≡◌,
  ◌≢◌,
}
use buildtest.Plan.Data.{Service}
use buildtest.Plan.Order.{
  Links, Services, afters, befores, find, link_all, link_before, link_service, ok, put_link,
  required_of,
}

pub some_inj : {A : Type 0} {a b : A} → some a ≡ some b → a ≡ b
some_inj {a} {b} e = cc

module _ {F : Type 0} (stop : Bool) (services : Services F) where
  -- The configuration says that the first service comes before the second: by after and before when
  -- services start, and the other way round when they stop.
  pub data Precedes (u v : String) : Type 0 where
    starts_after :
        stop ≡ false
        → (s : Service F) → find v services ≡ some s
        → has u s.after ≡ true
        → Precedes u v
    starts_before :
        stop ≡ false
        → (s : Service F) → find u services ≡ some s
        → has v s.before ≡ true
        → Precedes u v
    stops_before :
        stop ≡ true
        → (s : Service F) → find v services ≡ some s
        → has u s.before ≡ true
        → Precedes u v
    stops_after :
        stop ≡ true
        → (s : Service F) → find u services ≡ some s
        → has v s.after ≡ true
        → Precedes u v

  data Noted (u v : String) : Type 0 where
    listed_after :
        (s : Service F) → find v services ≡ some s → has u (afters stop s) ≡ true → Noted u v
    listed_before :
        (s : Service F) → find u services ≡ some s → has v (befores stop s) ≡ true → Noted u v

  Precedes-Noted : (u v : String) → Precedes u v → Noted u v
  Precedes-Noted u v (starts_after e s m l) = listed_after s m (ap (λ b. has u (afters b s)) e ∙ l)
  Precedes-Noted u v (starts_before e s m l) =
      listed_before s m (ap (λ b. has v (befores b s)) e ∙ l)
  Precedes-Noted u v (stops_before e s m l) = listed_after s m (ap (λ b. has u (afters b s)) e ∙ l)
  Precedes-Noted u v (stops_after e s m l) = listed_before s m (ap (λ b. has v (befores b s)) e ∙ l)

  put_link_keeps :
      (name u v : String) (to : List String) (links : Links)
      → (has u (links name) ≡ true → has u to ≡ true)
      → has u (links v) ≡ true
      → has u (put_link name to links v) ≡ true
  put_link_keeps name u v to links h e = elim (Bool-cases (text_eq name v)) [
    | inl t ↦
        let same = (text_eq_iff name v).0 t in
        let kept = h (ap (λ z. has u (links z)) same ∙ e) in ground (arith, t, kept)
    | inr t ↦ ground (arith, t, e)
  ]

  link_before_keeps :
      (chosen bs : List String) (name u v : String) (links : Links)
      → has u (links v) ≡ true
      → has u (link_before chosen name bs links v) ≡ true
  link_before_keeps chosen [] name u v links e = e
  link_before_keeps chosen (b ∷ bs) name u v links e = elim (Bool-cases (has b chosen)) [
    | inl h ↦ rw (h) (
        link_before_keeps chosen bs name u v (put_link b (links b ++ name ∷ []) links) (
          put_link_keeps b u v (links b ++ name ∷ []) links
            (λ k. ground (arith, k, has-end u name (links b))) e))
    | inr h ↦ rw (h) (link_before_keeps chosen bs name u v links e)
  ]

  link_before-has :
      (chosen bs : List String) (name v : String) (links : Links)
      → has v bs ≡ true
      → has v chosen ≡ true
      → has name (link_before chosen name bs links v) ≡ true
  link_before-has chosen [] name v links e h = absurd (ground (arith, e))
  link_before-has chosen (b ∷ bs) name v links e h = elim (Bool-cases (text_eq b v)) [
    | inl t ↦
        let same = (text_eq_iff b v).0 t in
        let kept : has b chosen ≡ true = ap (λ z. has z chosen) same ∙ h in
        rw (kept) (
          link_before_keeps chosen bs name name v (put_link b (links b ++ name ∷ []) links)
            (ground (arith, t, has-end name name (links b), (text_eq_iff name name).1 refl)))
    | inr t ↦
        link_before-has chosen bs name v
          (if has b chosen then put_link b (links b ++ name ∷ []) links else links)
          (ground (arith, e, t)) h
  ]

  required_of-has :
      (chosen xs : List String) (u : String)
      → has u xs ≡ true
      → has u chosen ≡ true
      → has u (required_of chosen xs) ≡ true
  required_of-has chosen [] u e h = e
  required_of-has chosen (x ∷ xs) u e h = elim (Bool-cases (text_eq x u)) [
    | inl t ↦
        let kept : has x chosen ≡ true = ap (λ z. has z chosen) ((text_eq_iff x u).0 t) ∙ h in
        ground (arith, kept, t)
    | inr t ↦ ground (
      arith,
      t,
      e,
      required_of-has chosen xs u (ground (arith, e, t)) h,
      has-append u (if has x chosen then x ∷ [] else []) (required_of chosen xs),
    )
  ]

  link_service_keeps :
      (chosen : List String) (name u v : String) (s : Service F) (links : Links)
      → has u (links v) ≡ true
      → has u (link_service stop chosen name s links v) ≡ true
  link_service_keeps chosen name u v s links e =
      let to = links name ++ required_of chosen (afters stop s) in
      link_before_keeps chosen (befores stop s) name u v (put_link name to links) (
        put_link_keeps name u v to links
          (λ k. ground (arith, k, has-append u (links name) (required_of chosen (afters stop s))))
          e)

  link_all_keeps :
      (chosen names : List String) (u v : String) (links out : Links)
      → link_all stop services chosen names links ≡ ok out
      → has u (links v) ≡ true
      → has u (out v) ≡ true
  unfolding link_all
  link_all_keeps chosen [] u v links out e h = ap (λ l. has u (l v)) (sym (ok_inj e)) ∙ h
  link_all_keeps chosen (name ∷ names) u v links out e h =
      elim (Option-cases (find name services)) [
        | inl m ↦ absurd (ground (arith, m, e))
        | inr (s, m) ↦
            link_all_keeps chosen names u v (link_service stop chosen name s links) out
              (ground (arith, m, e)) (link_service_keeps chosen name u v s links h)
      ]

  link_all-visited :
      (chosen names : List String) (name u v : String) (s : Service F) (links out : Links)
      → find name services ≡ some s
      → has name names ≡ true
      → ((l : Links) → has u (link_service stop chosen name s l v) ≡ true)
      → link_all stop services chosen names links ≡ ok out
      → has u (out v) ≡ true
  unfolding link_all
  link_all-visited chosen [] name u v s links out m h g e = absurd (ground (arith, h))
  link_all-visited chosen (n ∷ names) name u v s links out m h g e =
      elim (Option-cases (find n services)) [
        | inl k ↦ absurd (ground (arith, k, e))
        | inr (s', k) ↦
            let next : Links = link_service stop chosen n s' links in
            let rest : link_all stop services chosen names next ≡ ok out = ground (arith, k, e) in
            elim (Bool-cases (text_eq n name)) [
              | inl t ↦
                  let same = (text_eq_iff n name).0 t in
                  let found : s ≡ s' =
                    some_inj (sym m ∙ ap (λ z. find z services) (sym same) ∙ k) in
                  link_all_keeps chosen names u v next out rest (
                    ap (λ z. has u (link_service stop chosen z s' links v)) same
                    ∙ ap (λ z. has u (link_service stop chosen name z links v)) (sym found)
                    ∙ g links)
              | inr t ↦
                  link_all-visited chosen names name u v s next out m (ground (arith, h, t)) g rest
            ]
      ]

  pub link_all-found :
      (chosen names : List String) (links out : Links)
      → link_all stop services chosen names links ≡ ok out
      → (x : String) → has x names ≡ true
      → find x services ≢ none
  unfolding link_all
  link_all-found chosen [] links out e x h = absurd (ground (arith, h))
  link_all-found chosen (n ∷ names) links out e x h = elim (Option-cases (find n services)) [
    | inl k ↦ absurd (ground (arith, k, e))
    | inr (s, k) ↦ elim (Bool-cases (text_eq n x)) [
      | inl t ↦
          λ m. absurd (ground (arith, k, m, ap (λ z. find z services) ((text_eq_iff n x).0 t)))
      | inr t ↦
          link_all-found chosen names (link_service stop chosen n s links) out
            (ground (arith, k, e)) x (ground (arith, t, h))
    ]
  ]

  -- The services that are visited note what comes before.
  link_all-Noted :
      (chosen names : List String) (u v : String) (links out : Links)
      → link_all stop services chosen names links ≡ ok out
      → has u chosen ≡ true
      → has v chosen ≡ true
      → has u names ≡ true
      → has v names ≡ true
      → Noted u v
      → has u (out v) ≡ true
  link_all-Noted chosen names u v links out e cu cv nu nv (listed_after s m l) =
      link_all-visited chosen names v u v s links out m nv
        (λ l0.
          link_before_keeps chosen (befores stop s) v u v
            (put_link v (l0 v ++ required_of chosen (afters stop s)) l0)
            (ground (
              arith,
              (text_eq_iff v v).1 refl,
              required_of-has chosen (afters stop s) u l cu,
              has-append u (l0 v) (required_of chosen (afters stop s)),
            )))
        e
  link_all-Noted chosen names u v links out e cu cv nu nv (listed_before s m l) =
      link_all-visited chosen names u u v s links out m nu
        (λ l0.
          link_before-has chosen (befores stop s) u v
            (put_link u (l0 u ++ required_of chosen (afters stop s)) l0) l cv)
        e

  pub link_all-Precedes :
      (chosen names : List String) (u v : String) (links out : Links)
      → link_all stop services chosen names links ≡ ok out
      → has u chosen ≡ true
      → has v chosen ≡ true
      → has u names ≡ true
      → has v names ≡ true
      → Precedes u v
      → has u (out v) ≡ true
  link_all-Precedes chosen names u v links out e cu cv nu nv p =
      link_all-Noted chosen names u v links out e cu cv nu nv (Precedes-Noted u v p)
