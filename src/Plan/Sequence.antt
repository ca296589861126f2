-- ===== src/Plan/Sequence.antt =====
-- The order of services that `order` returns (internals/plan/plan.go).
use buildtest.Plan.Sorting.{RangesAll, SortsAll, concat, is_full, linked, settles}
use buildtest.Plan.Chosen.{bind-Returns, collect-Returns, weight}
use buildtest.Plan.Links.{Precedes, link_all-Precedes}
use buildtest.Plan.Pulled.{ok_inj}
use buildtest.Plan.Gathered.{Needs, collect-Needs}
use buildtest.Base.{
  Bool, Bool-cases, List, Option-cases, String, [], ap, arith, has, has-append, has-end, inl, inr,
  length, refl, sym, text_eq, text_eq_iff, true, ℕ, ◌++◌, ◌+◌, ◌||◌, ◌↔◌, ◌∙◌, ◌∷◌, ◌≡◌, ◌≢◌, ◌≤◌,
  ◌⊎◌,
}
use buildtest.Plan.Order.{
  Links, Ordered, Returns, Services, collect, err, find, link_all, link_service, ok, or_missing,
  order, out_of_fuel, panicked, singles, ◌>>=◌,
}

linked-has :
    (keys ys xs : List String) (x : String)
    → linked keys ys xs ≡ true
    → has x xs ≡ true
    → has x keys ≡ true
    → has x ys ≡ true
linked-has keys ys [] x e h k = absurd (ground (arith, h))
linked-has keys ys (z ∷ zs) x e h k = elim (Bool-cases (text_eq z x)) [
  | inl t ↦ ground (
    arith,
    e,
    k,
    ap (λ y. has y keys) ((text_eq_iff z x).0 t),
    ap (λ y. has y ys) ((text_eq_iff z x).0 t),
  )
  | inr t ↦ linked-has keys ys zs x (ground (arith, e)) (ground (arith, t, h)) k
]

pub ∷_head : {a b : String} {xs ys : List String} → a ∷ xs ≡ b ∷ ys → a ≡ b
∷_head e = cc

pub ∷_tail : {a b : String} {xs ys : List String} → a ∷ xs ≡ b ∷ ys → xs ≡ ys
∷_tail e = cc

pub no_end : (pre : List String) (v : String) (post : List String) → [] ≢ pre ++ v ∷ post
no_end [] v post = λ e. cc
no_end (x ∷ pre) v post = λ e. cc

pub ok_of_bind :
    {A B : Type 0} (r : Ordered A) (f : A → Ordered B) (b : B)
    → r >>= f ≡ ok b
    → (a : A) × (r ≡ ok a) × (f a ≡ ok b)
ok_of_bind (ok a) f b e = (a, refl, e)
ok_of_bind (err x) f b e = absurd (ground (arith, e))
ok_of_bind panicked f b e = absurd (ground (arith, e))
ok_of_bind out_of_fuel f b e = absurd (ground (arith, e))

-- What comes before a name, in a list of components that are single names.
singles-settled :
    (keys seen : List String) (links : Links) (comps : List (List String)) (pre post : List String)
    (u v : String)
    → singles comps ≡ ok (pre ++ v ∷ post)
    → settles keys links seen comps ≡ true
    → has u (links v) ≡ true
    → has u keys ≡ true
    → has u seen || (has u pre || text_eq v u) ≡ true
unfolding singles
singles-settled keys seen links [] pre post u v e h l k = absurd (no_end pre v post (ok_inj e))
singles-settled keys seen links ([] ∷ comps) pre post u v e h l k = absurd (ground (arith, e))
singles-settled keys seen links ((n ∷ o ∷ ns) ∷ comps) pre post u v e h l k =
    absurd (ground (arith, e))
singles-settled keys seen links ((n ∷ []) ∷ comps) [] post u v e h l k =
    let (rest, m, same) = ok_of_bind (singles comps) (λ names. ok (n ∷ names)) (v ∷ post) e in
    let first : n ≡ v = ∷_head (ok_inj same) in
    let found =
      linked-has keys (seen ++ n ∷ []) (links n) u (ground (arith, h))
        (ap (λ z. has u (links z)) first ∙ l) k in
    ground (arith, found, has-end u n seen, ap (λ z. text_eq z u) first)
singles-settled keys seen links ((n ∷ []) ∷ comps) (p ∷ pre) post u v e h l k =
    let (rest, m, same) =
      ok_of_bind (singles comps) (λ names. ok (n ∷ names)) (p ∷ pre ++ v ∷ post) e in
    let first : n ≡ p = ∷_head (ok_inj same) in
    let later : rest ≡ pre ++ v ∷ post = ∷_tail (ok_inj same) in
    let found =
      singles-settled keys (seen ++ n ∷ []) links comps pre post u v (m ∙ ap ok later)
        (ground (arith, h)) l k in
    ground (arith, found, has-end u n seen, ap (λ z. text_eq z u) first)

singles-concat :
    (comps : List (List String)) (out : List String) → singles comps ≡ ok out → concat comps ≡ out
unfolding singles
singles-concat [] out e = ok_inj e
singles-concat ([] ∷ comps) out e = absurd (ground (arith, e))
singles-concat ((n ∷ o ∷ ns) ∷ comps) out e = absurd (ground (arith, e))
singles-concat ((n ∷ []) ∷ comps) out e =
    let (rest, m, same) = ok_of_bind (singles comps) (λ names. ok (n ∷ names)) out e in
    ap (λ z. n ∷ z) (singles-concat comps rest m) ∙ ok_inj same

singles-Returns : (comps : List (List String)) → is_full comps ≡ true → Returns (singles comps)
unfolding singles
singles-Returns [] h = refl
singles-Returns ([] ∷ comps) h = absurd (ground (arith, h))
singles-Returns ((n ∷ o ∷ ns) ∷ comps) h = refl
singles-Returns ((n ∷ []) ∷ comps) h =
    bind-Returns (singles comps) (λ names. ok (n ∷ names)) (singles-Returns comps h)
      (λ names m. refl)

link_all-Returns :
    {F : Type 0} (stop : Bool) (services : Services F) (chosen names : List String) (links : Links)
    → Returns (link_all stop services chosen names links)
unfolding link_all
link_all-Returns stop services chosen [] links = refl
link_all-Returns stop services chosen (n ∷ names) links =
    bind-Returns (or_missing n (find n services))
      (λ s. link_all stop services chosen names (link_service stop chosen n s links))
      (elim (Option-cases (find n services)) [
        | inl m ↦ ground (arith, m)
        | inr (s, m) ↦ ground (arith, m)
      ])
      (λ s m. link_all-Returns stop services chosen names (link_service stop chosen n s links))

pub order-covers :
    (sort : List String → Links → List (List String)) (sorts : SortsAll sort) (chosen : List String)
    (links : Links) (out : List String)
    → singles (sort chosen links) ≡ ok out
    → (x : String) → has x out ≡ has x chosen
order-covers sort sorts chosen links out s x =
    ap (has x) (sym (singles-concat (sort chosen links) out s)) ∙ sorts.covers chosen links x

module _ {F : Type 0} (sort : List String → Links → List (List String))
    (range : List String → List String) where
  pub order-collect :
      (f : ℕ) (services : Services F) (names : List String) (stop : Bool) (out : List String)
      → order sort range f services names stop ≡ ok out
      → (chosen : List String) × (links : Links) × (collect f stop services names [] ≡ ok chosen)
        × (link_all stop services chosen (range chosen) (λ name. []) ≡ ok links)
        × (singles (sort chosen links) ≡ ok out)
  unfolding order
  order-collect f services names stop out e =
      let (chosen, c, e1) =
        ok_of_bind (collect f stop services names [])
          (λ chosen. do
            links ← link_all stop services chosen (range chosen) (λ name. [])
            singles (sort chosen links))
          out e in
      let (links, l, e2) =
        ok_of_bind (link_all stop services chosen (range chosen) (λ name. []))
          (λ links. singles (sort chosen links)) out e1 in
      (chosen, links, c, l, e2)

  -- what is ordered
  pub order-Needs :
      (sorts : SortsAll sort) (f : ℕ) (services : Services F) (names : List String) (stop : Bool)
      (out : List String)
      → order sort range f services names stop ≡ ok out
      → (x : String) → (has x out ≡ true) ↔ Needs stop services names x
  order-Needs sorts f services names stop out e x =
      let (chosen, links, c, l, s) = order-collect f services names stop out e in
      let all : has x out ≡ has x chosen =
        ap (has x) (sym (singles-concat (sort chosen links) out s)) ∙ sorts.covers chosen links x in
      let chose = collect-Needs stop services names f chosen c x in
      (λ h. chose.0 (sym all ∙ h), λ n. all ∙ chose.1 n)

  pub order-Precedes :
      (sorts : SortsAll sort) (ranges : RangesAll range) (f : ℕ) (services : Services F)
      (names : List String) (stop : Bool) (pre post : List String) (u v : String)
      → order sort range f services names stop ≡ ok (pre ++ v ∷ post)
      → has u (pre ++ v ∷ post) ≡ true
      → Precedes stop services u v
      → (has u pre ≡ true) ⊎ (v ≡ u)
  order-Precedes sorts ranges f services names stop pre post u v e h p =
      let (chosen, links, c, l, s) = order-collect f services names stop (pre ++ v ∷ post) e in
      let all : (x : String) → has x (pre ++ v ∷ post) ≡ has x chosen = λ x.
        ap (has x) (sym (singles-concat (sort chosen links) (pre ++ v ∷ post) s))
        ∙ sorts.covers chosen links x in
      let hu : has u chosen ≡ true = sym (all u) ∙ h in
      let hv : has v chosen ≡ true =
        ground (arith, all v, has-append v pre (v ∷ post), (text_eq_iff v v).1 refl) in
      let linked =
        link_all-Precedes stop services chosen (range chosen) u v (λ name. []) links l hu hv
          (ranges chosen u ∙ hu) (ranges chosen v ∙ hv) p in
      let found =
        singles-settled chosen [] links (sort chosen links) pre post u v s
          (sorts.settled chosen links) linked hu in
      elim (Bool-cases (has u pre)) [
        | inl k ↦ inl k
        | inr k ↦ inr ((text_eq_iff v u).0 (ground (arith, k, found)))
      ]

  -- that it returns
  pub order-Returns :
      (sorts : SortsAll sort) (f : ℕ) (services : Services F) (names : List String) (stop : Bool)
      → length names + weight stop services [] ≤ f
      → Returns (order sort range f services names stop)
  unfolding order
  order-Returns sorts f services names stop h =
      bind-Returns (collect f stop services names [])
        (λ chosen. do
          links ← link_all stop services chosen (range chosen) (λ name. [])
          singles (sort chosen links))
        (collect-Returns f stop services names [] h)
        (λ chosen m.
          bind-Returns (link_all stop services chosen (range chosen) (λ name. []))
            (λ links. singles (sort chosen links))
            (link_all-Returns stop services chosen (range chosen) (λ name. []))
            (λ links m. singles-Returns (sort chosen links) (sorts.full chosen links)))
