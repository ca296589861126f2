-- ===== src/Plan/Placing.antt =====
-- `StartOrder` and `StopOrder` as wholes (internals/plan/plan.go).
use buildtest.Base.{
  Bool, List, String, [], ap, arith, false, get_elem?, has, if◌then◌else◌, inl, inr, length,
  length-replicate, none, refl, replicate, some, sym, true, ℕ, ◌++◌, ◌+◌, ◌<◌, ◌↔◌, ◌∙◌, ◌∷◌, ◌≡◌,
  ◌≢◌, ◌≤◌, ◌⊎◌,
}
use buildtest.Plan.Chosen.{bind-Returns, weight}
use buildtest.Plan.Links.{Precedes, link_all-found}
use buildtest.Plan.Pulled.{ok_inj}
use buildtest.Plan.Gathered.{Needs}
use buildtest.Plan.Sorting.{RangesAll, SortsAll, concat}
use buildtest.Plan.Sequence.{
  ok_of_bind, order-Needs, order-Precedes, order-Returns, order-collect, order-covers,
}
use buildtest.Plan.Rows.{
  fill_lanes-joined, get_elem?-rows, has-lane_names, has-rows, joined_none, lane_names-split,
  map_lanes-Within, rows,
}
use buildtest.Plan.Lanes.{Mapping, create_lanes, lane_or, start_order, stop_order}
use buildtest.Plan.Order.{Links, Ordered, Returns, Services, find, ok, order, ◌>>=◌}

abbrev empty_lane : List String
empty_lane = []

module _ {F : Type 0} (sort : List String → Links → List (List String))
    (range : List String → List String) where
  -- What a request to start or to stop is given.
  abbrev pub start_or_stop_order :
      Bool → ℕ → Services F → List String → Ordered (List (List String))
  start_or_stop_order stop f services names =
      if stop
      then stop_order sort range f services names
      else start_order sort range f services names

  create_lanes-rows :
      (services : Services F) (names : List String)
      → ((x : String) → has x names ≡ true → find x services ≢ none)
      → (mapping : Mapping) × (n : ℕ) × (create_lanes names services ≡ ok (rows mapping 0 n names))
        × ((x : String) → lane_or 0 (mapping x) < n)
  unfolding create_lanes
  create_lanes-rows services names h =
      let (mapping, last, e, w) =
        map_lanes-Within names services 0 0 (λ name. none) h (λ x. omega arith) in
      let inside : (x : String) → lane_or 0 (mapping x) < length (replicate (last + 1) empty_lane) =
        λ x. omega (arith, w x, length-replicate (last + 1) empty_lane) in
      (
        mapping,
        last + 1,
        rw (e) (
            fill_lanes-joined mapping names (replicate (last + 1) empty_lane) inside
            ∙ ap ok (joined_none mapping 0 (last + 1) names)),
        λ x. omega (arith, w x),
      )

  start_or_stop_order-order :
      (stop : Bool) (f : ℕ) (services : Services F) (names : List String)
      → start_or_stop_order stop f services names
        ≡ (do ordered ← order sort range f services names stop; create_lanes ordered services)
  unfolding start_order stop_order
  start_or_stop_order-order true f services names = refl
  start_or_stop_order-order false f services names = refl

  module _ (sorts : SortsAll sort) (ranges : RangesAll range) where
    order-found :
        (stop : Bool) (f : ℕ) (services : Services F) (names out : List String)
        → order sort range f services names stop ≡ ok out
        → (x : String) → has x out ≡ true
        → find x services ≢ none
    order-found stop f services names out e x h =
        let (chosen, links, c, l, s) = order-collect sort range f services names stop out e in
        let kept : has x (range chosen) ≡ true =
          ranges chosen x ∙ sym (order-covers sort sorts chosen links out s x) ∙ h in
        link_all-found stop services chosen (range chosen) (λ name. []) links l x kept

    placed :
        (stop : Bool) (f : ℕ) (services : Services F) (names : List String)
        (lanes : List (List String))
        → start_or_stop_order stop f services names ≡ ok lanes
        → (out : List String) × (mapping : Mapping) × (n : ℕ) × (order sort range f services names
              stop
            ≡ ok out)
          × (lanes ≡ rows mapping 0 n out)
          × ((x : String) → lane_or 0 (mapping x) < n)
    placed stop f services names lanes e =
        let (out, o, c) =
          ok_of_bind (order sort range f services names stop)
            (λ ordered. create_lanes ordered services) lanes
            (sym (start_or_stop_order-order stop f services names) ∙ e) in
        let (mapping, n, r, w) =
          create_lanes-rows services out (order-found stop f services names out o) in
        (out, mapping, n, o, ok_inj (sym c ∙ r), w)

    -- If the sort and the ranges over maps keep their promises, then in the lanes that StartOrder
    -- or StopOrder returns there are exactly the named services and those that they need, directly
    -- or not: those that a started service requires, and those that require a stopped one.
    pub lanes-Needs :
        (stop : Bool) (f : ℕ) (services : Services F) (names : List String)
        (lanes : List (List String))
        → start_or_stop_order stop f services names ≡ ok lanes
        → (x : String) → (has x (concat lanes) ≡ true) ↔ Needs stop services names x
    lanes-Needs stop f services names lanes e x =
        let (out, mapping, n, o, r, w) = placed stop f services names lanes e in
        let all : has x (concat lanes) ≡ has x out =
          ground (arith, ap (λ z. has x (concat z)) r, has-rows mapping 0 n out x, w x) in
        let needs = order-Needs sort range sorts f services names stop out o x in
        (λ h. needs.0 (sym all ∙ h), λ k. all ∙ needs.1 k)

    -- If the sort and the ranges over maps keep their promises, then no service is in two of the
    -- lanes that StartOrder or StopOrder returns.
    pub lanes-apart :
        (stop : Bool) (f : ℕ) (services : Services F) (names : List String)
        (lanes : List (List String))
        → start_or_stop_order stop f services names ≡ ok lanes
        → (i j : ℕ) (a b : List String) (x : String) → get_elem? lanes i ≡ some a
        → get_elem? lanes j ≡ some b
        → has x a ≡ true
        → has x b ≡ true
        → i ≡ j
    lanes-apart stop f services names lanes e i j a b x gi gj ha hb =
        let (out, mapping, n, o, r, w) = placed stop f services names lanes e in
        let la = get_elem?-rows mapping 0 n out i a (ap (λ z. get_elem? z i) (sym r) ∙ gi) in
        let lb = get_elem?-rows mapping 0 n out j b (ap (λ z. get_elem? z j) (sym r) ∙ gj) in
        ground (
          arith,
          ap (has x) la,
          ap (has x) lb,
          has-lane_names mapping (0 + i) x out,
          has-lane_names mapping (0 + j) x out,
          ha,
          hb,
        )

    -- If the sort and the ranges over maps keep their promises, then in each lane that StartOrder
    -- or StopOrder returns a service stands behind every other service of that lane that its
    -- configuration, or the other one's, puts before it: by after and before when services start,
    -- and the other way round when they stop.
    pub lanes-Precedes :
        (stop : Bool) (f : ℕ) (services : Services F) (names : List String)
        (lanes : List (List String))
        → start_or_stop_order stop f services names ≡ ok lanes
        → (i : ℕ) (pre post : List String) (u v : String)
        → get_elem? lanes i ≡ some (pre ++ v ∷ post)
        → has u (pre ++ v ∷ post) ≡ true
        → Precedes stop services u v
        → (has u pre ≡ true) ⊎ (v ≡ u)
    lanes-Precedes stop f services names lanes e i pre post u v g h p =
        let (out, mapping, n, o, r, w) = placed stop f services names lanes e in
        let l =
          get_elem?-rows mapping 0 n out i (pre ++ v ∷ post)
            (ap (λ z. get_elem? z i) (sym r) ∙ g) in
        let (above, below, same, cut) = lane_names-split mapping (0 + i) out pre v post l in
        let member = ap (has u) l ∙ h in
        let inlane = has-lane_names mapping (0 + i) u out in
        let there : has u (above ++ v ∷ below) ≡ true =
          ground (arith, member, inlane, ap (has u) same) in
        elim (order-Precedes sort range sorts ranges f services names stop above below u v
          (o ∙ ap ok same) there p) [
            | inl k ↦ inl (
                ground (
                  arith,
                  member,
                  inlane,
                  k,
                  ap (has u) cut,
                  has-lane_names mapping (0 + i) u above,
                ))
            | inr k ↦ inr k
          ]

    -- If the sort and the ranges over maps keep their promises, StartOrder and StopOrder return
    -- lanes or an error, whatever cycles the services have: they do not index out of range, and as
    -- many rounds of the loop as there are names asked for, and services required by any service,
    -- are enough.
    pub lanes-Returns :
        (stop : Bool) (f : ℕ) (services : Services F) (names : List String)
        → length names + weight stop services [] ≤ f
        → Returns (start_or_stop_order stop f services names)
    lanes-Returns stop f services names h = rw (start_or_stop_order-order stop f services names) (
        bind-Returns (order sort range f services names stop)
          (λ ordered. create_lanes ordered services)
          (order-Returns sort range sorts f services names stop h)
          (λ out o.
            let (mapping, n, r, w) =
              create_lanes-rows services out (order-found stop f services names out o) in
            rw (r) refl))
