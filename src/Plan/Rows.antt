-- ===== src/Plan/Rows.antt =====
-- Which services `createLanes` puts in each lane (internals/plan/plan.go).

use mathlib.Core.List.{append-nil, append_assoc}
use buildtest.Base.{
  Bool-cases, List, Option-cases, String, [], ap, arith, false, get_elem?, has, has-append,
  if◌then◌else◌, inl, inr, leb, length, ltb, none, refl, replicate, some, suc, sym, text_eq,
  text_eq_iff, true, zero, ℕ, ◌&&◌, ◌++◌, ◌+◌, ◌<◌, ◌==◌, ◌∙◌, ◌∷◌, ◌≡◌, ◌≢◌, ◌≤◌,
}
use buildtest.Plan.Links.{some_inj}
use buildtest.Plan.Sorting.{concat}
use buildtest.Plan.Sequence.{no_end, ∷_head, ∷_tail}
use buildtest.Plan.Lanes.{
  Mapping, append_at, fill_lanes, get_or_create_lane, known_lane, lane_or, map_lanes,
  map_service_to_lane, put_lane, put_lanes,
}
use buildtest.Plan.Order.{Services, find, ok}

-- The services of one lane, in their order.
abbrev pub lane_names : Mapping → ℕ → List String → List String
lane_names mapping k [] = []
lane_names mapping k (x ∷ xs) =
    if lane_or 0 (mapping x) == k then x ∷ lane_names mapping k xs else lane_names mapping k xs

-- So many lanes, from a number on.
abbrev pub rows : Mapping → ℕ → ℕ → List String → List (List String)
rows mapping k zero names = []
rows mapping k (suc n) names = lane_names mapping k names ∷ rows mapping (suc k) n names

abbrev pub joined : Mapping → ℕ → List (List String) → List String → List (List String)
joined mapping k [] names = []
joined mapping k (row ∷ more) names =
    (row ++ lane_names mapping k names) ∷ joined mapping (suc k) more names

joined_skip :
    (mapping : Mapping) (k : ℕ) (lanes : List (List String)) (name : String) (names : List String)
    → lane_or 0 (mapping name) < k
    → joined mapping k lanes names ≡ joined mapping k lanes (name ∷ names)
joined_skip mapping k [] name names h = refl
joined_skip mapping k (row ∷ more) name names h =
    let other : lane_or 0 (mapping name) == k ≡ false = ground arith in
    rw (joined_skip mapping (suc k) more name names (omega arith), other) refl

pub joined_none :
    (mapping : Mapping) (k n : ℕ) (names : List String)
    → joined mapping k (replicate n []) names ≡ rows mapping k n names
joined_none mapping k zero names = refl
joined_none mapping k (suc n) names = rw (joined_none mapping (suc k) n names) refl

joined_nothing :
    (mapping : Mapping) (k : ℕ) (lanes : List (List String)) → joined mapping k lanes [] ≡ lanes
joined_nothing mapping k [] = refl
joined_nothing mapping k (row ∷ more) =
    rw (joined_nothing mapping (suc k) more, append-nil row) refl

-- Who is in a lane, and in what order.
pub has-lane_names :
    (mapping : Mapping) (k : ℕ) (x : String) (names : List String)
    → has x (lane_names mapping k names) ≡ has x names && (lane_or 0 (mapping x) == k)
has-lane_names mapping k x [] = refl
has-lane_names mapping k x (n ∷ names) = elim (Bool-cases (text_eq n x)) [
  | inl t ↦ ground (
    arith,
    t,
    has-lane_names mapping k x names,
    ap (λ z. lane_or 0 (mapping z)) ((text_eq_iff n x).0 t),
  )
  | inr t ↦ ground (arith, t, has-lane_names mapping k x names)
]

pub lane_names-split :
    (mapping : Mapping) (k : ℕ) (names pre : List String) (v : String) (post : List String)
    → lane_names mapping k names ≡ pre ++ v ∷ post
    → (above : List String) × (below : List String) × (names ≡ above ++ v ∷ below)
      × (lane_names mapping k above ≡ pre)
lane_names-split mapping k [] pre v post e = absurd (no_end pre v post e)
lane_names-split mapping k (n ∷ names) [] v post e =
    elim (Bool-cases (lane_or 0 (mapping n) == k)) [
      | inl h ↦
          let first : n ∷ lane_names mapping k names ≡ v ∷ post = ground (arith, h, e) in
          ([], names, ap (λ z. z ∷ names) (∷_head first), refl)
      | inr h ↦
          let (above, below, same, l) =
            lane_names-split mapping k names [] v post (ground (arith, h, e)) in
          (n ∷ above, below, ap (λ z. n ∷ z) same, rw (h) l)
    ]
lane_names-split mapping k (n ∷ names) (p ∷ pre) v post e =
    elim (Bool-cases (lane_or 0 (mapping n) == k)) [
      | inl h ↦
          let first : n ∷ lane_names mapping k names ≡ p ∷ (pre ++ v ∷ post) =
            ground (arith, h, e) in
          let (above, below, same, l) =
            lane_names-split mapping k names pre v post (∷_tail first) in
          (n ∷ above, below, ap (λ z. n ∷ z) same, rw (h, l) (ap (λ z. z ∷ pre) (∷_head first)))
      | inr h ↦
          let (above, below, same, l) =
            lane_names-split mapping k names (p ∷ pre) v post (ground (arith, h, e)) in
          (n ∷ above, below, ap (λ z. n ∷ z) same, rw (h) l)
    ]

pub get_elem?-rows :
    (mapping : Mapping) (k n : ℕ) (names : List String) (i : ℕ) (lane : List String)
    → get_elem? (rows mapping k n names) i ≡ some lane
    → lane_names mapping (k + i) names ≡ lane
get_elem?-rows mapping k zero names i lane e = absurd (ground (arith, e))
get_elem?-rows mapping k (suc n) names zero lane e =
    let same : k + 0 ≡ k = omega arith in ap (λ z. lane_names mapping z names) same ∙ some_inj e
get_elem?-rows mapping k (suc n) names (suc i) lane e =
    let shift : k + suc i ≡ suc k + i = omega arith in
    ap (λ z. lane_names mapping z names) shift ∙ get_elem?-rows mapping (suc k) n names i lane e

pub has-rows :
    (mapping : Mapping) (k n : ℕ) (names : List String) (x : String)
    → has x (concat (rows mapping k n names))
      ≡ has x names && (leb k (lane_or 0 (mapping x)) && ltb (lane_or 0 (mapping x)) (k + n))
has-rows mapping k zero names x = ground arith
has-rows mapping k (suc n) names x = ground (
  arith,
  has-append x (lane_names mapping k names) (concat (rows mapping (suc k) n names)),
  has-rows mapping (suc k) n names x,
  has-lane_names mapping k x names,
)

append_at-joined :
    (mapping : Mapping) (k i : ℕ) (name : String) (names : List String) (lanes : List (List String))
    → i < length lanes
    → lane_or 0 (mapping name) ≡ k + i
    → (more : List (List String)) × (append_at i name lanes ≡ ok more)
      × (joined mapping k more names ≡ joined mapping k lanes (name ∷ names))
      × (length more ≡ length lanes)
append_at-joined mapping k i name names [] h e = absurd (omega arith)
append_at-joined mapping k zero name names (row ∷ more) h e =
    let here : lane_or 0 (mapping name) == k ≡ true = ground (arith, e) in
    (
      (row ++ name ∷ []) ∷ more,
      refl,
      rw
          (
            here,
            joined_skip mapping (suc k) more name names (omega (arith, e)),
            append_assoc row (name ∷ []) (lane_names mapping k names),
          )
          refl,
      refl,
    )
append_at-joined mapping k (suc i) name names (row ∷ more) h e =
    let other : lane_or 0 (mapping name) == k ≡ false = ground (arith, e) in
    let (rest, a, j, l) =
      append_at-joined mapping (suc k) i name names more (omega arith) (omega (arith, e)) in
    (row ∷ rest, rw (a) refl, rw (other, j) refl, ap suc l)

pub fill_lanes-joined :
    (mapping : Mapping) (names : List String) (lanes : List (List String))
    → ((x : String) → lane_or 0 (mapping x) < length lanes)
    → fill_lanes names mapping lanes ≡ ok (joined mapping 0 lanes names)
unfolding fill_lanes
fill_lanes-joined mapping [] lanes h = ap ok (sym (joined_nothing mapping 0 lanes))
fill_lanes-joined mapping (name ∷ names) lanes h =
    let (more, a, j, l) =
      append_at-joined mapping 0 (lane_or 0 (mapping name)) name names lanes (h name)
        (omega arith) in
    rw (a) (fill_lanes-joined mapping names more (λ x. omega (arith, h x, l)) ∙ ap ok j)

abbrev pub Within : Mapping → ℕ → Type 0
Within mapping most = (x : String) → lane_or 0 (mapping x) ≤ most

put_lane-Within :
    (name : String) (lane most : ℕ) (mapping : Mapping)
    → lane ≤ most
    → Within mapping most
    → Within (put_lane name lane mapping) most
put_lane-Within name lane most mapping h w = λ x. ground (arith, w x)

put_lanes-Within :
    (names : List String) (lane most : ℕ) (mapping : Mapping)
    → lane ≤ most
    → Within mapping most
    → Within (put_lanes names lane mapping) most
put_lanes-Within [] lane most mapping h w = w
put_lanes-Within (d ∷ ds) lane most mapping h w =
    put_lanes-Within ds lane most (put_lane d lane mapping) h
      (put_lane-Within d lane most mapping h w)

module _ {F : Type 0} where
  pub map_lanes-Within :
      (names : List String) (services : Services F) (next most : ℕ) (mapping : Mapping)
      → ((x : String) → has x names ≡ true → find x services ≢ none)
      → Within mapping most
      → (out : Mapping) × (last : ℕ) × (map_lanes names services next most mapping ≡ ok (out, last))
        × Within out last
  unfolding map_lanes get_or_create_lane
  map_lanes-Within [] services next most mapping h w = (mapping, most, refl, w)
  map_lanes-Within (name ∷ names) services next most mapping h w =
      elim (Option-cases (find name services)) [
        | inl m ↦ absurd (h name (ground (arith, (text_eq_iff name name).1 refl)) m)
        | inr (s, m) ↦
            let lane = lane_or next (known_lane s mapping) in
            let more = if ltb most lane then lane else most in
            let (out, last, e, wo) =
              map_lanes-Within names services (lane + 1) more (map_service_to_lane s lane mapping)
                (λ x k. h x (ground (arith, k)))
                (put_lanes-Within s.requires lane more (put_lane s.name lane mapping) (ground arith)
                  (put_lane-Within s.name lane more mapping (ground arith)
                    (λ x. ground (arith, w x)))) in
            (out, last, rw (m) e, wo)
      ]
