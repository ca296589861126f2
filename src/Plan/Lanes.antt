-- ===== src/Plan/Lanes.antt =====
-- The lanes of services (`createLanes`, `StartOrder` and `StopOrder`, internals/plan/plan.go).
use buildtest.Base.{
  List, Option, String, [], false, if◌then◌else◌, ltb, none, replicate, some, suc, text_eq, true,
  zero, ℕ, ◌++◌, ◌+◌, ◌∷◌,
}
use buildtest.Plan.Data.{Service}
use buildtest.Plan.Order.{Links, Ordered, Services, find, ok, or_missing, order, panicked, ◌>>=◌}

-- `serviceLaneMapping`.
abbrev pub Mapping : Type 0
Mapping = String → Option ℕ

abbrev pub put_lane : String → ℕ → Mapping → Mapping
put_lane name lane mapping x = if text_eq name x then some lane else mapping x

abbrev pub put_lanes : List String → ℕ → Mapping → Mapping
put_lanes [] lane mapping = mapping
put_lanes (d ∷ ds) lane mapping = put_lanes ds lane (put_lane d lane mapping)

-- The lane of the first dependency that has one.
abbrev pub dependency_lane : Mapping → List String → Option ℕ
dependency_lane mapping [] = none
dependency_lane mapping (d ∷ ds) = elim (mapping d) [
  | none ↦ dependency_lane mapping ds
  | some lane ↦ some lane
]

-- A key that is missing reads as 0.
abbrev pub lane_or : ℕ → Option ℕ → ℕ
lane_or next none = next
lane_or next (some lane) = lane

-- `lanes[lane] = append(lanes[lane], service)`.
abbrev pub append_at : ℕ → String → List (List String) → Ordered (List (List String))
append_at i name [] = panicked
append_at zero name (row ∷ rows) = ok ((row ++ name ∷ []) ∷ rows)
append_at (suc i) name (row ∷ rows) = do rest ← append_at i name rows; ok (row ∷ rest)

-- The second loop.
unfoldable pub fill_lanes :
    List String → Mapping → List (List String) → Ordered (List (List String))
fill_lanes [] mapping lanes = ok lanes
fill_lanes (name ∷ names) mapping lanes = do
  more ← append_at (lane_or 0 (mapping name)) name lanes
  fill_lanes names mapping more

module _ {F : Type 0} where
  abbrev pub map_service_to_lane : Service F → ℕ → Mapping → Mapping
  map_service_to_lane s lane mapping = put_lanes s.requires lane (put_lane s.name lane mapping)

  abbrev pub known_lane : Service F → Mapping → Option ℕ
  known_lane s mapping = elim (mapping s.name) [
    | some lane ↦ some lane
    | none ↦ dependency_lane mapping s.requires
  ]

  -- `next` is `currentLane + 1`.
  unfoldable pub get_or_create_lane : ℕ → Service F → Mapping → ℕ × Mapping
  get_or_create_lane next s mapping =
      let lane = lane_or next (known_lane s mapping) in (lane, map_service_to_lane s lane mapping)

  -- The first loop.
  unfoldable pub map_lanes : List String → Services F → ℕ → ℕ → Mapping → Ordered (Mapping × ℕ)
  unfolding get_or_create_lane
  map_lanes [] services next most mapping = ok (mapping, most)
  map_lanes (name ∷ names) services next most mapping = do
    s ← or_missing name (find name services)
    (lane, more) ← ok (get_or_create_lane next s mapping)
    map_lanes names services (lane + 1) (if ltb most lane then lane else most) more

  unfoldable pub create_lanes : List String → Services F → Ordered (List (List String))
  unfolding map_lanes fill_lanes
  create_lanes names services = do
    (mapping, most) ← map_lanes names services 0 0 (λ name. none)
    fill_lanes names mapping (replicate (most + 1) [])

  unfoldable pub start_order :
      (List String → Links → List (List String))
      → (List String → List String)
      → ℕ
      → Services F
      → List String
      → Ordered (List (List String))
  unfolding order create_lanes
  start_order sort range f services names = do
    ordered ← order sort range f services names false
    create_lanes ordered services

  unfoldable pub stop_order :
      (List String → Links → List (List String))
      → (List String → List String)
      → ℕ
      → Services F
      → List String
      → Ordered (List (List String))
  unfolding order create_lanes
  stop_order sort range f services names = do
    ordered ← order sort range f services names true
    create_lanes ordered services
