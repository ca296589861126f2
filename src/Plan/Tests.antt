-- ===== src/Plan/Tests.antt =====
-- Small plans, and the theorems at them.
use buildtest.Plan.Placing.{
  lanes-Needs, lanes-Precedes, lanes-Returns, lanes-apart, start_or_stop_order,
}
use buildtest.Plan.Lanes.{
  create_lanes, fill_lanes, get_or_create_lane, map_lanes, start_order, stop_order,
}
use buildtest.Base.Int.{pos, ℤ}
use buildtest.Base.{
  List, String, [], arith, false, has, has-append, if◌then◌else◌, none, refl, text_eq, true, ℕ,
  ◌||◌, ◌↔◌, ◌∷◌, ◌≡◌, ◌⊎◌,
}
use buildtest.Plan.Gathered.{Needs}
use buildtest.Plan.Links.{Precedes, starts_after}
use buildtest.Plan.Data.{Optional, Service, replace, startup_unknown, unset}
use buildtest.Plan.Order.{Links, Returns, Services, collect, link_all, ok, order, singles}
use buildtest.Plan.Sorting.{RangesAll, SortsAll, concat, is_full, linked, linked_each, settles}

abbrev pub no_value : Optional ℤ
no_value = record { value = pos 0; is_set = false }

abbrev pub a_service : String → List String → List String → Service ℕ
a_service name after requires = record {
  name = name;
  summary = "";
  description = "";
  startup = startup_unknown;
  override = replace;
  command = "cmd";
  after = after;
  before = [];
  requires = requires;
  workload = "";
  environment = λ x. none;
  user_id = none;
  user = "";
  group_id = none;
  group = "";
  working_dir = "";
  on_success = unset;
  on_failure = unset;
  on_check_failure = λ x. none;
  backoff_delay = no_value;
  backoff_factor = record { value = 0; is_set = false };
  backoff_limit = no_value;
  kill_delay = no_value;
}

-- A web service that needs a database, and a cron service by itself.
abbrev web_and_db : Services ℕ
web_and_db =
    ("web", a_service "web" ("db" ∷ []) ("db" ∷ []))
    ∷ ("db", a_service "db" [] [])
    ∷ ("cron", a_service "cron" [] [])
    ∷ []

-- A sort that returns the keys from the last on where that is an order, and one component elsewhere.
abbrev from_last : List String → List (List String) → List (List String)
from_last [] acc = acc
from_last (x ∷ xs) acc = from_last xs ((x ∷ []) ∷ acc)

abbrev one_component : List String → List (List String)
one_component [] = []
one_component (x ∷ xs) = (x ∷ xs) ∷ []

unfoldable simple_sort : List String → Links → List (List String)
simple_sort keys links =
    if settles keys links [] (from_last keys []) then from_last keys [] else one_component keys

from_last-has :
    (xs : List String) (acc : List (List String)) (x : String)
    → has x (concat (from_last xs acc)) ≡ has x xs || has x (concat acc)
from_last-has [] acc x = refl
from_last-has (y ∷ xs) acc x = ground (arith, from_last-has xs ((y ∷ []) ∷ acc) x)

from_last-full :
    (xs : List String) (acc : List (List String))
    → is_full acc ≡ true
    → is_full (from_last xs acc) ≡ true
from_last-full [] acc h = h
from_last-full (y ∷ xs) acc h = from_last-full xs ((y ∷ []) ∷ acc) h

linked_self : (keys xs : List String) → linked keys keys xs ≡ true
linked_self keys [] = refl
linked_self keys (x ∷ xs) = ground (arith, linked_self keys xs)

linked_each_self : (keys xs : List String) (links : Links) → linked_each keys keys links xs ≡ true
linked_each_self keys [] links = refl
linked_each_self keys (x ∷ xs) links =
    ground (arith, linked_self keys (links x), linked_each_self keys xs links)

one_component-has :
    (keys : List String) (x : String) → has x (concat (one_component keys)) ≡ has x keys
one_component-has [] x = refl
one_component-has (y ∷ ys) x = ground (arith, has-append x (y ∷ ys) [])

one_component-full : (keys : List String) → is_full (one_component keys) ≡ true
one_component-full [] = refl
one_component-full (y ∷ ys) = refl

one_component-settles :
    (keys : List String) (links : Links) → settles keys links [] (one_component keys) ≡ true
one_component-settles [] links = refl
one_component-settles (y ∷ ys) links = ground (arith, linked_each_self (y ∷ ys) (y ∷ ys) links)

simple_sort-SortsAll : SortsAll simple_sort
unfolding simple_sort
simple_sort-SortsAll = record {
  covers = λ keys links x. ground (arith, from_last-has keys [] x, one_component-has keys x);
  full = λ keys links. ground (arith, from_last-full keys [] refl, one_component-full keys);
  settled = λ keys links. ground (arith, one_component-settles keys links);
}

abbrev keys_in_order : List String → List String
keys_in_order keys = keys

keys_in_order-RangesAll : RangesAll keys_in_order
keys_in_order-RangesAll keys x = refl

abbrev asked_for : List String
asked_for = "web" ∷ "cron" ∷ []

abbrev two_lanes : List (List String)
two_lanes = ("db" ∷ "web" ∷ []) ∷ ("cron" ∷ []) ∷ []

started : start_or_stop_order simple_sort keys_in_order false 9 web_and_db asked_for ≡ ok two_lanes
unfolding simple_sort start_order stop_order order create_lanes collect link_all singles map_lanes
    get_or_create_lane fill_lanes buildtest.Base.text_eq
started = refl

web-after-db : Precedes false web_and_db "db" "web"
unfolding buildtest.Base.text_eq
web-after-db = starts_after refl (a_service "web" ("db" ∷ []) ("db" ∷ [])) refl refl

lanes-Needs_example : (has "db" (concat two_lanes) ≡ true) ↔ Needs false web_and_db asked_for "db"
lanes-Needs_example =
    lanes-Needs simple_sort keys_in_order simple_sort-SortsAll keys_in_order-RangesAll false 9
      web_and_db asked_for two_lanes started "db"

lanes-Precedes_example : (has "db" ("db" ∷ []) ≡ true) ⊎ (◌≡◌ {A = String} "web" "db")
unfolding buildtest.Base.text_eq
lanes-Precedes_example =
    lanes-Precedes simple_sort keys_in_order simple_sort-SortsAll keys_in_order-RangesAll false 9
      web_and_db asked_for two_lanes started 0 ("db" ∷ []) [] "db" "web" refl refl web-after-db

lanes-apart_example : ◌≡◌ {A = ℕ} 0 0
unfolding buildtest.Base.text_eq
lanes-apart_example =
    lanes-apart simple_sort keys_in_order simple_sort-SortsAll keys_in_order-RangesAll false 9
      web_and_db asked_for two_lanes started 0 0 ("db" ∷ "web" ∷ []) ("db" ∷ "web" ∷ []) "web" refl
      refl refl refl

lanes-Returns_example :
    Returns (start_or_stop_order simple_sort keys_in_order true 9 web_and_db ("db" ∷ []))
unfolding buildtest.Base.text_eq
lanes-Returns_example =
    lanes-Returns simple_sort keys_in_order simple_sort-SortsAll keys_in_order-RangesAll true 9
      web_and_db ("db" ∷ []) (omega arith)

-- A service whose requirement comes to lie in another lane, by a third one that needs both.
abbrev torn : Services ℕ
torn =
    ("x", a_service "x" ("p" ∷ "q" ∷ []) ("p" ∷ "q" ∷ []))
    ∷ ("z", a_service "z" ("q" ∷ []) ("q" ∷ []))
    ∷ ("p", a_service "p" [] [])
    ∷ ("q", a_service "q" [] [])
    ∷ []

torn_lanes :
    create_lanes ("p" ∷ "q" ∷ "z" ∷ "x" ∷ []) torn ≡ ok (("p" ∷ "q" ∷ "x" ∷ []) ∷ ("z" ∷ []) ∷ [])
unfolding create_lanes map_lanes get_or_create_lane fill_lanes buildtest.Base.text_eq
torn_lanes = refl

-- Two services that have nothing to do with each other and share a lane.
abbrev four_services : Services ℕ
four_services =
    ("a", a_service "a" [] [])
    ∷ ("b", a_service "b" [] [])
    ∷ ("c", a_service "c" ("a" ∷ []) ("a" ∷ []))
    ∷ ("d", a_service "d" [] [])
    ∷ []

shared_lanes :
    create_lanes ("a" ∷ "b" ∷ "c" ∷ "d" ∷ []) four_services
    ≡ ok (("a" ∷ "c" ∷ []) ∷ ("b" ∷ "d" ∷ []) ∷ [])
unfolding create_lanes map_lanes get_or_create_lane fill_lanes buildtest.Base.text_eq
shared_lanes = refl
