-- ===== src/Plan/Sorting.antt =====
-- What is asked of the sort of the services (`order`, internals/plan/plan.go).

use buildtest.Base.{Bool, List, String, [], false, has, not, true, ◌&&◌, ◌++◌, ◌||◌, ◌∷◌, ◌≡◌}
use buildtest.Plan.Order.{Links}

abbrev pub concat : List (List String) → List String
concat [] = []
concat (c ∷ cs) = c ++ concat cs

-- Each of the names is an element of the list, where it is one of the keys.
abbrev pub linked : List String → List String → List String → Bool
linked keys ys [] = true
linked keys ys (x ∷ xs) = (not (has x keys) || has x ys) && linked keys ys xs

abbrev pub linked_each : List String → List String → Links → List String → Bool
linked_each keys ys links [] = true
linked_each keys ys links (x ∷ xs) = linked keys ys (links x) && linked_each keys ys links xs

-- The links of each component lead to it or to those before it.
abbrev pub settles : List String → Links → List String → List (List String) → Bool
settles keys links seen [] = true
settles keys links seen (c ∷ cs) =
    linked_each keys (seen ++ c) links c && settles keys links (seen ++ c) cs

abbrev pub is_full : List (List String) → Bool
is_full [] = true
is_full ([] ∷ cs) = false
is_full ((x ∷ xs) ∷ cs) = is_full cs

-- What `tarjanSort` promises: it returns the strongly connected components of all keys, each after
-- those that it links to.
pub record SortsAll (sort : List String → Links → List (List String)) : Type 0 where
  pub covers :
      (keys : List String) (links : Links) (x : String)
      → has x (concat (sort keys links)) ≡ has x keys
  pub full : (keys : List String) (links : Links) → is_full (sort keys links) ≡ true
  pub settled :
      (keys : List String) (links : Links) → settles keys links [] (sort keys links) ≡ true

-- The keys of a map are visited in some order.
abbrev pub RangesAll : (List String → List String) → Type 0
RangesAll range = (keys : List String) (x : String) → has x (range keys) ≡ has x keys
