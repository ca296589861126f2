-- ===== src/Plan/Order.antt =====
-- The order in which services start and stop (`order`, internals/plan/plan.go). `tarjanSort` is a copy
-- of another project's function: it is a parameter.
use buildtest.Base.{
  Bool, List, Option, String, [], false, has, if◌then◌else◌, none, some, suc, text_eq, true, zero,
  ℕ, ◌++◌, ◌∷◌, ◌≡◌,
}
use buildtest.Plan.Data.{Service}

pub data OrderError : Type 0 where
  no_service : String → OrderError
  in_loop : List String → OrderError

-- `panicked` is an index out of range, and `out_of_fuel` the model's.
pub data Ordered (A : Type 0) : Type 0 where
  ok : A → Ordered A
  err : OrderError → Ordered A
  panicked out_of_fuel : Ordered A

infixl 5 ◌>>=◌
abbrev pub ◌>>=◌ : {A B : Type 0} → Ordered A → (A → Ordered B) → Ordered B
ok x >>= next = next x
err because >>= next = err because
panicked >>= next = panicked
out_of_fuel >>= next = out_of_fuel

-- Neither a panic nor the end of the fuel.
abbrev pub returns : {A : Type 0} → Ordered A → Bool
returns (ok a) = true
returns (err e) = true
returns panicked = false
returns out_of_fuel = false

abbrev pub Returns : {A : Type 0} → Ordered A → Type 0
Returns r = returns r ≡ true

-- The map of all services, as the list of its entries in the order in which it is ranged over.
abbrev pub Services : Type 0 → Type 0
Services F = List (String × Service F)

-- The name of a service, once for each time that it requires another.
abbrev pub hits : String → String → List String → List String
hits req name [] = []
hits req name (r ∷ rs) = (if text_eq r req then name ∷ [] else []) ++ hits req name rs

abbrev pub Links : Type 0
Links = String → List String

abbrev pub put_link : String → List String → Links → Links
put_link name to links j = if text_eq name j then to else links j

-- `for _, after := range serviceAfter`.
abbrev pub required_of : List String → List String → List String
required_of chosen [] = []
required_of chosen (x ∷ xs) = (if has x chosen then x ∷ [] else []) ++ required_of chosen xs

-- `for _, before := range serviceBefore`.
abbrev pub link_before : List String → String → List String → Links → Links
link_before chosen name [] links = links
link_before chosen name (b ∷ bs) links =
    link_before chosen name bs
      (if has b chosen then put_link b (links b ++ name ∷ []) links else links)

-- The loop over the components.
unfoldable pub singles : List (List String) → Ordered (List String)
singles [] = ok []
singles ([] ∷ rest) = panicked
singles ((name ∷ []) ∷ rest) = do names ← singles rest; ok (name ∷ names)
singles ((name ∷ other ∷ names) ∷ rest) = err (in_loop (name ∷ other ∷ names))

module _ {F : Type 0} where
  abbrev pub find : String → Services F → Option (Service F)
  find name [] = none
  find name ((n, s) ∷ rest) = if text_eq n name then some s else find name rest

  abbrev pub or_missing : String → Option (Service F) → Ordered (Service F)
  or_missing name none = err (no_service name)
  or_missing name (some s) = ok s

  -- `predecessors[req]`.
  abbrev pub predecessors : String → Services F → List String
  predecessors req [] = []
  predecessors req ((n, s) ∷ rest) = hits req n s.requires ++ predecessors req rest

  -- What a service adds to those that will be started, or stopped.
  abbrev pub added : Bool → String → Services F → Ordered (List String)
  added true name services = ok (predecessors name services)
  added false name services = do s ← or_missing name (find name services); ok s.requires

  -- The loop that collects the services, on fuel: `chosen` has the keys of `successors`.
  unfoldable pub collect : ℕ → Bool → Services F → List String → List String → Ordered (List String)
  collect f stop services [] chosen = ok chosen
  collect zero stop services (name ∷ pending) chosen = out_of_fuel
  collect (suc f) stop services (name ∷ pending) chosen =
      let skipped = collect f stop services pending chosen in
      let taken = (do
        more ← added stop name services
        collect f stop services (pending ++ more) (chosen ++ name ∷ [])) in
      if has name chosen then skipped else taken

  abbrev pub afters : Bool → Service F → List String
  afters stop s = if stop then s.before else s.after

  abbrev pub befores : Bool → Service F → List String
  befores stop s = if stop then s.after else s.before

  abbrev pub link_service : Bool → List String → String → Service F → Links → Links
  link_service stop chosen name s links =
      link_before chosen name (befores stop s)
        (put_link name (links name ++ required_of chosen (afters stop s)) links)

  -- The loop that makes the list of successors.
  unfoldable pub link_all : Bool → Services F → List String → List String → Links → Ordered Links
  link_all stop services chosen [] links = ok links
  link_all stop services chosen (name ∷ names) links = do
    s ← or_missing name (find name services)
    link_all stop services chosen names (link_service stop chosen name s links)

  -- `order`; `sort` is `tarjanSort`, and `range` the order in which the keys of a map are ranged
  -- over.
  unfoldable pub order :
      (List String → Links → List (List String))
      → (List String → List String)
      → ℕ
      → Services F
      → List String
      → Bool
      → Ordered (List String)
  unfolding collect link_all singles
  order sort range f services names stop = do
    chosen ← collect f stop services names []
    links ← link_all stop services chosen (range chosen) (λ name. [])
    singles (sort chosen links)
