-- ===== src/Plan/Logs.antt =====
-- Which log targets a service logs to (`LogsTo`, internals/plan/plan.go).
use mathlib.Core.List.{reverse-append, reverse-cons}
use Prim.Native.String
use buildtest.Base.{
  Bool, List, String, [], ap, arith, false, if◌then◌else◌, refl, reverse, text_eq, true, ◌++◌, ◌||◌,
  ◌∙◌, ◌∷◌, ◌≡◌,
}
use buildtest.Plan.Data.{LogTarget}
use buildtest.Plan.Merge.{merge_target}

abbrev dashed : String → String
dashed name = String.◌++◌ "-" name

-- The loop, over the entries from the last one on.
abbrev pub logs_from_last : String → List String → Bool
logs_from_last name [] = false
logs_from_last name (entry ∷ before) =
    let earlier = logs_from_last name before in
    if text_eq entry name
    then true
    else if text_eq entry (dashed name)
    then false
    else if text_eq entry "all"
    then true
    else if text_eq entry "-all"
    then false
    else earlier

unfoldable pub logs_to : String → LogTarget → Bool
logs_to name t = logs_from_last name (reverse t.services)

-- An entry that decides for a service.
abbrev pub decides : String → String → Bool
decides name entry =
    text_eq entry name
    || (text_eq entry (dashed name) || (text_eq entry "all" || text_eq entry "-all"))

abbrev pub some_decides : String → List String → Bool
some_decides name [] = false
some_decides name (entry ∷ rest) = decides name entry || some_decides name rest

some_decides-append :
    (name : String) (xs ys : List String)
    → some_decides name (xs ++ ys) ≡ some_decides name xs || some_decides name ys
some_decides-append name [] ys = refl
some_decides-append name (x ∷ xs) ys = ground (arith, some_decides-append name xs ys)

some_decides-reverse :
    (name : String) (xs : List String) → some_decides name (reverse xs) ≡ some_decides name xs
some_decides-reverse name [] = refl
some_decides-reverse name (x ∷ xs) =
    ap (some_decides name) (reverse-cons x xs)
    ∙ ground (arith, some_decides-append name (reverse xs) (x ∷ []), some_decides-reverse name xs)

logs_from_last-append :
    (name : String) (xs ys : List String)
    → logs_from_last name (xs ++ ys)
      ≡ (if some_decides name xs then logs_from_last name xs else logs_from_last name ys)
logs_from_last-append name [] ys = refl
logs_from_last-append name (x ∷ xs) ys = ground (arith, logs_from_last-append name xs ys)

-- After a log target is merged into another, a service logs to it as the services of the merged
-- one say, if one of them is the service, all services, or the exclusion of either; and as those
-- of the old one say otherwise.
pub logs_to-merge_target :
    (name : String) (t other : LogTarget)
    → logs_to name (merge_target t other)
      ≡ (if some_decides name other.services then logs_to name other else logs_to name t)
unfolding logs_to merge_target
logs_to-merge_target name t other =
    ap (logs_from_last name) (reverse-append t.services other.services)
    ∙ logs_from_last-append name (reverse other.services) (reverse t.services)
    ∙ ap
        (λ b.
          if b
          then logs_from_last name (reverse other.services)
          else logs_from_last name (reverse t.services))
        (some_decides-reverse name other.services)
