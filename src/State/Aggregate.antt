-- ===== src/State/Aggregate.antt =====
-- The status of a change from those of its tasks (`Change.Status`,
-- internals/overlord/state/change.go).
use buildtest.Base.{
  Bool, List, Option, [], false, if◌then◌else◌, ltb, none, not, some, true, ℕ, ◌+◌, ◌∷◌,
}
use buildtest.State.Status.{Status, default, hold, status_eq, status_order, wait}
use buildtest.State.Data.{Change, Tasks, task_status}
use buildtest.State.Waiting.{is_change_waiting}

-- `statusStats[s]`.
unfoldable pub stats : Tasks → List ℕ → Status → ℕ
stats tasks [] s = 0
stats tasks (id ∷ ids) s = (if status_eq (task_status tasks id) s then 1 else 0) + stats tasks ids s

-- The first status of the order that some task has. The source panics where there is none.
unfoldable pub first_present : (Status → ℕ) → List Status → Option Status
first_present count [] = none
first_present count (s ∷ ss) =
    let rest = first_present count ss in if ltb 0 (count s) then some s else rest

-- `Status` of a change, with the fuel for `is_change_waiting`; `none` is the panic, or fuel that ran
-- out.
unfoldable pub aggregate : ℕ → Tasks → List ℕ → Option Status
unfolding first_present
aggregate f tasks ids =
    let ordered = first_present (stats tasks ids) status_order in
    if ltb 0 (stats tasks ids wait)
    then elim (is_change_waiting f tasks ids) [
      | none ↦ none
      | some true ↦ some wait
      | some false ↦ ordered
    ]
    else ordered

abbrev pub is_default : Status → Bool
is_default default = true
is_default _ = false

abbrev pub is_nil : List ℕ → Bool
is_nil [] = true
is_nil (x ∷ xs) = false

unfoldable pub change_status : ℕ → Tasks → Change → Option Status
unfolding aggregate
change_status f tasks c =
    if not (is_default c.status)
    then some c.status
    else if is_nil c.task_ids
    then some hold
    else aggregate f tasks c.task_ids
