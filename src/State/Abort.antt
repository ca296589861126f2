-- ===== src/State/Abort.antt =====
-- The abort of a change or of some of its lanes (`Abort`, `AbortLanes`, `AbortUnreadyLanes`,
-- internals/overlord/state/change.go). The Go maps of lanes and tasks are functions into Bool.
pub mod Single
pub mod Victims
pub mod Closure
pub mod Markings
pub mod Termination
pub mod Preserved
use buildtest.Base.{
  Bool, List, Option, [], bool_eq, false, if◌then◌else◌, none, not, some, suc, true, zero, ℕ, ◌&&◌,
  ◌++◌, ◌==◌, ◌||◌, ◌∷◌,
}
use buildtest.State.Status.{Status, abort, do_, doing, done, hold, ready, undo}
use buildtest.State.Data.{Change, Task, Tasks, effective_status, lanes_of, task_status}
use buildtest.State.Settled.{contains}
use buildtest.State.Aggregate.{is_nil}
use buildtest.State.Store.{Store, set_status}

-- How an abort ends: with a state, in a panic of `SetStatus`, or because the model ran out of fuel.
pub data Outcome : Type 0 where
  out_of_fuel panicked : Outcome
  ends : Store → Outcome

abbrev pub Marks : Type 0
Marks = ℕ → Bool

abbrev pub no_marks : Marks
no_marks i = false

abbrev pub mark_one : ℕ → Marks → Marks
mark_one x m j = x == j || m j

abbrev pub mark_all : List ℕ → Marks → Marks
mark_all xs m j = contains j xs || m j

-- The status that a task with an effective status is given, if any.
abbrev pub abort_status : Status → Option Status
abort_status do_ = some hold
abort_status doing = some abort
abort_status done = some undo
abort_status _ = none

abbrev pub live_status : Status → Bool
live_status do_ = true
live_status doing = true
live_status done = true
live_status _ = false

-- `taskIsLive`.
abbrev pub is_live : Task → Bool
is_live t = live_status (effective_status t)

-- What `abortTasks` does to one task.
unfoldable pub abort_task : ℕ → ℕ → ℕ → Store → Option Store
abort_task fuel now id st = elim (abort_status (effective_status (st.tasks id))) [
  | none ↦ some st
  | some s ↦ set_status fuel now id s st
]

-- The lanes that a task adds: all of its lanes, once for each that is not aborted yet.
abbrev pub lanes_added : Marks → List ℕ → List ℕ → List ℕ
lanes_added aborted [] all = []
lanes_added aborted (l ∷ ls) all = (if aborted l then [] else all) ++ lanes_added aborted ls all

abbrev pub unseen : Marks → List ℕ → List ℕ
unseen seen [] = []
unseen seen (x ∷ xs) = let rest = unseen seen xs in if seen x then rest else x ∷ rest

-- The call of `abortLanes` at the end of `abortTasks`.
abbrev pub Again : Type 0
Again = List ℕ → Marks → Store → Outcome

-- The loop of `abortTasks` over its list of tasks, which grows while it runs.
unfoldable pub abort_loop : ℕ → ℕ → ℕ → Again → Marks → List ℕ → List ℕ → Marks → Store → Outcome
abort_loop f fuel now again aborted [] lanes seen st =
    if is_nil lanes then ends st else again lanes seen st
abort_loop zero fuel now again aborted (id ∷ queue) lanes seen st = out_of_fuel
abort_loop (suc f) fuel now again aborted (id ∷ queue) lanes seen st =
    let t = st.tasks id in
    let seen' = mark_one id seen in
    let lanes' = lanes ++ lanes_added aborted (lanes_of t.lanes) (lanes_of t.lanes) in
    let queue' = queue ++ unseen seen' t.halt_tasks in
    let skipped = abort_loop f fuel now again aborted queue lanes seen st in
    let rest = abort_loop f fuel now again aborted queue' lanes' seen' in
    if seen id
    then skipped
    else elim (abort_task fuel now id st) [ none ↦ panicked | some st' ↦ rest st' ]

-- The lanes of a task that the loop of `abortLanes` looks at before it meets one that is to be
-- aborted, and whether it meets one.
abbrev pub lanes_before : List ℕ → List ℕ → List ℕ
lanes_before kill [] = []
lanes_before kill (l ∷ ls) =
    let rest = lanes_before kill ls in if contains l kill then [] else l ∷ rest

abbrev pub meets : List ℕ → List ℕ → Bool
meets kill [] = false
meets kill (l ∷ ls) = contains l kill || meets kill ls

-- `hasLive` (for true) and `hasDead` (for false).
abbrev pub opinions : Bool → List ℕ → Tasks → List ℕ → List ℕ
opinions live kill tasks [] = []
opinions live kill tasks (id ∷ ids) =
    (if bool_eq (is_live (tasks id)) live
      then lanes_before kill (lanes_of (tasks id).lanes)
      else [])
    ++ opinions live kill tasks ids

-- Whether a task is in a lane that is entirely live.
abbrev pub healthy : List ℕ → List ℕ → List ℕ → Bool
healthy has_live has_dead [] = false
healthy has_live has_dead (l ∷ ls) =
    (contains l has_live && not (contains l has_dead)) || healthy has_live has_dead ls

-- The tasks that `abortLanes` aborts.
abbrev pub doomed : List ℕ → List ℕ → List ℕ → Tasks → List ℕ → List ℕ
doomed kill has_live has_dead tasks [] = []
doomed kill has_live has_dead tasks (id ∷ ids) =
    let rest = doomed kill has_live has_dead tasks ids in
    if meets kill (lanes_of (tasks id).lanes)
      && not (healthy has_live has_dead (lanes_of (tasks id).lanes))
    then id ∷ rest
    else rest

-- The tasks of a change that `abortLanes` passes to `abortTasks`.
unfoldable pub lane_victims : List ℕ → Tasks → List ℕ → List ℕ
lane_victims kill tasks ids =
    doomed kill (opinions true kill tasks ids) (opinions false kill tasks ids) tasks ids

-- `abortLanes`: `f` is the fuel for the loops of `abortTasks`, and the first number that for the
-- calls.
unfoldable pub abort_lanes : ℕ → ℕ → ℕ → ℕ → List ℕ → Marks → List ℕ → Marks → Store → Outcome
unfolding abort_loop
abort_lanes zero f fuel now ids aborted lanes seen st = out_of_fuel
abort_lanes (suc n) f fuel now ids aborted lanes seen st =
    let victims = lane_victims lanes st.tasks ids in
    let aborted' = mark_all lanes aborted in
    let work =
      abort_loop f fuel now (abort_lanes n f fuel now ids aborted') aborted' victims [] seen st in
    if is_nil victims then ends st else work

-- `Abort` of a change.
unfoldable pub abort_change : ℕ → ℕ → ℕ → ℕ → Change → Store → Outcome
abort_change n f fuel now c st =
    abort_loop f fuel now (abort_lanes n f fuel now c.task_ids no_marks) no_marks c.task_ids []
      no_marks st

-- The lanes in which a task is not ready.
abbrev pub lanes_unready : Tasks → List ℕ → List ℕ
lanes_unready tasks [] = []
lanes_unready tasks (id ∷ ids) =
    (if ready (task_status tasks id) then [] else lanes_of (tasks id).lanes)
    ++ lanes_unready tasks ids

-- `AbortUnreadyLanes`.
unfoldable pub abort_unready_lanes : ℕ → ℕ → ℕ → ℕ → Change → Store → Outcome
abort_unready_lanes n f fuel now c st =
    abort_lanes n f fuel now c.task_ids no_marks (lanes_unready st.tasks c.task_ids) no_marks st
