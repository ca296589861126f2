-- ===== src/State/Store.antt =====
-- Setting the status of a task, with what that does to its change (internals/overlord/state/task.go
-- and change.go). `none` is a panic of the source, or fuel that ran out.
use buildtest.Base.{
  Bool, List, Option, [], bool_eq, if◌then◌else◌, none, not, refl, some, true, ℕ, ◌&&◌, ◌++◌, ◌==◌,
  ◌||◌, ◌∷◌, ◌≡◌,
}
use buildtest.State.Status.{Status, abort, do_, doing, done, ready, status_eq, undo, undoing, wait}
use buildtest.State.Data.{Change, Task, Tasks}
use buildtest.State.Aggregate.{change_status, is_default}

-- What observers are told: handlers of task and change statuses, and change-update notices.
pub data Note : Type 0 where
  task_changed change_changed : ℕ → Status → Status → Note
  change_notice : ℕ → Note

-- `State`, as far as tasks and changes go.
pub record Store : Type 0 where
  pub tasks : Tasks
  pub changes : ℕ → Option Change
  pub notes : List Note

infixl 5 ◌>>=◌
abbrev pub ◌>>=◌ {ℓ κ} : {A : Type ℓ} {B : Type κ} → Option A → (A → Option B) → Option B
none >>= f = none
some a >>= f = f a

-- Inversion of a chain that did not panic.
pub >>=-eq-some {ℓ κ} :
    {A : Type ℓ} {B : Type κ} (m : Option A) (f : A → Option B) {b : B}
    → (m >>= f) ≡ some b
    → (a : A) × (m ≡ some a) × (f a ≡ some b)
>>=-eq-some none f h = cc
>>=-eq-some (some a) f h = (a, refl, h)

-- `shouldSkipChangeUpdateNotice`.
abbrev pub skips_notice : Status → Status → Bool
skips_notice doing do_ = true
skips_notice undoing undo = true
skips_notice old new = status_eq old new

observe : ℕ → Status → Change → Change × List Note
observe cid new c =
    if status_eq c.last_observed new
    then (c, [])
    else (record c { last_observed = new }, change_changed cid c.last_observed new ∷ [])

-- `notifyStatusChange`.
unfoldable pub notify_status_change : ℕ → Status → Change → Change × List Note
unfolding observe
notify_status_change cid new c =
    let (c', told) = observe cid new c in
    if skips_notice c'.last_recorded new
    then (c', told)
    else (record c' { last_recorded = new }, told ++ change_notice cid ∷ [])

-- `markReady`, at a time.
unfoldable pub mark_ready : ℕ → Change → Change
mark_ready now c = record c {
  ready = true;
  ready_time = elim c.ready_time [ none ↦ some now | some t ↦ some t ];
}

-- Whether all tasks but one are ready.
abbrev pub others_ready : ℕ → Tasks → List ℕ → Bool
others_ready x tasks [] = true
others_ready x tasks (id ∷ ids) = (id == x || ready (tasks id).status) && others_ready x tasks ids

-- `detectChangeReady`.
unfoldable pub detect_change_ready : ℕ → ℕ → Tasks → ℕ → Change → Option Change
unfolding mark_ready
detect_change_ready fuel now tasks x c =
    if not (others_ready x tasks c.task_ids) then some c else do
      s ← change_status fuel tasks c
      if c.ready && not (ready s) then none else some (mark_ready now c)

-- `taskStatusChanged`.
unfoldable pub task_status_changed :
    ℕ → ℕ → Tasks → ℕ → Status → Status → ℕ → Change → Option (Change × List Note)
task_status_changed fuel now tasks id old new cid c = do
  cs ← change_status fuel tasks c
  c' ← (if bool_eq (ready old) (ready new) then some c else detect_change_ready fuel now tasks id c)
  some (notify_status_change cid cs c')

abbrev pub set_task : ℕ → Task → Tasks → Tasks
set_task id t tasks j = if id == j then t else tasks j

abbrev pub set_change : ℕ → Change → (ℕ → Option Change) → ℕ → Option Change
set_change cid c changes j = if cid == j then some c else changes j

unfoldable pub with_change : Option ℕ → (ℕ → Option Change) → Option (ℕ × Change)
with_change none changes = none
with_change (some cid) changes = elim (changes cid) [ none ↦ none | some c ↦ some (cid, c) ]

-- The rest of `changeStatus`, for a task as it is to be stored.
unfoldable pub store_status : ℕ → ℕ → ℕ → Task → Status → Store → Option Store
store_status fuel now id t old st =
    let tasks = set_task id t st.tasks in
    let told = task_changed id old t.status ∷ [] in
    elim (with_change t.change st.changes) [
      | none ↦ some (record { tasks = tasks; changes = st.changes; notes = st.notes ++ told })
      | some (cid, c) ↦ elim (task_status_changed fuel now tasks id old t.status cid c) [
        | none ↦ none
        | some (c', notes) ↦ some (record {
          tasks = tasks;
          changes = set_change cid c' st.changes;
          notes = (st.notes ++ notes) ++ told;
        })
      ]
    ]

-- `changeStatus`, of a task whose other fields are written already.
unfoldable pub change_task_status : ℕ → ℕ → ℕ → Task → Status → Store → Option Store
change_task_status fuel now id t new st =
    let stored = store_status fuel now id (record t { status = new }) t.status st in
    if status_eq t.status new then some (record st { tasks = set_task id t st.tasks }) else stored

is_wait : Status → Bool
is_wait s = status_eq s wait

-- `SetStatus`.
unfoldable pub set_status : ℕ → ℕ → ℕ → Status → Store → Option Store
unfolding is_wait
set_status fuel now id new st =
    let t = st.tasks id in
    if is_wait new
    then none
    else if status_eq new done && status_eq t.status abort
    then some st
    else change_task_status fuel now id t new st

-- `SetToWait`.
unfoldable pub set_to_wait : ℕ → ℕ → ℕ → Status → Store → Option Store
set_to_wait fuel now id result st =
    let t = st.tasks id in
    if is_default result || status_eq result wait
    then none
    else if status_eq t.status abort
    then some st
    else change_task_status fuel now id (record t { waited_status = result }) wait st
