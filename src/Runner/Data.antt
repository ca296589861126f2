-- ===== src/Runner/Data.antt =====
-- `TaskRunner` (internals/overlord/state/taskrunner.go): which tasks are being handled, and what it
-- knows of each. A task's handlers depend on its kind, which never changes, so they are a function of
-- the task's id here; `at_time` and `clean` are fields of the task in Go. `none` is a panic, or fuel
-- of the model that ran out.
use buildtest.Base.{
  Bool, List, Option, [], false, if◌then◌else◌, none, not, some, true, ℕ, ◌&&◌, ◌++◌, ◌==◌, ◌∷◌,
}
use buildtest.State.Readiness.{all_ready}
use buildtest.State.Store.{Store, set_status, with_change, ◌>>=◌}
use buildtest.State.Status.{Status, abort, do_, doing, done, hold, status_eq, undo, undoing}
use buildtest.State.Data.{Change, Task, Tasks, task_status}
use buildtest.State.Aggregate.{is_nil}
use buildtest.State.Abort.{Outcome, abort_lanes, ends, no_marks}

-- A tomb is there while a handler runs, and tells whether it was killed. `asked` has the delays that
-- were passed to `EnsureBefore`.
pub record Runner : Type 0 where
  pub has_do : ℕ → Bool
  pub has_undo : ℕ → Bool
  pub has_cleanup : ℕ → Bool
  pub blocked : ℕ → List ℕ → Bool
  pub stopped : Bool
  pub some_blocked : Bool
  pub tombs : ℕ → Option Bool
  pub at_time : ℕ → ℕ
  pub clean : ℕ → Bool
  pub asked : List ℕ

pub record World : Type 0 where
  pub store : Store
  pub runner : Runner

abbrev pub update {ℓ} : {A : Type ℓ} → ℕ → A → (ℕ → A) → ℕ → A
update id a f j = if id == j then a else f j

abbrev pub status_of : World → ℕ → Status
status_of w id = task_status w.store.tasks id

abbrev pub ask : ℕ → Runner → Runner
ask delay r = record r { asked = r.asked ++ delay ∷ [] }

abbrev pub ask_if : Bool → Runner → Runner
ask_if b r = if b then ask 0 r else r

abbrev pub is_some : Option Bool → Bool
is_some none = false
is_some (some b) = true

abbrev pub is_handled : Runner → ℕ → Bool
is_handled r id = is_some (r.tombs id)

abbrev pub kill : ℕ → Runner → Runner
kill id r = record r {
  tombs = elim (r.tombs id) [ none ↦ r.tombs | some killed ↦ update id (some true) r.tombs ];
}

-- `mustWait`.
abbrev pub all_done : Tasks → List ℕ → Bool
all_done tasks [] = true
all_done tasks (id ∷ ids) = status_eq (task_status tasks id) done && all_done tasks ids

abbrev pub must_wait_in : Status → Tasks → Task → Bool
must_wait_in do_ tasks t = not (all_done tasks t.wait_tasks)
must_wait_in undo tasks t = not (all_ready tasks t.halt_tasks)
must_wait_in s tasks t = false

abbrev pub must_wait : Tasks → ℕ → Bool
must_wait tasks id = must_wait_in (task_status tasks id) tasks (tasks id)

-- The end of `run`, before the handler is called: there has to be one.
abbrev pub start_handler : Bool → ℕ → Store → Runner → Option World
start_handler false id st r = none
start_handler true id st r = some (record {
  store = st;
  runner = record r { at_time = update id 0 r.at_time; tombs = update id (some false) r.tombs };
})

unfoldable pub run_in : Status → ℕ → ℕ → ℕ → World → Option World
run_in do_ fuel now id w = do
  st ← set_status fuel now id doing w.store
  start_handler (w.runner.has_do id) id st w.runner
run_in doing fuel now id w = start_handler (w.runner.has_do id) id w.store w.runner
run_in undo fuel now id w = do
  st ← set_status fuel now id undoing w.store
  start_handler (w.runner.has_undo id) id st w.runner
run_in undoing fuel now id w = start_handler (w.runner.has_undo id) id w.store w.runner
run_in s fuel now id w = none

-- `run`, up to the call of the handler.
unfoldable pub run_task : ℕ → ℕ → ℕ → World → Option World
unfolding run_in
run_task fuel now id w = run_in (status_of w id) fuel now id w

-- `tryUndo`.
unfoldable pub try_undo : ℕ → ℕ → ℕ → World → Option World
try_undo fuel now id w =
    let r = w.runner in
    let held = set_status fuel now id hold w.store in
    let undone = set_status fuel now id undo w.store in
    if status_eq (status_of w id) abort && not (r.has_undo id)
    then (do
      st ← held
      some (record { store = st; runner = ask_if (not (is_nil (st.tasks id).wait_tasks)) r }))
    else (do st ← undone; some (record { store = st; runner = ask 0 r }))

-- The tombs of the tasks of a change that are to be aborted are killed.
abbrev pub kill_aborted : Tasks → List ℕ → Runner → Runner
kill_aborted tasks [] r = r
kill_aborted tasks (id ∷ ids) r =
    let r' = kill_aborted tasks ids r in
    if status_eq (task_status tasks id) abort then kill id r' else r'

abbrev of_outcome : Outcome → Option Store
of_outcome (ends st) = some st
of_outcome o = none

-- `abortLanes` of the runner.
unfoldable pub runner_abort_lanes : ℕ → ℕ → ℕ → ℕ → Change → List ℕ → World → Option World
runner_abort_lanes n f fuel now c lanes w = do
  st ← of_outcome (abort_lanes n f fuel now c.task_ids no_marks lanes no_marks w.store)
  some (record {
    store = st;
    runner =
        ask_if (not (all_ready st.tasks c.task_ids)) (kill_aborted st.tasks c.task_ids w.runner);
  })

-- `SetClean` of a task, without what the change does with it.
abbrev pub set_clean : ℕ → Runner → Runner
set_clean id r = record r { clean = update id true r.clean }

abbrev pub change_is_ready : Option ℕ → (ℕ → Option Change) → Option Bool
change_is_ready link changes = elim (with_change link changes) [
  | none ↦ none
  | some (cid, c) ↦ some c.ready
]

-- `clean`, up to the call of the handler.
unfoldable pub clean_task : ℕ → World → Option World
clean_task id w =
    let r = w.runner in
    elim (change_is_ready (w.store.tasks id).change w.store.changes) [
      | none ↦ none
      | some false ↦ some w
      | some true ↦ some (record w {
        runner =
            if r.has_cleanup id
            then record r { tombs = update id (some false) r.tombs }
            else set_clean id r;
      })
    ]
