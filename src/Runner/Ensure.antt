-- ===== src/Runner/Ensure.antt =====
-- A pass over all tasks (`Ensure`, internals/overlord/state/taskrunner.go).
use buildtest.Base.{
  List, Option, [], false, if◌then◌else◌, ltb, min, none, not, some, true, ℕ, ◌&&◌, ◌++◌, ◌-◌, ◌==◌,
  ◌∷◌,
}
use buildtest.State.Store.{set_status, ◌>>=◌}
use buildtest.State.Status.{abort, done, ready, status_eq, undo, wait}
use buildtest.State.Aggregate.{is_nil}
use buildtest.Runner.Data.{
  Runner, World, ask, ask_if, clean_task, is_handled, kill, must_wait, run_task, status_of,
  try_undo,
}

-- `running` and `nextTaskTime` with what the pass has changed so far.
pub record Pass : Type 0 where
  pub world : World
  pub running : List ℕ
  pub next_time : Option ℕ

abbrev pub earliest : Option ℕ → ℕ → Option ℕ
earliest none t = some t
earliest (some s) t = some (min s t)

abbrev pub with_world : Pass → World → Pass
with_world p w = record p { world = w }

-- The rest of the loop's body, for a task that is not blocked by its status or its dependencies.
unfoldable pub try_run : ℕ → ℕ → ℕ → Pass → Option Pass
try_run fuel now id p =
    let w = p.world in
    let r = w.runner in
    let started = (do
      w' ← run_task fuel now id w
      some (record p { world = w'; running = p.running ++ id ∷ [] })) in
    if not (r.at_time id == 0) && ltb now (r.at_time id)
    then some (record p { next_time = earliest p.next_time (r.at_time id) })
    else if r.blocked id p.running
    then some (with_world p (record w { runner = record r { some_blocked = true } }))
    else started

-- A task to be undone that has no handler for it.
unfoldable pub revert : ℕ → ℕ → ℕ → Pass → Option Pass
revert fuel now id p = do
  st ← set_status fuel now id done p.world.store
  some (
      with_world p (record {
        store = st;
        runner = ask_if (not (is_nil (st.tasks id).wait_tasks)) p.world.runner;
      }))

-- The loop's body for a task with no tomb.
unfoldable pub consider_idle : ℕ → ℕ → ℕ → Pass → Option Pass
unfolding try_run revert
consider_idle fuel now id p =
    let w = p.world in
    let s = status_of w id in
    let cleaned = (do w' ← clean_task id w; some (with_world p w')) in
    if ready s
    then (if w.runner.clean id then some p else cleaned)
    else if status_eq s wait
    then some p
    else if must_wait w.store.tasks id
    then some p
    else if status_eq s undo && not (w.runner.has_undo id)
    then revert fuel now id p
    else try_run fuel now id p

-- The loop's body.
unfoldable pub consider : ℕ → ℕ → ℕ → Pass → Option Pass
unfolding consider_idle
consider fuel now id p =
    let w = p.world in
    let aborted = status_eq (status_of w id) abort in
    let idle = consider_idle fuel now id p in
    let undone = (do w' ← try_undo fuel now id w; consider_idle fuel now id (with_world p w')) in
    if not (w.runner.has_do id)
    then some p
    else if is_handled w.runner id
    then some (if aborted then with_world p (record w { runner = kill id w.runner }) else p)
    else if aborted
    then undone
    else idle

unfoldable pub consider_all : ℕ → ℕ → List ℕ → Pass → Option Pass
consider_all fuel now [] p = some p
consider_all fuel now (id ∷ ids) p = do p' ← consider fuel now id p; consider_all fuel now ids p'

abbrev handled : Runner → List ℕ → List ℕ
handled r [] = []
handled r (id ∷ ids) = (if is_handled r id then id ∷ [] else []) ++ handled r ids

abbrev ask_next : Option ℕ → ℕ → Runner → Runner
ask_next none now r = r
ask_next (some t) now r = ask (t - now) r

abbrev pub first_pass : List ℕ → World → Pass
first_pass ids w = record {
  world = record w { runner = record w.runner { some_blocked = false } };
  running = handled w.runner ids;
  next_time = none;
}

-- `Ensure`, of the tasks with the ids of a list.
unfoldable pub ensure : ℕ → ℕ → List ℕ → World → Option World
unfolding consider_all
ensure fuel now ids w =
    let pass = (do
      p ← consider_all fuel now ids (first_pass ids w)
      some (record p.world { runner = ask_next p.next_time now p.world.runner })) in
    if w.runner.stopped then some w else pass
