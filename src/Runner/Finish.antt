-- ===== src/Runner/Finish.antt =====
-- What the runner does when a handler has returned (`run` and `clean`,
-- internals/overlord/state/taskrunner.go).
use buildtest.Base.{Bool, Option, if◌then◌else◌, none, not, some, true, ℕ, ◌+◌, ◌-◌, ◌==◌}
use buildtest.State.Store.{set_status, set_to_wait, with_change, ◌>>=◌}
use buildtest.State.Status.{
  Status, abort, doing, done, error, ready, status_eq, undo, undoing, undone,
}
use buildtest.State.Data.{lanes_of}
use buildtest.State.Aggregate.{is_default, is_nil}
use buildtest.Runner.Data.{
  World, ask, ask_if, runner_abort_lanes, set_clean, status_of, try_undo, update,
}

-- What the tomb reports: no error, `Retry` after a delay, `Wait`, or another error.
pub data Result : Type 0 where
  succeeded failed : Result
  retry : ℕ → Result
  waits_for : Status → Result

-- An error while the runner is being stopped is taken for a cancellation.
abbrev pub adjusted : Bool → Result → Result
adjusted true failed = retry 0
adjusted b res = res

-- `At`, with a time that is not zero.
abbrev pub schedule : ℕ → ℕ → ℕ → World → World
schedule now id when w = record w {
  runner =
      if ready (status_of w id)
      then w.runner
      else ask (when - now) (record w.runner { at_time = update id when w.runner.at_time });
}

-- A handler that returned no error.
unfoldable pub succeed_in : Status → ℕ → ℕ → ℕ → World → Option World
succeed_in doing fuel now id w = do
  st ← set_status fuel now id done w.store
  some (record { store = st; runner = ask_if (not (is_nil (st.tasks id).halt_tasks)) w.runner })
succeed_in done fuel now id w =
    some (record w { runner = ask_if (not (is_nil (w.store.tasks id).halt_tasks)) w.runner })
succeed_in abort fuel now id w = do
  st ← set_status fuel now id undo w.store
  some (record { store = st; runner = ask 0 w.runner })
succeed_in undoing fuel now id w = do
  st ← set_status fuel now id undone w.store
  some (record { store = st; runner = ask_if (not (is_nil (st.tasks id).wait_tasks)) w.runner })
succeed_in undone fuel now id w =
    some (record w { runner = ask_if (not (is_nil (w.store.tasks id).wait_tasks)) w.runner })
succeed_in s fuel now id w = some w

-- A handler that asked to be called again.
unfoldable pub retry_task : ℕ → ℕ → ℕ → ℕ → World → Option World
unfolding try_undo
retry_task fuel now id after w =
    if status_eq (status_of w id) abort
    then try_undo fuel now id w
    else if after == 0
    then some w
    else some (schedule now id (now + after) w)

-- A handler that asked for its task to be set to wait.
unfoldable pub wait_task : ℕ → ℕ → ℕ → Status → World → Option World
wait_task fuel now id later w =
    let undone = try_undo fuel now id w in
    let waiting = (do
      st ← set_to_wait fuel now id (if is_default later then done else later) w.store
      some (record w { store = st })) in
    if status_eq (status_of w id) abort then undone else waiting

-- A handler that failed: the lanes of its task are aborted.
unfoldable pub fail_task : ℕ → ℕ → ℕ → ℕ → ℕ → World → Option World
fail_task n f fuel now id w = do
  cid_c ← with_change (w.store.tasks id).change w.store.changes
  w' ← runner_abort_lanes n f fuel now cid_c.1 (lanes_of (w.store.tasks id).lanes) w
  st ← set_status fuel now id error w'.store
  some (record w' { store = st })

unfoldable pub settle : Result → ℕ → ℕ → ℕ → ℕ → ℕ → World → Option World
unfolding succeed_in retry_task wait_task fail_task
settle succeeded n f fuel now id w = succeed_in (status_of w id) fuel now id w
settle (retry after) n f fuel now id w = retry_task fuel now id after w
settle (waits_for later) n f fuel now id w = wait_task fuel now id later w
settle failed n f fuel now id w = fail_task n f fuel now id w

-- The end of `run`: `n` and `f` are fuel for an abort, and `fuel` for the status of a change.
unfoldable pub finish : Result → ℕ → ℕ → ℕ → ℕ → ℕ → World → Option World
unfolding settle
finish res n f fuel now id w =
    let r = w.runner in
    settle (adjusted r.stopped res) n f fuel now id
      (record w { runner = ask_if r.some_blocked (record r { tombs = update id none r.tombs }) })

-- The end of `clean`, with whether the handler returned no error.
unfoldable pub finish_clean : Bool → ℕ → World → World
finish_clean ok id w =
    let r = record w.runner { tombs = update id none w.runner.tombs } in
    record w { runner = if ok then set_clean id r else r }
