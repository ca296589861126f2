-- ===== src/State/Tests.antt =====
-- A change of three tasks, and the theorems at concrete inputs.
use buildtest.State.Abort.Victims.{to_abort}
use buildtest.State.Abort.Single.{IsAborted}
use buildtest.State.Building.{Mirrored, add_task, add_task-Sound, wait_all, wait_all-Mirrored}
use buildtest.State.Abort.{
  Outcome, abort_change, abort_lanes, abort_loop, abort_task, ends, lane_victims, no_marks,
  out_of_fuel,
}
use buildtest.State.Data.{Change, Task, Tasks, lanes_of}
use buildtest.State.Store.{
  Store, change_task_status, detect_change_ready, notify_status_change, set_status, store_status,
  task_status_changed, with_change,
}
use buildtest.State.Searching.{AllBelow, Closed}
use buildtest.State.Totality.{change_status-some}
use buildtest.State.Abort.Closure.{abort_change-IsAborted, abort_lanes-IsAborted, behind, itself}
use buildtest.State.Abort.Termination.{abort-returns}
use buildtest.State.Abort.Preserved.{Moved, abort-keeps}
use buildtest.State.Sound.{set_status-Sound}
use buildtest.State.Settled.{Sound, contains}
use buildtest.Base.{
  List, Option, [], ap, arith, false, if◌then◌else◌, inl, none, refl, some, suc, sym, true, zero, ℕ,
  ℕ_discrete, ◌==◌, ◌||◌, ◌↔◌, ◌∙◌, ◌∷◌, ◌≡◌, ◌≢◌,
}
use buildtest.State.Status.{
  Status, abort, default, do_, doing, done, error, hold, ready, undo, wait,
}
use buildtest.State.Waiting.{change_loop, deps_loop, is_change_waiting, is_task_waiting}
use buildtest.State.Aggregate.{change_status, stats}
use buildtest.State.Readiness.{all_ready, change_status-ready}

abbrev task : Status → List ℕ → List ℕ → Task
task s waits halts = record {
  status = s;
  waited_status = done;
  wait_tasks = waits;
  halt_tasks = halts;
  lanes = [];
  change = some 0;
}

-- Task 1 waits for 0, and 2 for 1.
abbrev chain : Status → Status → Status → Tasks
chain a b c zero = task a [] (1 ∷ [])
chain a b c (suc zero) = task b (0 ∷ []) (2 ∷ [])
chain a b c (suc (suc zero)) = task c (1 ∷ []) []
chain a b c (suc (suc (suc n))) = record (task default [] []) { change = none }

abbrev three : Change
three = record {
  status = default;
  task_ids = 0 ∷ 1 ∷ 2 ∷ [];
  ready = false;
  ready_time = none;
  last_observed = default;
  last_recorded = default;
}

-- With the first task in wait and the others pending, the change waits.
blocked : change_status 4 (chain wait do_ do_) three ≡ some wait
unfolding change_status is_change_waiting is_task_waiting change_loop deps_loop stats
blocked = refl

failed : change_status 4 (chain done error hold) three ≡ some error
unfolding change_status is_change_waiting is_task_waiting change_loop deps_loop stats
failed = refl

change_status-ready_example : ready error ≡ true
change_status-ready_example =
    change_status-ready 4 (chain done error hold) three error refl (λ e. cc) failed

chain-Closed : (a b c : Status) → Closed 3 (chain a b c)
chain-Closed a b c zero = omega arith
chain-Closed a b c (suc zero) = omega arith
chain-Closed a b c (suc (suc zero)) = omega arith
chain-Closed a b c (suc (suc (suc n))) = (tt, tt)

-- Here the other tasks are in a change too.
abbrev all_owned : Tasks
all_owned id = record (chain wait do_ do_ id) { change = some 0 }

change_status-some_example : change_status 4 all_owned three ≢ none
change_status-some_example =
    change_status-some 3 all_owned three (chain-Closed wait do_ do_) (λ id e. cc) (omega arith)

abbrev store : Store
store = record {
  tasks = chain done doing do_;
  changes = λ cid. if cid == 0 then some three else none;
  notes = [];
}

-- The tasks of `three` are the first three, and they belong to change 0.
only_three : (cid : ℕ) (c : Change) → store.changes cid ≡ some c → (cid ≡ 0) × (c ≡ three)
only_three cid c h = elim (ℕ_discrete cid 0) [
  | yes e ↦ (e, ground arith)
  | no ne ↦ absurd (ground arith)
]

three_linked :
    (id : ℕ) → (contains id three.task_ids ≡ true) ↔ ((chain done doing do_ id).change ≡ some 0)
three_linked zero = (λ _. refl, λ _. refl)
three_linked (suc zero) = (λ _. refl, λ _. refl)
three_linked (suc (suc zero)) = (λ _. refl, λ _. refl)
three_linked (suc (suc (suc n))) = (λ h. ground arith, λ h. cc)

store-Sound : Sound store
store-Sound = record {
  linked = λ cid c id h. let (e, ec) = only_three cid c h in rw (e, ec) (three_linked id);
  settled = λ cid c h d n all.
      let (e, ec) = only_three cid c h in
      absurd (cc (ap (λ (x : Change). all_ready store.tasks x.task_ids) (sym ec) ∙ all));
}

abbrev or_store : Option Store → Store
or_store none = store
or_store (some st) = st

set_status-Sound_example : Sound (or_store (set_status 4 100 1 done store))
unfolding set_status change_task_status store_status with_change task_status_changed change_status
    detect_change_ready notify_status_change stats
set_status-Sound_example =
    set_status-Sound 4 100 1 done store (or_store (set_status 4 100 1 done store)) store-Sound
      (inl refl)

abbrev ended_or_store : Outcome → Store
ended_or_store (ends st) = st
ended_or_store o = store

abbrev aborted : Store
aborted = ended_or_store (abort_change 2 6 4 100 three store)

aborted_statuses :
    ((aborted.tasks 0).status ≡ undo)
    × ((aborted.tasks 1).status ≡ abort)
    × ((aborted.tasks 2).status ≡ hold)
unfolding abort_change abort_lanes lane_victims abort_loop abort_task set_status change_task_status
    store_status with_change task_status_changed change_status detect_change_ready
    notify_status_change stats
aborted_statuses = (refl, refl, refl)

abort_change-IsAborted_example : IsAborted (store.tasks 1) (aborted.tasks 1)
unfolding abort_change abort_lanes lane_victims abort_loop abort_task set_status change_task_status
    store_status with_change task_status_changed change_status detect_change_ready
    notify_status_change stats
abort_change-IsAborted_example =
    abort_change-IsAborted 2 6 4 100 three store aborted 0 1 refl refl
      (behind 0 1 1 refl (itself 1))

abort_lanes-IsAborted_example : IsAborted (store.tasks 2) (
    (ended_or_store (abort_lanes 2 6 4 100 three.task_ids no_marks (0 ∷ []) no_marks store)).tasks
      2)
unfolding abort_lanes lane_victims abort_loop abort_task set_status change_task_status store_status
    with_change task_status_changed change_status detect_change_ready notify_status_change stats
abort_lanes-IsAborted_example =
    abort_lanes-IsAborted 2 6 4 100 three (0 ∷ []) store
      (ended_or_store (abort_lanes 2 6 4 100 three.task_ids no_marks (0 ∷ []) no_marks store)) 1 0 2
      refl refl refl refl (λ l h. to_abort h) (behind 1 2 2 refl (itself 2))

abort-keeps_example : Moved store aborted × Sound aborted
unfolding abort_change abort_lanes lane_victims abort_loop abort_task set_status change_task_status
    store_status with_change task_status_changed change_status detect_change_ready
    notify_status_change stats
abort-keeps_example = abort-keeps 2 6 4 100 three [] store aborted store-Sound (inl refl)

chain-lanes : (a b c : Status) (j : ℕ) → AllBelow 1 (lanes_of (chain a b c j).lanes)
chain-lanes a b c zero = omega arith
chain-lanes a b c (suc zero) = omega arith
chain-lanes a b c (suc (suc zero)) = omega arith
chain-lanes a b c (suc (suc (suc n))) = omega arith

abort-returns_example :
    (abort_change 2 5 4 100 three store ≢ out_of_fuel)
    × (abort_lanes 2 5 4 100 three.task_ids no_marks (0 ∷ []) no_marks store ≢ out_of_fuel)
abort-returns_example =
    abort-returns 3 1 4 100 three (0 ∷ []) store (λ j. (chain-Closed done doing do_ j).1)
      (chain-lanes done doing do_) (omega arith)

chain-Mirrored : (a b c : Status) → Mirrored (chain a b c)
chain-Mirrored a b c zero zero = refl
chain-Mirrored a b c zero (suc zero) = refl
chain-Mirrored a b c zero (suc (suc zero)) = refl
chain-Mirrored a b c zero (suc (suc (suc y))) = refl
chain-Mirrored a b c (suc zero) zero = refl
chain-Mirrored a b c (suc zero) (suc zero) = refl
chain-Mirrored a b c (suc zero) (suc (suc zero)) = refl
chain-Mirrored a b c (suc zero) (suc (suc (suc y))) = ground arith
chain-Mirrored a b c (suc (suc zero)) zero = refl
chain-Mirrored a b c (suc (suc zero)) (suc zero) = refl
chain-Mirrored a b c (suc (suc zero)) (suc (suc zero)) = refl
chain-Mirrored a b c (suc (suc zero)) (suc (suc (suc y))) = ground arith
chain-Mirrored a b c (suc (suc (suc x))) zero = ground arith
chain-Mirrored a b c (suc (suc (suc x))) (suc zero) = ground arith
chain-Mirrored a b c (suc (suc (suc x))) (suc (suc zero)) = refl
chain-Mirrored a b c (suc (suc (suc x))) (suc (suc (suc y))) = refl

wait_all-Mirrored_example :
    Mirrored (wait_all 2 (0 ∷ 1 ∷ []) (chain do_ do_ do_))
    × (contains 0 (wait_all 2 (0 ∷ 1 ∷ []) (chain do_ do_ do_) 2).wait_tasks
        ≡ contains 0 (chain do_ do_ do_ 2).wait_tasks || contains 0 (0 ∷ 1 ∷ []))
wait_all-Mirrored_example =
    wait_all-Mirrored 2 (0 ∷ 1 ∷ []) (chain do_ do_ do_) 0 (chain-Mirrored do_ do_ do_)

add_task-Sound_example : (st' : Store) × (add_task 0 three 3 store ≡ some st') × Sound st'
add_task-Sound_example = add_task-Sound 0 three 3 store store-Sound refl refl refl
