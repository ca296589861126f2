-- ===== src/Runner/Tests.antt =====
-- A runner with one task, and the theorems at concrete inputs.
use buildtest.Runner.Ensure.{
  Pass, consider, consider_all, consider_idle, ensure, first_pass, try_run,
}
use buildtest.State.Aggregate.{change_status, stats}
use buildtest.State.Abort.{abort_lanes, abort_loop, abort_task, lane_victims}
use buildtest.Base.{
  List, Option, [], ap, arith, false, if◌then◌else◌, none, refl, some, suc, sym, true, zero, ℕ,
  ℕ_discrete, ◌==◌, ◌↔◌, ◌∙◌, ◌∷◌, ◌≡◌, ◌⊎◌,
}
use buildtest.State.Status.{Status, abort, default, do_, doing, error, undo}
use buildtest.State.Data.{Change, Task, Tasks}
use buildtest.State.Store.{
  change_task_status, detect_change_ready, notify_status_change, set_status, store_status,
  task_status_changed, with_change,
}
use buildtest.Runner.Data.{
  Runner, World, clean_task, is_handled, run_in, run_task, runner_abort_lanes, status_of, try_undo,
}
use buildtest.Runner.Finish.{fail_task, failed, finish, settle, succeed_in, succeeded}
use buildtest.Runner.Outcome.{finish_lem}
use buildtest.Runner.Order.{Starts, consider-Starts}
use buildtest.Runner.Passes.{Turn, pass, returns, turns, turns-Sound}
use buildtest.State.Settled.{Sound, contains}
use buildtest.State.Readiness.{all_ready}

abbrev member : Status → List ℕ → List ℕ → Option ℕ → Task
member s before behind c = record {
  status = s;
  waited_status = default;
  wait_tasks = before;
  halt_tasks = behind;
  lanes = [];
  change = c;
}

-- Task 1 waits for task 0.
abbrev pair : Status → Status → Tasks
pair a b zero = member a [] (1 ∷ []) (some 0)
pair a b (suc zero) = member b (0 ∷ []) [] (some 0)
pair a b (suc (suc n)) = member default [] [] none

abbrev both : Change
both = record {
  status = default;
  task_ids = 0 ∷ 1 ∷ [];
  ready = false;
  ready_time = none;
  last_observed = default;
  last_recorded = default;
}

abbrev idle_runner : Runner
idle_runner = record {
  has_do = λ id. true;
  has_undo = λ id. true;
  has_cleanup = λ id. false;
  blocked = λ id running. false;
  stopped = false;
  some_blocked = false;
  tombs = λ id. none;
  at_time = λ id. 0;
  clean = λ id. false;
  asked = [];
}

abbrev begun : Status → Status → World
begun a b = record {
  store = record {
    tasks = pair a b;
    changes = λ cid. if cid == 0 then some both else none;
    notes = [];
  };
  runner = record idle_runner { tombs = λ id. if id == 0 then some false else none };
}

abbrev or_begun : Option World → World
or_begun none = begun doing do_
or_begun (some w) = w

finish_lem_example :
    (status_of (or_begun (finish failed 3 9 3 50 0 (begun doing do_))) 0 ≡ error)
    × (is_handled (or_begun (finish failed 3 9 3 50 0 (begun doing do_))).runner 0 ≡ false)
unfolding finish settle fail_task runner_abort_lanes abort_lanes lane_victims abort_loop abort_task
    set_status change_task_status store_status with_change task_status_changed change_status
    detect_change_ready notify_status_change stats
finish_lem_example =
    finish_lem failed 3 9 3 50 0 (begun doing do_)
      (or_begun (finish failed 3 9 3 50 0 (begun doing do_))) refl refl

abbrev fresh : World
fresh = record (begun do_ do_) { runner = idle_runner }

abbrev fresh_pass : Pass
fresh_pass = first_pass (0 ∷ 1 ∷ []) fresh

abbrev or_pass : Option Pass → Pass
or_pass none = fresh_pass
or_pass (some p) = p

consider-Starts_example :
    (w : World) × ((w ≡ fresh_pass.world)
      ⊎ ((status_of fresh_pass.world 0 ≡ abort) × (try_undo 3 50 0 fresh_pass.world ≡ some w)))
    × (fresh_pass.world.runner.has_do 0 ≡ true)
    × (is_handled fresh_pass.world.runner 0 ≡ false)
    × Starts 50 0 w fresh_pass.running (or_pass (consider 3 50 0 fresh_pass)).world
unfolding consider consider_idle try_run run_task run_in set_status change_task_status store_status
    with_change task_status_changed change_status detect_change_ready notify_status_change stats
consider-Starts_example =
    consider-Starts 3 50 0 fresh_pass (or_pass (consider 3 50 0 fresh_pass)) refl (λ e. cc)

only_both : (cid : ℕ) (c : Change) → fresh.store.changes cid ≡ some c → (cid ≡ 0) × (c ≡ both)
only_both cid c h = elim (ℕ_discrete cid 0) [
  | yes e ↦ (e, ground arith)
  | no ne ↦ absurd (ground arith)
]

pair_linked : (id : ℕ) → (contains id both.task_ids ≡ true) ↔ ((pair do_ do_ id).change ≡ some 0)
pair_linked zero = (λ _. refl, λ _. refl)
pair_linked (suc zero) = (λ _. refl, λ _. refl)
pair_linked (suc (suc n)) = (λ h. ground arith, λ h. cc)

fresh-Sound : Sound fresh.store
fresh-Sound = record {
  linked = λ cid c id h. let (e, ec) = only_both cid c h in rw (e, ec) (pair_linked id);
  settled = λ cid c h d n all.
      let (e, ec) = only_both cid c h in
      absurd (cc (ap (λ (x : Change). all_ready fresh.store.tasks x.task_ids) (sym ec) ∙ all));
}

-- Task 0 runs and succeeds, then task 1 runs and fails.
abbrev story : List (Turn × ℕ)
story =
    (pass (0 ∷ 1 ∷ []), 10)
    ∷ (returns succeeded 0, 20)
    ∷ (pass (0 ∷ 1 ∷ []), 30)
    ∷ (returns failed 1, 40)
    ∷ []

abbrev told : World
told = or_begun (turns 3 9 3 story fresh)

story_ends : (status_of told 0 ≡ undo) × (status_of told 1 ≡ error)
unfolding ensure consider_all consider consider_idle try_run run_task run_in finish settle
    succeed_in fail_task runner_abort_lanes abort_lanes lane_victims abort_loop abort_task
    set_status change_task_status store_status with_change task_status_changed change_status
    detect_change_ready notify_status_change stats clean_task
story_ends = (refl, refl)

turns-Sound_example : Sound told.store
unfolding ensure consider_all consider consider_idle try_run run_task run_in finish settle
    succeed_in fail_task runner_abort_lanes abort_lanes lane_victims abort_loop abort_task
    set_status change_task_status store_status with_change task_status_changed change_status
    detect_change_ready notify_status_change stats clean_task
turns-Sound_example = turns-Sound 3 9 3 story fresh told fresh-Sound refl
