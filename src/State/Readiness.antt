-- ===== src/State/Readiness.antt =====
-- When a change is ready, by the statuses of its tasks (internals/overlord/state/change.go).
use buildtest.Base.{
  Bool, List, [], arith, false, if◌then◌else◌, length, none, refl, some, true, ℕ, ◌&&◌, ◌+◌, ◌<◌,
  ◌==◌, ◌∷◌, ◌≡◌, ◌≢◌,
}
use buildtest.State.Status.{
  Status, abort, default, do_, doing, done, error, hold, ready, status_eq, status_order, undo,
  undoing, undone, wait,
}
use buildtest.State.Data.{Change, Tasks, shown, task_status}
use buildtest.State.Aggregate.{change_status, first_present, stats}

abbrev pub all_ready : Tasks → List ℕ → Bool
all_ready tasks [] = true
all_ready tasks (id ∷ ids) = ready (task_status tasks id) && all_ready tasks ids

-- How many tasks have a status that is not ready, and one that is.
abbrev pub live_count : Tasks → List ℕ → ℕ
live_count tasks ids =
    stats tasks ids abort
    + stats tasks ids undoing
    + stats tasks ids undo
    + stats tasks ids doing
    + stats tasks ids do_
    + stats tasks ids wait

abbrev pub ready_count : Tasks → List ℕ → ℕ
ready_count tasks ids =
    stats tasks ids error + stats tasks ids undone + stats tasks ids done + stats tasks ids hold

abbrev tally : Status → Status → ℕ
tally a s = if status_eq a s then 1 else 0

one_live :
    (s : Status)
    → tally (shown s) abort
        + tally (shown s) undoing
        + tally (shown s) undo
        + tally (shown s) doing
        + tally (shown s) do_
        + tally (shown s) wait
      ≡ (if ready (shown s) then 0 else 1)
one_live default = refl
one_live _ = refl

one_ready :
    (s : Status)
    → tally (shown s) error + tally (shown s) undone + tally (shown s) done + tally (shown s) hold
      ≡ (if ready (shown s) then 1 else 0)
one_ready default = refl
one_ready _ = refl

live_count-cons :
    (tasks : Tasks) (id : ℕ) (ids : List ℕ)
    → live_count tasks (id ∷ ids)
      ≡ (if ready (task_status tasks id) then 0 else 1) + live_count tasks ids
unfolding stats
live_count-cons tasks id ids = omega (arith, one_live (tasks id).status)

ready_count-cons :
    (tasks : Tasks) (id : ℕ) (ids : List ℕ)
    → ready_count tasks (id ∷ ids)
      ≡ (if ready (task_status tasks id) then 1 else 0) + ready_count tasks ids
unfolding stats
ready_count-cons tasks id ids = omega (arith, one_ready (tasks id).status)

live_count-nil : (tasks : Tasks) → live_count tasks [] ≡ 0
unfolding stats
live_count-nil tasks = refl

-- Every task is counted once, on one of the sides.
pub count_all :
    (tasks : Tasks) (ids : List ℕ) → live_count tasks ids + ready_count tasks ids ≡ length ids
count_all tasks [] = unfold stats in refl
count_all tasks (id ∷ ids) =
    ground (arith, live_count-cons tasks id ids, ready_count-cons tasks id ids, count_all tasks ids)

-- The change is ready with no live task, and only so.
all_ready-live :
    (tasks : Tasks) (ids : List ℕ)
    → all_ready tasks ids ≡ (if live_count tasks ids == 0 then true else false)
all_ready-live tasks [] = ground (arith, live_count-nil tasks)
all_ready-live tasks (id ∷ ids) =
    ground (arith, live_count-cons tasks id ids, all_ready-live tasks ids)

first_present-ready :
    (count : Status → ℕ) (s : Status)
    → first_present count status_order ≡ some s
    → ready s ≡ (
        if count abort + count undoing + count undo + count doing + count do_ + count wait == 0
        then true
        else false)
unfolding first_present
first_present-ready count s h = ground arith

pub first_present-some :
    (count : Status → ℕ)
    → 0
      < count abort
        + count undoing
        + count undo
        + count doing
        + count do_
        + count wait
        + (count error + count undone + count done + count hold)
    → first_present count status_order ≢ none
unfolding first_present
first_present-some count h = ground arith

-- A change whose status was not set and that has tasks: whatever status it is given, that status is
-- a ready one exactly if every task is ready.
pub change_status-ready :
    (f : ℕ) (tasks : Tasks) (c : Change) (s : Status)
    → c.status ≡ default
    → c.task_ids ≢ []
    → change_status f tasks c ≡ some s
    → ready s ≡ all_ready tasks c.task_ids
unfolding change_status
change_status-ready f tasks c s h k e =
    ground (arith, all_ready-live tasks c.task_ids, first_present-ready (stats tasks c.task_ids) s)
