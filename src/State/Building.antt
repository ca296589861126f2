-- ===== src/State/Building.antt =====
-- How tasks are put together into changes (internals/overlord/state/task.go and change.go).
use buildtest.State.Status.{ready}
use buildtest.Base.{
  List, Option, [], ap, arith, false, if◌then◌else◌, inl, inr, none, set, some, sym, true, ℕ,
  ℕ_discrete, ◌&&◌, ◌++◌, ◌==◌, ◌||◌, ◌↔◌, ◌∙◌, ◌∷◌, ◌≡◌, ◌≢◌,
}
use buildtest.State.Data.{Change, Task, Tasks}
use buildtest.State.Sound.{not_contained, other-Settled, set_change-cases}
use buildtest.State.Readiness.{all_ready}
use buildtest.State.Settled.{Sound, all_ready-contains, contains}
use buildtest.State.Store.{Store, set_change, set_task}

-- `addOnce`.
abbrev pub add_once : List ℕ → ℕ → List ℕ
add_once set s = if contains s set then set else set ++ s ∷ []

-- `WaitFor`: the first task is to wait for the other.
unfoldable pub wait_for : ℕ → ℕ → Tasks → Tasks
wait_for id another tasks =
    let t = tasks id in
    let tasks' = set_task id (record t { wait_tasks = add_once t.wait_tasks another }) tasks in
    let a = tasks' another in
    set_task another (record a { halt_tasks = add_once a.halt_tasks id }) tasks'

-- `WaitAll`.
unfoldable pub wait_all : ℕ → List ℕ → Tasks → Tasks
unfolding wait_for
wait_all id [] tasks = tasks
wait_all id (req ∷ reqs) tasks = wait_all id reqs (wait_for id req tasks)

-- `JoinLane`.
unfoldable pub join_lane : ℕ → ℕ → Tasks → Tasks
join_lane id lane tasks =
    set_task id (record (tasks id) { lanes = (tasks id).lanes ++ lane ∷ [] }) tasks

-- `AddTask`, of a change that is there; `none` is its panic.
unfoldable pub add_task : ℕ → Change → ℕ → Store → Option Store
add_task cid c id st = elim (st.tasks id).change [
  | some other ↦ none
  | none ↦ some (record st {
    tasks = set_task id (record (st.tasks id) { change = some cid }) st.tasks;
    changes = set_change cid (record c { task_ids = add_once c.task_ids id }) st.changes;
  })
]

-- A task waits for another exactly if the other has it among those that it halts.
abbrev pub Mirrored : Tasks → Type 0
Mirrored tasks = (a b : ℕ) → contains b (tasks a).wait_tasks ≡ contains a (tasks b).halt_tasks

contains-end : (x s : ℕ) (set : List ℕ) → contains x (set ++ s ∷ []) ≡ contains x set || s == x
contains-end x s [] = ground arith
contains-end x s (y ∷ set) = ground (arith, contains-end x s set)

contains-add_once :
    (x s : ℕ) (set : List ℕ) → contains x (add_once set s) ≡ contains x set || s == x
contains-add_once x s set =
    ground (arith, contains-end x s set, ap (λ y. contains y set) {x = s} {y = x})

-- The lists of a task after `WaitFor`.
wait_for-lists :
    (id another : ℕ) (tasks : Tasks) (j : ℕ)
    → ((wait_for id another tasks j).wait_tasks
        ≡ (if id == j then add_once (tasks j).wait_tasks another else (tasks j).wait_tasks))
      × ((wait_for id another tasks j).halt_tasks
          ≡ (if another == j then add_once (tasks j).halt_tasks id else (tasks j).halt_tasks))
unfolding wait_for
wait_for-lists id another tasks j = ground (
  arith,
  ap tasks {x = id} {y = j},
  ap tasks {x = another} {y = j},
  ap tasks {x = id} {y = another},
)

-- `WaitFor` adds one edge to the tasks, at both of its ends: a task waits for another, or is waited for
-- by it, if it was so before or if the edge is the new one.
wait_for_lem :
    (id another : ℕ) (tasks : Tasks) (a b : ℕ)
    → let tasks' = wait_for id another tasks in
      (contains b (tasks' a).wait_tasks
        ≡ contains b (tasks a).wait_tasks || (id == a && another == b))
      × (contains a (tasks' b).halt_tasks
          ≡ contains a (tasks b).halt_tasks || (id == a && another == b))
wait_for_lem id another tasks a b = ground (
  arith,
  wait_for-lists id another tasks a,
  wait_for-lists id another tasks b,
  contains-add_once b another (tasks a).wait_tasks,
  contains-add_once a id (tasks b).halt_tasks,
)

-- `WaitAll` keeps the two ends of every edge of the tasks in agreement: each task is listed as waiting
-- by those, and only by those, for which it waits; and it makes a task wait for all of a set.
pub wait_all-Mirrored :
    (id : ℕ) (reqs : List ℕ) (tasks : Tasks) (b : ℕ)
    → Mirrored tasks
    → Mirrored (wait_all id reqs tasks)
      × (contains b (wait_all id reqs tasks id).wait_tasks
          ≡ contains b (tasks id).wait_tasks || contains b reqs)
unfolding wait_all
wait_all-Mirrored id [] tasks b v = (v, ground arith)
wait_all-Mirrored id (req ∷ reqs) tasks b v =
    let tasks' = wait_for id req tasks in
    let v' : Mirrored tasks' = λ x y. ground (arith, wait_for_lem id req tasks x y, v x y) in
    let rest = wait_all-Mirrored id reqs tasks' b v' in
    (rest.0, ground (arith, rest.1, wait_for_lem id req tasks id b))

put_change :
    (id cid : ℕ) (tasks : Tasks) (k : ℕ)
    → (set_task id (record (tasks id) { change = some cid }) tasks k).change
      ≡ (if id == k then some cid else (tasks k).change)
put_change id cid tasks k = ground arith

-- The change that a task joins, and the others.
own-linked :
    (st : Store) (cid id : ℕ) (c : Change) (k : ℕ)
    → Sound st
    → st.changes cid ≡ some c
    → (contains k (add_once c.task_ids id) ≡ true)
      ↔ ((if id == k then some cid else (st.tasks k).change) ≡ some cid)
own-linked st cid id c k v found =
    ground (arith, v.linked cid c k found, contains-add_once k id c.task_ids)

other-linked :
    (st : Store) (cid id j : ℕ) (d : Change) (k : ℕ)
    → Sound st
    → (st.tasks id).change ≡ none
    → j ≢ cid
    → st.changes j ≡ some d
    → (contains k d.task_ids ≡ true)
      ↔ ((if id == k then some cid else (st.tasks k).change) ≡ some j)
other-linked st cid id j d k v free ne at = elim (ℕ_discrete id k) [
  | yes e ↦
      let out = not_contained st id j d v at (λ e'. cc) in
      ground (arith, e, out, ap (λ x. contains x d.task_ids) e)
  | no ne' ↦ ground (arith, v.linked j d k at)
]

-- `AddTask`, of a task in no change that is not ready: it does not panic, and changes and tasks still
-- name each other, with every change that is ready by its tasks marked so.
pub add_task-Sound :
    (cid : ℕ) (c : Change) (id : ℕ) (st : Store)
    → Sound st
    → st.changes cid ≡ some c
    → (st.tasks id).change ≡ none
    → ready (st.tasks id).status ≡ false
    → (st' : Store) × (add_task cid c id st ≡ some st') × Sound st'
unfolding add_task
add_task-Sound cid c id st v found free fresh =
    let t : Task = record (st.tasks id) { change = some cid } in
    let tasks' = set_task id t st.tasks in
    let c' : Change = record c { task_ids = add_once c.task_ids id } in
    let changes' = set_change cid c' st.changes in
    let st' : Store = record st { tasks = tasks'; changes = changes' } in
    (
      st',
      ground (arith, free),
      record {
        linked = λ j d k at. elim (set_change-cases cid c' st.changes j d at) [
          | inl (e, e') ↦
              rw (e, e', put_change id cid st.tasks k) (own-linked st cid id c k v found)
          | inr (ne, e) ↦
              rw (put_change id cid st.tasks k) (other-linked st cid id j d k v free ne e)
        ];
        settled = λ j d at. elim (set_change-cases cid c' st.changes j d at) [
          | inl (e, e') ↦ λ o n all.
              let all' : all_ready tasks' c'.task_ids ≡ true =
                ap (λ (x : Change). all_ready tasks' x.task_ids) (sym e') ∙ all in
              let there = contains-add_once id id c.task_ids in
              let own = all_ready-contains id tasks' c'.task_ids all' (ground (arith, there)) in
              absurd (ground (arith, own, fresh))
          | inr (ne, e) ↦
              other-Settled st.tasks t id d (not_contained st id j d v e (λ e'. cc))
                (v.settled j d e)
        ];
      },
    )
