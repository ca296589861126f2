-- ===== src/State/Settled.antt =====
-- A change is marked ready as soon as all its tasks are (internals/overlord/state/change.go).
use buildtest.State.Aggregate.{change_status}
use buildtest.Base.{
  Bool, Bool-cases, List, Option, [], ap, arith, bool_eq, false, if◌then◌else◌, inl, inr, not, refl,
  some, sym, true, ℕ, ◌&&◌, ◌==◌, ◌||◌, ◌↔◌, ◌∙◌, ◌∷◌, ◌≡◌, ◌≢◌,
}
use buildtest.State.Status.{Status, default, ready}
use buildtest.State.Data.{Change, Task, Tasks, shown}
use buildtest.State.Readiness.{all_ready}
use buildtest.State.Store.{
  >>=-eq-some, Note, Store, detect_change_ready, notify_status_change, others_ready, set_task,
  task_status_changed,
}

abbrev pub contains : ℕ → List ℕ → Bool
contains x [] = false
contains x (y ∷ ys) = y == x || contains x ys

-- If the status of a change is that of its tasks and they are all ready, it is marked ready.
abbrev pub Settled : Tasks → Change → Type 0
Settled tasks c =
    c.status ≡ default → c.task_ids ≢ [] → all_ready tasks c.task_ids ≡ true → c.ready ≡ true

ready-shown : (s : Status) → ready (shown s) ≡ ready s
ready-shown default = refl
ready-shown _ = refl

all_ready-others :
    (x : ℕ) (tasks : Tasks) (ids : List ℕ)
    → all_ready tasks ids ≡ true
    → others_ready x tasks ids ≡ true
all_ready-others x tasks [] h = refl
all_ready-others x tasks (id ∷ ids) h =
    ground (arith, all_ready-others x tasks ids, ready-shown (tasks id).status)

pub all_ready-contains :
    (x : ℕ) (tasks : Tasks) (ids : List ℕ)
    → all_ready tasks ids ≡ true
    → contains x ids ≡ true
    → ready (tasks x).status ≡ true
all_ready-contains x tasks [] h m = cc
all_ready-contains x tasks (id ∷ ids) h m = ground (
  arith,
  all_ready-contains x tasks ids,
  ready-shown (tasks id).status,
  ap tasks {x = id} {y = x},
)

others_ready-all :
    (x : ℕ) (tasks : Tasks) (ids : List ℕ)
    → others_ready x tasks ids ≡ true
    → ready (tasks x).status ≡ true
    → all_ready tasks ids ≡ true
others_ready-all x tasks [] h m = refl
others_ready-all x tasks (id ∷ ids) h m =
    ground (
      arith,
      others_ready-all x tasks ids,
      ready-shown (tasks id).status,
      ap tasks {x = id} {y = x},
    )

others_ready-set :
    (x : ℕ) (t : Task) (tasks : Tasks) (ids : List ℕ)
    → others_ready x (set_task x t tasks) ids ≡ others_ready x tasks ids
others_ready-set x t tasks [] = refl
others_ready-set x t tasks (id ∷ ids) = ground (arith, others_ready-set x t tasks ids)

pub all_ready-set :
    (x : ℕ) (t : Task) (tasks : Tasks) (ids : List ℕ)
    → contains x ids ≡ false
    → all_ready (set_task x t tasks) ids ≡ all_ready tasks ids
all_ready-set x t tasks [] h = refl
all_ready-set x t tasks (id ∷ ids) h = ground (arith, all_ready-set x t tasks ids)

-- What stays of a change when observers are told of its status.
abbrev pub SameTasks : Change → Change → Type 0
SameTasks c c' = (c'.task_ids ≡ c.task_ids) × (c'.status ≡ c.status)

notify-keeps :
    (cid : ℕ) (new : Status) (c : Change)
    → let c' = (notify_status_change cid new c).0 in SameTasks c c' × (c'.ready ≡ c.ready)
unfolding notify_status_change
notify-keeps cid new c = ground arith

detect-keeps :
    (fuel now : ℕ) (tasks : Tasks) (x : ℕ) (c c' : Change)
    → detect_change_ready fuel now tasks x c ≡ some c'
    → SameTasks c c' × (c'.ready ≡ c.ready || others_ready x tasks c.task_ids)
unfolding detect_change_ready
detect-keeps fuel now tasks x c c' h = ground arith

-- The step of `taskStatusChanged` that may mark the change ready.
marked_change : ℕ → ℕ → Tasks → ℕ → Bool → Change → Option Change
marked_change fuel now tasks id same c =
    if same then some c else detect_change_ready fuel now tasks id c

marked_change-keeps :
    (fuel now : ℕ) (tasks : Tasks) (id : ℕ) (same : Bool) (c c' : Change)
    → marked_change fuel now tasks id same c ≡ some c'
    → SameTasks c c' × (c'.ready ≡ c.ready || (not same && others_ready id tasks c.task_ids))
unfolding marked_change
marked_change-keeps fuel now tasks id true c c' h = ground arith
marked_change-keeps fuel now tasks id false c c' h = detect-keeps fuel now tasks id c c' h

-- Both ways of `taskStatusChanged`.
pub task_status_changed-keeps :
    (fuel now : ℕ) (tasks : Tasks) (id : ℕ) (old new : Status) (cid : ℕ) (c c' : Change)
    (notes : List Note)
    → task_status_changed fuel now tasks id old new cid c ≡ some (c', notes)
    → SameTasks c c'
      × (c'.ready
          ≡ c.ready || (not (bool_eq (ready old) (ready new)) && others_ready id tasks c.task_ids))
unfolding task_status_changed marked_change
task_status_changed-keeps fuel now tasks id old new cid c c' notes h =
    let (cs, e, h') = >>=-eq-some (change_status fuel tasks c) _ h in
    let (c₁, e₁, h'') =
      >>=-eq-some (marked_change fuel now tasks id (bool_eq (ready old) (ready new)) c) _ h' in
    let kept = marked_change-keeps fuel now tasks id (bool_eq (ready old) (ready new)) c c₁ e₁ in
    let told = notify-keeps cid cs c₁ in
    let same : (notify_status_change cid cs c₁).0 ≡ c' = cc in
    (
      (
        ap (λ (x : Change). x.task_ids) (sym same) ∙ told.0.0 ∙ kept.0.0,
        ap (λ (x : Change). x.status) (sym same) ∙ told.0.1 ∙ kept.0.1,
      ),
      ap (λ (x : Change). x.ready) (sym same) ∙ told.1 ∙ kept.1,
    )

-- The store: changes and tasks name one another, and every change is settled.
pub record Sound (st : Store) : Type 0 where
  pub linked :
      (cid : ℕ) (c : Change) (id : ℕ)
      → st.changes cid ≡ some c
      → (contains id c.task_ids ≡ true) ↔ ((st.tasks id).change ≡ some cid)
  pub settled : (cid : ℕ) (c : Change) → st.changes cid ≡ some c → Settled st.tasks c

or-true : (b : Bool) → b || (true && true) ≡ true
or-true true = refl
or-true false = refl

-- The change of the task: settled before, and told of the task's status.
pub own_change-Settled :
    (fuel now : ℕ) (tasks : Tasks) (t : Task) (id cid : ℕ) (c c' : Change) (notes : List Note)
    → Settled tasks c
    → contains id c.task_ids ≡ true
    → task_status_changed fuel now (set_task id t tasks) id (tasks id).status t.status cid c
      ≡ some (c', notes)
    → Settled (set_task id t tasks) c'
own_change-Settled fuel now tasks t id cid c c' notes before m h d n all =
    let tasks' = set_task id t tasks in
    let old = (tasks id).status in
    let (kept, marked) =
      task_status_changed-keeps fuel now tasks' id old t.status cid c c' notes h in
    let all' : all_ready tasks' c.task_ids ≡ true = ap (all_ready tasks') (sym kept.0) ∙ all in
    let others = all_ready-others id tasks' c.task_ids all' in
    let others' = sym (others_ready-set id t tasks c.task_ids) ∙ others in
    let own = all_ready-contains id tasks' c.task_ids all' m in
    let was = others_ready-all id tasks c.task_ids others' in
    let n' : c.task_ids ≢ [] = λ e. n (kept.0 ∙ e) in
    let d' : c.status ≡ default = sym kept.1 ∙ d in
    let put : set_task id t tasks id ≡ t = ground arith in
    let new : ready t.status ≡ true = ap (λ (x : Task). ready x.status) (sym put) ∙ own in
    elim (Bool-cases (ready old)) [
      | inl e ↦ marked ∙ rw (before d' n' (was e)) refl
      | inr e ↦ marked ∙ rw (e, new, others) (or-true c.ready)
    ]
