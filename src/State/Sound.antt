-- ===== src/State/Sound.antt =====
-- Every operation on a task's status keeps the changes settled (internals/overlord/state/task.go and
-- change.go).
use buildtest.State.Aggregate.{is_default}
use buildtest.State.Status.{Status, abort, done, status_eq, wait}
use buildtest.State.Readiness.{all_ready}
use buildtest.Base.{
  Bool, Bool-cases, List, Option, Option-cases, [], ap, arith, false, if◌then◌else◌, inl, inr, none,
  refl, some, subst, sym, true, ℕ, ℕ_discrete, ◌&&◌, ◌++◌, ◌||◌, ◌∙◌, ◌∷◌, ◌≡◌, ◌≢◌, ◌⊎◌,
}
use buildtest.State.Data.{Change, Task, Tasks}
use buildtest.State.Store.{
  Note, Store, change_task_status, set_change, set_status, set_task, set_to_wait, store_status,
  task_changed, task_status_changed, with_change,
}
use buildtest.State.Settled.{
  Settled, Sound, all_ready-set, contains, own_change-Settled, task_status_changed-keeps,
}

pub other-Settled :
    (tasks : Tasks) (t : Task) (id : ℕ) (c : Change)
    → contains id c.task_ids ≡ false
    → Settled tasks c
    → Settled (set_task id t tasks) c
other-Settled tasks t id c out before d n all =
    before d n (sym (all_ready-set id t tasks c.task_ids out) ∙ all)

set_task-change :
    (id : ℕ) (t : Task) (tasks : Tasks) (j : ℕ)
    → t.change ≡ (tasks id).change
    → (set_task id t tasks j).change ≡ (tasks j).change
set_task-change id t tasks j h = ground (arith, ap tasks {x = id} {y = j})

pub not_contained :
    (st : Store) (id cid : ℕ) (c : Change)
    → Sound st
    → st.changes cid ≡ some c
    → (st.tasks id).change ≢ some cid
    → contains id c.task_ids ≡ false
not_contained st id cid c v found other = elim (Bool-cases (contains id c.task_ids)) [
  | inl e ↦ absurd (other ((v.linked cid c id found).0 e))
  | inr e ↦ e
]

pub set_change-cases :
    (cid : ℕ) (c' : Change) (changes : ℕ → Option Change) (j : ℕ) (c : Change)
    → set_change cid c' changes j ≡ some c
    → ((j ≡ cid) × (c ≡ c')) ⊎ ((j ≢ cid) × (changes j ≡ some c))
set_change-cases cid c' changes j c h = elim (ℕ_discrete j cid) [
  | yes e ↦ inl (e, ground arith)
  | no ne ↦ inr (ne, ground arith)
]

with_change-cases :
    (o : Option ℕ) (changes : ℕ → Option Change)
    → ((with_change o changes ≡ none)
        × ((cid : ℕ) (c : Change) → changes cid ≡ some c → o ≢ some cid))
      ⊎ ((cid : ℕ) × (c : Change) × (o ≡ some cid)
          × (changes cid ≡ some c)
          × (with_change o changes ≡ some (cid, c)))
unfolding with_change
with_change-cases none changes = inl (refl, λ cid c found e. cc)
with_change-cases (some cid) changes = elim (Option-cases (changes cid)) [
  | inl e ↦
      inl (rw (e, with_change), λ j c found own. ground (arith, e, ap changes {x = cid} {y = j}))
  | inr (c, e) ↦ inr (cid, c, refl, e, rw (e, with_change))
]

all_ready-same :
    (x : ℕ) (t : Task) (tasks : Tasks) (ids : List ℕ)
    → t.status ≡ (tasks x).status
    → all_ready (set_task x t tasks) ids ≡ all_ready tasks ids
all_ready-same x t tasks [] h = refl
all_ready-same x t tasks (id ∷ ids) h =
    ground (arith, all_ready-same x t tasks ids, ap tasks {x = x} {y = id})

-- Storing a task under its id.
module _ (st : Store) (v : Sound st) (id : ℕ) (t : Task)
    (same : t.change ≡ (st.tasks id).change) where
  unlinked-Sound :
      (notes : List Note)
      → ((cid : ℕ) (c : Change) → st.changes cid ≡ some c → (st.tasks id).change ≢ some cid)
      → Sound (record { tasks = set_task id t st.tasks; changes = st.changes; notes = notes })
  unlinked-Sound notes none_of = record {
    linked = λ cid c j found. (
      (λ m. set_task-change id t st.tasks j same ∙ (v.linked cid c j found).0 m),
      λ e. (v.linked cid c j found).1 (sym (set_task-change id t st.tasks j same) ∙ e),
    );
    settled = λ cid c found.
        other-Settled st.tasks t id c (not_contained st id cid c v found (none_of cid c found))
          (v.settled cid c found);
  }

  linked-Sound :
      (fuel now cid : ℕ) (c c' : Change) (told notes : List Note)
      → st.changes cid ≡ some c
      → t.change ≡ some cid
      → task_status_changed fuel now (set_task id t st.tasks) id (st.tasks id).status t.status cid c
        ≡ some (c', told)
      → Sound (record {
        tasks = set_task id t st.tasks;
        changes = set_change cid c' st.changes;
        notes = notes;
      })
  linked-Sound fuel now cid c c' told notes found own h =
      let kept =
        (task_status_changed-keeps fuel now (set_task id t st.tasks) id (st.tasks id).status
          t.status cid c c' told h).0 in
      record {
        linked = λ j d i at. elim (set_change-cases cid c' st.changes j d at) [
          | inl (e, ed) ↦
              let ids : d.task_ids ≡ c.task_ids = ap (λ (x : Change). x.task_ids) ed ∙ kept.0 in
              rw (ids, e, set_task-change id t st.tasks i same) (v.linked cid c i found)
          | inr (ne, old) ↦ rw (set_task-change id t st.tasks i same) (v.linked j d i old)
        ];
        settled = λ j d at. elim (set_change-cases cid c' st.changes j d at) [
          | inl (e, ed) ↦ rw ed (
              own_change-Settled fuel now st.tasks t id cid c c' told (v.settled cid c found)
                ((v.linked cid c id found).1 (sym same ∙ own)) h)
          | inr (ne, old) ↦
              other-Settled st.tasks t id d (not_contained st id j d v old (λ e. ne (cc)))
                (v.settled j d old)
        ];
      }

  store_status-Sound :
      (fuel now : ℕ) (st' : Store)
      → store_status fuel now id t (st.tasks id).status st ≡ some st'
      → Sound st'
  unfolding store_status
  store_status-Sound fuel now st' h =
      let tasks = set_task id t st.tasks in
      let old = (st.tasks id).status in
      let entry = task_changed id old t.status ∷ [] in
      elim (with_change-cases t.change st.changes) [
        | inl (e, none_of) ↦
            let after : Store = record {
              tasks = tasks;
              changes = st.changes;
              notes = st.notes ++ entry;
            } in
            subst Sound {x = after} (ground (arith, e)) (
              unlinked-Sound (st.notes ++ entry)
                (λ cid c found own. none_of cid c found (same ∙ own)))
        | inr (cid, c, own, found, e) ↦
            elim (Option-cases (task_status_changed fuel now tasks id old t.status cid c)) [
              | inl bad ↦ absurd (ground (arith, e, bad))
              | inr ((c', told), good) ↦
                  let notes = (st.notes ++ told) ++ entry in
                  let after : Store = record {
                    tasks = tasks;
                    changes = set_change cid c' st.changes;
                    notes = notes;
                  } in
                  subst Sound {x = after} (ground (arith, e, good))
                    (linked-Sound fuel now cid c c' told notes found own good)
            ]
      ]

-- The task that is stored when its status does not change.
same_status-Sound :
    (st : Store) (id : ℕ) (t : Task)
    → Sound st
    → t.change ≡ (st.tasks id).change
    → t.status ≡ (st.tasks id).status
    → Sound (record st { tasks = set_task id t st.tasks })
same_status-Sound st id t v same status = record {
  linked = λ cid c j found. rw (set_task-change id t st.tasks j same) (v.linked cid c j found);
  settled = λ cid c found d n all.
      v.settled cid c found d n (sym (all_ready-same id t st.tasks c.task_ids status) ∙ all);
}

change_task_status-Sound :
    (fuel now id : ℕ) (t : Task) (new : Status) (st st' : Store)
    → Sound st
    → t.change ≡ (st.tasks id).change
    → t.status ≡ (st.tasks id).status
    → change_task_status fuel now id t new st ≡ some st'
    → Sound st'
unfolding change_task_status
change_task_status-Sound fuel now id t new st st' v same status h =
    elim (Bool-cases (status_eq t.status new)) [
      | inl e ↦
          let after = record st { tasks = set_task id t st.tasks } in
          subst Sound {x = after} (ground (arith, e)) (same_status-Sound st id t v same status)
      | inr e ↦
          store_status-Sound st v id (record t { status = new }) same fuel now st'
            (rw (← status) (ground (arith, e)))
    ]

-- The two outcomes of a request: the store as it was, or a change of status.
request-Sound :
    (fuel now id : ℕ) (t : Task) (new : Status) (panics keeps : Bool) (st st' : Store)
    → Sound st
    → t.change ≡ (st.tasks id).change
    → t.status ≡ (st.tasks id).status
    → (if panics then none else if keeps then some st else change_task_status fuel now id t new st)
      ≡ some st'
    → Sound st'
request-Sound fuel now id t new true keeps st st' v same status h = cc
request-Sound fuel now id t new false true st st' v same status h = subst Sound {x = st} (cc) v
request-Sound fuel now id t new false false st st' v same status h =
    change_task_status-Sound fuel now id t new st st' v same status h

-- `SetStatus` and `SetToWait`, when they do not panic, keep what holds between changes and tasks: each
-- names the other, and a change whose status is that of its tasks is marked ready once all of them
-- are ready.
pub set_status-Sound :
    (fuel now id : ℕ) (new : Status) (st st' : Store)
    → Sound st
    → (set_status fuel now id new st ≡ some st') ⊎ (set_to_wait fuel now id new st ≡ some st')
    → Sound st'
unfolding set_status set_to_wait
set_status-Sound fuel now id new st st' v (inl h) =
    let t = st.tasks id in
    request-Sound fuel now id t new (status_eq new wait)
      (status_eq new done && status_eq t.status abort) st st' v refl refl h
set_status-Sound fuel now id new st st' v (inr h) =
    let t = record (st.tasks id) { waited_status = new } in
    request-Sound fuel now id t wait (is_default new || status_eq new wait)
      (status_eq (st.tasks id).status abort) st st' v refl refl h
