-- ===== src/State/Abort/Single.antt =====
-- What an abort does to a single task (internals/overlord/state/change.go).
use buildtest.Base.{
  ==_iff, Bool-cases, Option-cases, [], ap, arith, false, get_or, inl, inr, none, refl, some, subst,
  sym, true, ℕ, ◌&&◌, ◌∙◌, ◌∷◌, ◌≡◌, ◌≢◌, ◌⊎◌,
}
use buildtest.State.Status.{
  Status, abort, code, default, do_, doing, done, error, hold, status_eq, undo, undoing, undone,
  wait,
}
use buildtest.State.Data.{Task, effective_status}
use buildtest.State.Store.{
  Store, change_task_status, set_status, set_task, set_to_wait, store_status, task_status_changed,
  with_change,
}
use buildtest.State.Abort.{abort_status, abort_task, is_live, live_status}

of_code : ℕ → Status
of_code n =
    get_or
      (default ∷ hold ∷ do_ ∷ doing ∷ done ∷ abort ∷ undo ∷ undoing ∷ undone ∷ error ∷ wait ∷ []) n
      default

of_code-code : (s : Status) → of_code (code s) ≡ s
unfolding of_code
of_code-code default = refl
of_code-code hold = refl
of_code-code do_ = refl
of_code-code doing = refl
of_code-code done = refl
of_code-code abort = refl
of_code-code undo = refl
of_code-code undoing = refl
of_code-code undone = refl
of_code-code error = refl
of_code-code wait = refl

pub status_eq-eq : (a b : Status) → status_eq a b ≡ true → a ≡ b
status_eq-eq a b h =
    sym (of_code-code a) ∙ ap of_code ((==_iff (code a) (code b)).0 h) ∙ of_code-code b

store_status-tasks :
    (fuel now id : ℕ) (t : Task) (old : Status) (st st' : Store)
    → store_status fuel now id t old st ≡ some st'
    → (j : ℕ) → st'.tasks j ≡ set_task id t st.tasks j
unfolding store_status
store_status-tasks fuel now id t old st st' h j =
    elim (Option-cases (with_change t.change st.changes)) [
      | inl e ↦ ground (arith, e)
      | inr ((cid, c), e) ↦
          elim (Option-cases
            (task_status_changed fuel now (set_task id t st.tasks) id old t.status cid c)) [
              | inl e' ↦ ground (arith, e, e')
              | inr (r, e') ↦ ground (arith, e, e')
            ]
    ]

change_task_status-tasks :
    (fuel now id : ℕ) (t : Task) (new : Status) (st st' : Store)
    → change_task_status fuel now id t new st ≡ some st'
    → (j : ℕ) → st'.tasks j ≡ set_task id (record t { status = new }) st.tasks j
unfolding change_task_status
change_task_status-tasks fuel now id t new st st' h j = elim (Bool-cases (status_eq t.status new)) [
  | inl e ↦ rw (← status_eq-eq t.status new e) (ground (arith, e))
  | inr e ↦
      store_status-tasks fuel now id (record t { status = new }) t.status st st' (ground (arith, e))
        j
]

-- A status that `SetStatus` does not ignore.
pub set_status-tasks :
    (fuel now id : ℕ) (new : Status) (st st' : Store)
    → status_eq new done && status_eq (st.tasks id).status abort ≡ false
    → set_status fuel now id new st ≡ some st'
    → (j : ℕ) → st'.tasks j ≡ set_task id (record (st.tasks id) { status = new }) st.tasks j
unfolding set_status
set_status-tasks fuel now id new st st' h k j =
    change_task_status-tasks fuel now id (st.tasks id) new st st' (ground (arith, h, k)) j

pub set_to_wait-tasks :
    (fuel now id : ℕ) (later : Status) (st st' : Store)
    → (st.tasks id).status ≢ abort
    → set_to_wait fuel now id later st ≡ some st'
    → (j : ℕ)
    → st'.tasks j
      ≡ set_task id (record (st.tasks id) { status = wait; waited_status = later }) st.tasks j
unfolding set_to_wait
set_to_wait-tasks fuel now id later st st' h k j =
    let other : status_eq (st.tasks id).status abort ≡ false = ground (arith, h) in
    change_task_status-tasks fuel now id (record (st.tasks id) { waited_status = later }) wait st
      st' (ground (arith, other, k)) j

-- The task that an abort leaves.
abbrev pub aborted_task : Task → Task
aborted_task t = elim (abort_status (effective_status t)) [
  | none ↦ t
  | some s ↦ record t { status = s }
]

live_status-abort_status :
    (s : Status) → (live_status s ≡ false) ⊎ ((n : Status) × (abort_status s ≡ some n))
live_status-abort_status do_ = inr (hold, refl)
live_status-abort_status doing = inr (abort, refl)
live_status-abort_status done = inr (undo, refl)
live_status-abort_status s = inl refl

-- What an abort is to make of a task: one that is pending is held, one that is running is aborted, one
-- that is done is undone, and any other is left as it is.
pub data IsAborted (t : Task) : Task → Type 0 where
  was_pending : effective_status t ≡ do_ → IsAborted t (record t { status = hold })
  was_running : effective_status t ≡ doing → IsAborted t (record t { status = abort })
  was_done : effective_status t ≡ done → IsAborted t (record t { status = undo })
  was_neither :
      effective_status t ≢ do_
      → effective_status t ≢ doing
      → effective_status t ≢ done
      → IsAborted t t

abort_status-IsAborted :
    (t t' : Task) (s : Status)
    → effective_status t ≡ s
    → t' ≡ elim (abort_status s) [ none ↦ t | some n ↦ record t { status = n } ]
    → IsAborted t t'
abort_status-IsAborted t t' do_ e h = subst (IsAborted t) (sym h) (was_pending e)
abort_status-IsAborted t t' doing e h = subst (IsAborted t) (sym h) (was_running e)
abort_status-IsAborted t t' done e h = subst (IsAborted t) (sym h) (was_done e)
abort_status-IsAborted t t' s e h =
    subst (IsAborted t) (sym h) (was_neither (λ k. cc) (λ k. cc) (λ k. cc))

pub aborted_task-IsAborted : (t : Task) → IsAborted t (aborted_task t)
aborted_task-IsAborted t = abort_status-IsAborted t (aborted_task t) (effective_status t) refl refl

pub dead-IsAborted :
    (t t' : Task) → is_live t' ≡ false → (t' ≡ t) ⊎ (t' ≡ aborted_task t) → IsAborted t t'
dead-IsAborted t t' h (inl e) =
    let d : is_live t ≡ false = ap is_live (sym e) ∙ h in
    subst (IsAborted t) (sym e) (
      was_neither (λ k. cc (ap live_status k, d)) (λ k. cc (ap live_status k, d))
        (λ k. cc (ap live_status k, d)))
dead-IsAborted t t' h (inr e) = subst (IsAborted t) (sym e) (aborted_task-IsAborted t)

pub aborted_task-dead : (t : Task) → is_live (aborted_task t) ≡ false
aborted_task-dead t = ground arith

mild :
    (x s : Status)
    → abort_status x ≡ some s
    → (status_eq s wait ≡ false) × (status_eq s done ≡ false)
mild x s h = ground arith

pub abort_task-tasks :
    (fuel now id : ℕ) (st st' : Store)
    → abort_task fuel now id st ≡ some st'
    → (j : ℕ) → st'.tasks j ≡ set_task id (aborted_task (st.tasks id)) st.tasks j
unfolding abort_task set_status
abort_task-tasks fuel now id st st' h j =
    let t = st.tasks id in
    elim (Option-cases (abort_status (effective_status t))) [
      | inl e ↦ ground (arith, e, ap st.tasks {x = id} {y = j})
      | inr (s, e) ↦
          let (no_wait, no_done) = mild (effective_status t) s e in
          let changed : change_task_status fuel now id t s st ≡ some st' =
            ground (arith, e, no_wait, no_done) in
          change_task_status-tasks fuel now id t s st st' changed j ∙ ground (arith, e)
    ]
