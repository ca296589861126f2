-- ===== src/Runner/Order.antt =====
-- Which tasks a pass of the runner starts (internals/overlord/state/taskrunner.go).
use buildtest.State.Settled.{contains}
use buildtest.Base.{
  Bool, Bool-cases, List, Option-cases, [], ap, arith, false, inl, inr, ltb, not, refl, some, subst,
  true, ℕ, ℕ_discrete, ◌&&◌, ◌==◌, ◌∙◌, ◌∷◌, ◌≡◌, ◌≢◌, ◌≤◌, ◌⊎◌,
}
use buildtest.State.Status.{
  Status, abort, do_, doing, done, error, hold, ready, status_eq, undo, undoing, undone,
}
use buildtest.State.Data.{Tasks, task_status}
use buildtest.State.Store.{Store, set_status}
use buildtest.State.Readiness.{all_ready}
use buildtest.Runner.Standing.{kept_status}
use buildtest.State.Abort.Single.{status_eq-eq}
use buildtest.Runner.Data.{
  Runner, World, all_done, clean_task, is_handled, must_wait, run_in, run_task, start_handler,
  status_of, try_undo,
}
use buildtest.Runner.Ensure.{Pass, consider, consider_idle, revert, try_run, with_world}

-- What is neither to be done or undone nor being done, undone or aborted.
pub data IsOver : Status → Type 0 where
  is_done : IsOver done
  is_undone : IsOver undone
  is_held : IsOver hold
  is_error : IsOver error

ready-IsOver : (s : Status) → ready s ≡ true → IsOver s
ready-IsOver done h = is_done
ready-IsOver undone h = is_undone
ready-IsOver hold h = is_held
ready-IsOver error h = is_error
ready-IsOver s h = cc

all_done-each :
    (tasks : Tasks) (ids : List ℕ)
    → all_done tasks ids ≡ true
    → (j : ℕ) → contains j ids ≡ true
    → task_status tasks j ≡ done
all_done-each tasks [] h j m = absurd (ground (arith, m))
all_done-each tasks (i ∷ ids) h j m = elim (ℕ_discrete i j) [
  | yes e ↦
      ap (task_status tasks) {x = j} {y = i} (ground arith)
      ∙ status_eq-eq (task_status tasks i) done (ground (arith, h))
  | no ne ↦ all_done-each tasks ids (ground (arith, h)) j (ground (arith, m))
]

all_ready-each :
    (tasks : Tasks) (ids : List ℕ)
    → all_ready tasks ids ≡ true
    → (j : ℕ) → contains j ids ≡ true
    → IsOver (task_status tasks j)
all_ready-each tasks [] h j m = absurd (ground (arith, m))
all_ready-each tasks (i ∷ ids) h j m = elim (ℕ_discrete i j) [
  | yes e ↦
      subst (λ x. IsOver (task_status tasks x)) {x = i} {y = j} e
        (ready-IsOver (task_status tasks i) (ground (arith, h)))
  | no ne ↦ all_ready-each tasks ids (ground (arith, h)) j (ground (arith, m))
]

-- When the handler of a task may be started, apart from the code: all that it waits for is done, or,
-- for an undo, all that waits for it is done, undone, on hold or in error; or it was started before.
pub data MayStart (w : World) (id : ℕ) : Type 0 where
  to_do :
      status_of w id ≡ do_
      → ((j : ℕ) → contains j (w.store.tasks id).wait_tasks ≡ true → status_of w j ≡ done)
      → MayStart w id
  to_undo :
      status_of w id ≡ undo
      → ((j : ℕ) → contains j (w.store.tasks id).halt_tasks ≡ true → IsOver (status_of w j))
      → MayStart w id
  once_more : (status_of w id ≡ doing) ⊎ (status_of w id ≡ undoing) → MayStart w id

abbrev pub IsStarted : World → ℕ → Type 0
IsStarted w id =
    ((status_of w id ≡ doing) ⊎ (status_of w id ≡ undoing)) × (is_handled w.runner id ≡ true)

start_handler-lem :
    (b : Bool) (id : ℕ) (st : Store) (r : Runner) (w : World)
    → start_handler b id st r ≡ some w
    → (w.store ≡ st) × (is_handled w.runner id ≡ true)
start_handler-lem b id st r w h = ground (arith, h)

run_in-IsStarted :
    (s : Status) (fuel now id : ℕ) (w w' : World)
    → status_of w id ≡ s
    → run_in s fuel now id w ≡ some w'
    → IsStarted w' id
unfolding run_in
run_in-IsStarted do_ fuel now id w w' h k =
    elim (Option-cases (set_status fuel now id doing w.store)) [
      | inl e ↦ absurd (ground (arith, e, k))
      | inr (st, e) ↦
          let kept = kept_status fuel now id doing w.store st refl e in
          let begun =
            start_handler-lem (w.runner.has_do id) id st w.runner w' (ground (arith, e, k)) in
          (inl (ground (arith, begun, kept)), begun.1)
    ]
run_in-IsStarted undo fuel now id w w' h k =
    elim (Option-cases (set_status fuel now id undoing w.store)) [
      | inl e ↦ absurd (ground (arith, e, k))
      | inr (st, e) ↦
          let kept = kept_status fuel now id undoing w.store st refl e in
          let begun =
            start_handler-lem (w.runner.has_undo id) id st w.runner w' (ground (arith, e, k)) in
          (inr (ground (arith, begun, kept)), begun.1)
    ]
run_in-IsStarted doing fuel now id w w' h k =
    let begun = start_handler-lem (w.runner.has_do id) id w.store w.runner w' k in
    (inl (ap (λ st. task_status st.tasks id) begun.0 ∙ h), begun.1)
run_in-IsStarted undoing fuel now id w w' h k =
    let begun = start_handler-lem (w.runner.has_undo id) id w.store w.runner w' k in
    (inr (ap (λ st. task_status st.tasks id) begun.0 ∙ h), begun.1)
run_in-IsStarted s fuel now id w w' h k = cc

run_in-MayStart :
    (s : Status) (fuel now id : ℕ) (w w' : World)
    → status_of w id ≡ s
    → must_wait w.store.tasks id ≡ false
    → run_in s fuel now id w ≡ some w'
    → MayStart w id
unfolding run_in
run_in-MayStart do_ fuel now id w w' h m k =
    to_do h (all_done-each w.store.tasks (w.store.tasks id).wait_tasks (ground (arith, h, m)))
run_in-MayStart undo fuel now id w w' h m k =
    to_undo h (all_ready-each w.store.tasks (w.store.tasks id).halt_tasks (ground (arith, h, m)))
run_in-MayStart doing fuel now id w w' h m k = once_more (inl h)
run_in-MayStart undoing fuel now id w w' h m k = once_more (inr h)
run_in-MayStart s fuel now id w w' h m k = cc

-- What holds when a pass starts a task.
pub record Starts (now id : ℕ) (w : World) (running : List ℕ) (w' : World) : Type 0 where
  pub may_start : MayStart w id
  pub due : w.runner.at_time id ≤ now
  pub not_blocked : w.runner.blocked id running ≡ false
  pub started : IsStarted w' id

try_run-Starts :
    (fuel now id : ℕ) (p p' : Pass)
    → must_wait p.world.store.tasks id ≡ false
    → try_run fuel now id p ≡ some p'
    → p'.running ≢ p.running
    → Starts now id p.world p.running p'.world
unfolding try_run run_task
try_run-Starts fuel now id p p' m h k =
    let r = p.world.runner in
    let s = status_of p.world id in
    elim (Bool-cases (not (r.at_time id == 0) && ltb now (r.at_time id))) [
      | inl e ↦ absurd (ground (arith, e, h, k))
      | inr e ↦ elim (Bool-cases (r.blocked id p.running)) [
        | inl e' ↦ absurd (ground (arith, e, e', h, k))
        | inr e' ↦ elim (Option-cases (run_in s fuel now id p.world)) [
          | inl e'' ↦ absurd (ground (arith, e, e', e'', h))
          | inr (w', e'') ↦
              let same : w' ≡ p'.world = ground (arith, e, e', e'', h) in
              record {
                may_start = run_in-MayStart s fuel now id p.world w' refl m e'';
                due = ground (arith, e);
                not_blocked = e';
                started =
                    subst (λ w. IsStarted w id) same
                      (run_in-IsStarted s fuel now id p.world w' refl e'');
              }
        ]
      ]
    ]

consider_idle-Starts :
    (fuel now id : ℕ) (p p' : Pass)
    → consider_idle fuel now id p ≡ some p'
    → p'.running ≢ p.running
    → Starts now id p.world p.running p'.world
unfolding consider_idle revert
consider_idle-Starts fuel now id p p' h k =
    let w = p.world in
    let s = status_of w id in
    let only_cleans = clean_task id w in
    let reverts = set_status fuel now id done w.store in
    elim (Bool-cases (ready s)) [
      | inl e ↦ elim (Option-cases only_cleans) [
        | inl e' ↦ absurd (ground (arith, e, e', h, k))
        | inr (w', e') ↦ absurd (ground (arith, e, e', h, k))
      ]
      | inr e ↦ elim (Bool-cases (must_wait w.store.tasks id)) [
        | inl m ↦ absurd (ground (arith, e, m, h, k))
        | inr m ↦ elim (Bool-cases (status_eq s undo && not (w.runner.has_undo id))) [
          | inl u ↦ elim (Option-cases reverts) [
            | inl e' ↦ absurd (ground (arith, e, m, u, e', h, k))
            | inr (st, e') ↦ absurd (ground (arith, e, m, u, e', h, k))
          ]
          | inr u ↦ try_run-Starts fuel now id p p' m (ground (arith, e, m, u, h, k)) k
        ]
      ]
    ]

-- When a pass starts a task, the task was not being handled, has a handler, is due and is not
-- blocked by those that run; if it is to be done, all that it waits for is done, if it is to be
-- undone, all that waits for it is done, undone, on hold or in error, and else it is being done or
-- undone already, which is resumed without such a condition; and it is then being done or undone
-- and handled. If it was to be aborted, this holds after tryUndo.
pub consider-Starts :
    (fuel now id : ℕ) (p p' : Pass)
    → consider fuel now id p ≡ some p'
    → p'.running ≢ p.running
    → (w : World) × ((w ≡ p.world)
        ⊎ ((status_of p.world id ≡ abort) × (try_undo fuel now id p.world ≡ some w)))
      × (p.world.runner.has_do id ≡ true)
      × (is_handled p.world.runner id ≡ false)
      × Starts now id w p.running p'.world
unfolding consider
consider-Starts fuel now id p p' h k =
    let w = p.world in
    elim (Bool-cases (w.runner.has_do id)) [
      | inr e ↦ absurd (ground (arith, e, h, k))
      | inl e ↦ elim (Bool-cases (is_handled w.runner id)) [
        | inl e' ↦ absurd (ground (arith, e, e', h, k))
        | inr e' ↦ elim (Bool-cases (status_eq (status_of w id) abort)) [
          | inr a ↦ (
            w,
            inl refl,
            e,
            e',
            consider_idle-Starts fuel now id p p' (ground (arith, e, e', a, h)) k,
          )
          | inl a ↦ elim (Option-cases (try_undo fuel now id w)) [
            | inl t ↦ absurd (ground (arith, e, e', a, t, h))
            | inr (w₁, t) ↦ (
              w₁,
              inr (status_eq-eq (status_of w id) abort a, t),
              e,
              e',
              consider_idle-Starts fuel now id (with_world p w₁) p' (ground (arith, e, e', a, t, h))
                  k,
            )
          ]
        ]
      ]
    ]
