-- ===== src/Runner/Failing.antt =====
-- What the failure of a handler does to its task (internals/overlord/state/taskrunner.go).
use buildtest.Base.{List, Option-cases, [], ap, arith, inl, inr, refl, some, ℕ, ◌∙◌, ◌∷◌, ◌≡◌, ◌⊎◌}
use buildtest.State.Data.{Change, Tasks, lanes_of}
use buildtest.State.Store.{>>=-eq-some, Store, set_status, with_change, ◌>>=◌}
use buildtest.State.Status.{error}
use buildtest.State.Abort.{Outcome, abort_lanes, ends, no_marks, out_of_fuel, panicked}
use buildtest.Runner.Data.{
  Runner, World, is_handled, is_some, kill_aborted, runner_abort_lanes, status_of,
}
use buildtest.Runner.Finish.{fail_task}
use buildtest.Runner.Standing.{kept_status}

kill_aborted-handled :
    (tasks : Tasks) (ids : List ℕ) (r : Runner) (j : ℕ)
    → is_handled (kill_aborted tasks ids r) j ≡ is_handled r j
kill_aborted-handled tasks [] r j = refl
kill_aborted-handled tasks (id ∷ ids) r j =
    let r' = kill_aborted tasks ids r in
    ground
      (arith, kill_aborted-handled tasks ids r j, ap (λ x. is_some (r'.tombs x)) {x = id} {y = j})

pub Outcome-cases :
    (o : Outcome) → (o ≡ out_of_fuel) ⊎ ((o ≡ panicked) ⊎ ((st : Store) × (o ≡ ends st)))
Outcome-cases out_of_fuel = inl refl
Outcome-cases panicked = inr (inl refl)
Outcome-cases (ends st) = inr (inr (st, refl))

runner_abort_lanes-handled :
    (n f fuel now : ℕ) (c : Change) (lanes : List ℕ) (w w' : World) (j : ℕ)
    → runner_abort_lanes n f fuel now c lanes w ≡ some w'
    → is_handled w'.runner j ≡ is_handled w.runner j
unfolding runner_abort_lanes
runner_abort_lanes-handled n f fuel now c lanes w w' j h =
    elim (Outcome-cases (abort_lanes n f fuel now c.task_ids no_marks lanes no_marks w.store)) [
      | inl e ↦ absurd (ground (arith, e, h))
      | inr (inl e) ↦ absurd (ground (arith, e, h))
      | inr (inr (st, e)) ↦
          ground (arith, e, h, kill_aborted-handled st.tasks c.task_ids w.runner j)
    ]

failed-status :
    (fuel now id : ℕ) (w w' : World)
    → (set_status fuel now id error w.store >>= λ st. some (record w { store = st })) ≡ some w'
    → (status_of w' id ≡ error) × (w'.runner ≡ w.runner)
failed-status fuel now id w w' h = elim (Option-cases (set_status fuel now id error w.store)) [
  | inl e ↦ absurd (ground (arith, e, h))
  | inr (st, e) ↦ ground (arith, e, h, kept_status fuel now id error w.store st refl e)
]

pub fail-status :
    (n f fuel now id : ℕ) (w w' : World)
    → fail_task n f fuel now id w ≡ some w'
    → (status_of w' id ≡ error) × (is_handled w'.runner id ≡ is_handled w.runner id)
unfolding fail_task
fail-status n f fuel now id w w' h =
    let lanes = lanes_of (w.store.tasks id).lanes in
    let (cid_c, e, h₁) = >>=-eq-some (with_change (w.store.tasks id).change w.store.changes) _ h in
    let (w₁, e₁, h₂) = >>=-eq-some (runner_abort_lanes n f fuel now cid_c.1 lanes w) _ h₁ in
    let (st, same) = failed-status fuel now id w₁ w' h₂ in
    (
      st,
      ap (λ r. is_handled r id) same
          ∙ runner_abort_lanes-handled n f fuel now cid_c.1 lanes w w₁ id e₁,
    )
