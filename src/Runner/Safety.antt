-- ===== src/Runner/Safety.antt =====
-- What a handler's return and a start keep of what holds between changes and tasks
-- (internals/overlord/state/taskrunner.go).
use buildtest.Runner.Failing.{Outcome-cases}
use buildtest.State.Abort.Preserved.{abort-keeps}
use buildtest.State.Abort.{abort_lanes, no_marks}
use buildtest.Runner.Outcome.{after}
use buildtest.State.Data.{Change, lanes_of}
use buildtest.Base.{
  Bool-cases, List, Option, Option-cases, arith, if◌then◌else◌, inl, inr, none, not, some, subst,
  sym, ℕ, ◌&&◌, ◌≡◌,
}
use buildtest.State.Status.{
  Status, abort, do_, doing, done, error, hold, status_eq, undo, undoing, undone,
}
use buildtest.State.Aggregate.{is_default, is_nil}
use buildtest.State.Store.{>>=-eq-some, Store, set_status, set_to_wait, with_change, ◌>>=◌}
use buildtest.State.Settled.{Sound}
use buildtest.State.Sound.{set_status-Sound}
use buildtest.Runner.Data.{
  World, ask, ask_if, run_in, runner_abort_lanes, status_of, try_undo, update,
}
use buildtest.Runner.Finish.{
  Result, adjusted, fail_task, failed, finish, retry, retry_task, settle, succeed_in, succeeded,
  wait_task, waits_for,
}

-- A step that sets a status and then does something that keeps the property.
pub then-Sound {ℓ} :
    {A : Type ℓ} (fuel now id : ℕ) (new : Status) (st : Store) (f : Store → Option A) (a : A)
    (out : A → Store)
    → Sound st
    → ((st' : Store) → f st' ≡ some a → out a ≡ st')
    → (set_status fuel now id new st >>= f) ≡ some a
    → Sound (out a)
then-Sound fuel now id new st f a out v same h =
    let (st', e, h') = >>=-eq-some (set_status fuel now id new st) f h in
    subst Sound (sym (same st' h')) (set_status-Sound fuel now id new st st' v (inl e))

abbrev pub SoundWorld : World → Type 0
SoundWorld w = Sound w.store

pub run_in-Sound :
    (s : Status) (fuel now id : ℕ) (w w' : World)
    → SoundWorld w
    → run_in s fuel now id w ≡ some w'
    → SoundWorld w'
unfolding run_in
run_in-Sound do_ fuel now id w w' v h =
    then-Sound fuel now id doing w.store _ w' (λ x. x.store) v (λ st e. ground (arith, e)) h
run_in-Sound undo fuel now id w w' v h =
    then-Sound fuel now id undoing w.store _ w' (λ x. x.store) v (λ st e. ground (arith, e)) h
run_in-Sound doing fuel now id w w' v h =
    subst Sound {x = w.store} {y = w'.store} (ground (arith, h)) v
run_in-Sound undoing fuel now id w w' v h =
    subst Sound {x = w.store} {y = w'.store} (ground (arith, h)) v
run_in-Sound s fuel now id w w' v h = cc

pub try_undo-Sound :
    (fuel now id : ℕ) (w w' : World)
    → SoundWorld w
    → try_undo fuel now id w ≡ some w'
    → SoundWorld w'
unfolding try_undo
try_undo-Sound fuel now id w w' v h =
    elim (Bool-cases (status_eq (status_of w id) abort && not (w.runner.has_undo id))) [
      | inl e ↦
          then-Sound fuel now id hold w.store
            (λ st. some (record {
              store = st;
              runner = ask_if (not (is_nil (st.tasks id).wait_tasks)) w.runner;
            }))
            w' (λ x. x.store) v (λ st e'. ground (arith, e')) (ground (arith, e, h))
      | inr e ↦
          then-Sound fuel now id undo w.store
            (λ st. some (record { store = st; runner = ask 0 w.runner })) w' (λ x. x.store) v
            (λ st e'. ground (arith, e')) (ground (arith, e, h))
    ]

succeed-Sound :
    (s : Status) (fuel now id : ℕ) (w w' : World)
    → SoundWorld w
    → succeed_in s fuel now id w ≡ some w'
    → SoundWorld w'
unfolding succeed_in
succeed-Sound doing fuel now id w w' v h =
    then-Sound fuel now id done w.store _ w' (λ x. x.store) v (λ st e. ground (arith, e)) h
succeed-Sound abort fuel now id w w' v h =
    then-Sound fuel now id undo w.store _ w' (λ x. x.store) v (λ st e. ground (arith, e)) h
succeed-Sound undoing fuel now id w w' v h =
    then-Sound fuel now id undone w.store _ w' (λ x. x.store) v (λ st e. ground (arith, e)) h
succeed-Sound s fuel now id w w' v h =
    subst Sound {x = w.store} {y = w'.store} (ground (arith, h)) v

retry-Sound :
    (fuel now id after : ℕ) (w w' : World)
    → SoundWorld w
    → retry_task fuel now id after w ≡ some w'
    → SoundWorld w'
unfolding retry_task
retry-Sound fuel now id after w w' v h = elim (Bool-cases (status_eq (status_of w id) abort)) [
  | inl e ↦ try_undo-Sound fuel now id w w' v (ground (arith, e, h))
  | inr e ↦ subst Sound {x = w.store} {y = w'.store} (ground (arith, e, h)) v
]

wait-Sound :
    (fuel now id : ℕ) (later : Status) (w w' : World)
    → SoundWorld w
    → wait_task fuel now id later w ≡ some w'
    → SoundWorld w'
unfolding wait_task
wait-Sound fuel now id later w w' v h =
    let later' = if is_default later then done else later in
    elim (Bool-cases (status_eq (status_of w id) abort)) [
      | inl e ↦ try_undo-Sound fuel now id w w' v (ground (arith, e, h))
      | inr e ↦ elim (Option-cases (set_to_wait fuel now id later' w.store)) [
        | inl e' ↦ absurd (ground (arith, e, e', h))
        | inr (st, e') ↦
            subst Sound {x = st} {y = w'.store} (ground (arith, e, e', h))
              (set_status-Sound fuel now id later' w.store st v (inr e'))
      ]
    ]

abort_lanes-Sound :
    (n f fuel now : ℕ) (c : Change) (lanes : List ℕ) (w w' : World)
    → SoundWorld w
    → runner_abort_lanes n f fuel now c lanes w ≡ some w'
    → SoundWorld w'
unfolding runner_abort_lanes
abort_lanes-Sound n f fuel now c lanes w w' v h =
    elim (Outcome-cases (abort_lanes n f fuel now c.task_ids no_marks lanes no_marks w.store)) [
      | inl e ↦ absurd (ground (arith, e, h))
      | inr (inl e) ↦ absurd (ground (arith, e, h))
      | inr (inr (st, e)) ↦
          subst Sound {x = st} {y = w'.store} (ground (arith, e, h))
            (abort-keeps n f fuel now c lanes w.store st v (inr e)).1
    ]

fail-Sound :
    (n f fuel now id : ℕ) (w w' : World)
    → SoundWorld w
    → fail_task n f fuel now id w ≡ some w'
    → SoundWorld w'
unfolding fail_task
fail-Sound n f fuel now id w w' v h =
    let lanes = lanes_of (w.store.tasks id).lanes in
    let (cid_c, e, h₁) = >>=-eq-some (with_change (w.store.tasks id).change w.store.changes) _ h in
    let (w₁, e₁, h₂) = >>=-eq-some (runner_abort_lanes n f fuel now cid_c.1 lanes w) _ h₁ in
    let v₁ = abort_lanes-Sound n f fuel now cid_c.1 lanes w w₁ v e₁ in
    then-Sound fuel now id error w₁.store (λ st. some (record w₁ { store = st })) w' (λ x. x.store)
      v₁ (λ st e'. ground (arith, e')) h₂

settle-Sound :
    (res : Result) (n f fuel now id : ℕ) (w w' : World)
    → SoundWorld w
    → settle res n f fuel now id w ≡ some w'
    → SoundWorld w'
unfolding settle
settle-Sound succeeded n f fuel now id w w' v h =
    succeed-Sound (status_of w id) fuel now id w w' v h
settle-Sound (retry after) n f fuel now id w w' v h = retry-Sound fuel now id after w w' v h
settle-Sound (waits_for later) n f fuel now id w w' v h = wait-Sound fuel now id later w w' v h
settle-Sound failed n f fuel now id w w' v h = fail-Sound n f fuel now id w w' v h

pub finish-Sound :
    (res : Result) (n f fuel now id : ℕ) (w w' : World)
    → SoundWorld w
    → finish res n f fuel now id w ≡ some w'
    → SoundWorld w'
unfolding finish
finish-Sound res n f fuel now id w w' v h =
    let r =
      ask_if w.runner.some_blocked (record w.runner { tombs = update id none w.runner.tombs }) in
    settle-Sound (adjusted w.runner.stopped res) n f fuel now id (record w { runner = r }) w' v h
