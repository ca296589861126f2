-- ===== src/Runner/Outcome.antt =====
-- What a handler's result does to its task (internals/overlord/state/taskrunner.go).
use buildtest.Runner.Standing.{kept_status}
use buildtest.Runner.Failing.{fail-status}
use buildtest.Base.{
  Bool, Bool-cases, Option-cases, ap, arith, false, if◌then◌else◌, inl, inr, none, refl, some, true,
  ℕ, ◌∙◌, ◌≡◌, ◌≢◌,
}
use buildtest.State.Data.{shown}
use buildtest.State.Aggregate.{is_default}
use buildtest.State.Store.{set_status, set_to_wait, ◌>>=◌}
use buildtest.State.Status.{
  Status, abort, default, doing, done, error, hold, undo, undoing, undone, wait,
}
use buildtest.State.Abort.Single.{set_to_wait-tasks}
use buildtest.Runner.Data.{World, ask_if, is_handled, is_some, status_of, try_undo, update}
use buildtest.Runner.Finish.{
  Result, adjusted, failed, finish, retry, retry_task, settle, succeed_in, succeeded, wait_task,
  waits_for,
}

-- The status of a task that was in one of the statuses of a running task, whether it can be undone,
-- and what its handler reported.
abbrev pub after : Result → Bool → Status → Status
after failed b s = error
after succeeded b doing = done
after succeeded b abort = undo
after succeeded b undoing = undone
after succeeded b s = s
after (retry d) b abort = if b then undo else hold
after (retry d) b s = s
after (waits_for later) b abort = if b then undo else hold
after (waits_for later) b s = wait

abbrev pub is_running : Status → Bool
is_running doing = true
is_running abort = true
is_running undoing = true
is_running s = false

raw_status : (s : Status) → is_running (shown s) ≡ true → shown s ≡ s
raw_status default h = cc
raw_status _ h = refl

try_undo-status :
    (fuel now id : ℕ) (w w' : World)
    → status_of w id ≡ abort
    → try_undo fuel now id w ≡ some w'
    → (status_of w' id ≡ (if w.runner.has_undo id then undo else hold))
      × (w'.runner.tombs ≡ w.runner.tombs)
unfolding try_undo
try_undo-status fuel now id w w' h k =
    let held = kept_status fuel now id hold w.store in
    let undone = kept_status fuel now id undo w.store in
    elim (Bool-cases (w.runner.has_undo id)) [
      | inl e ↦ elim (Option-cases (set_status fuel now id undo w.store)) [
        | inl e' ↦ absurd (ground (arith, h, e, e', k))
        | inr (st, e') ↦ ground (arith, h, e, e', k, undone st refl e')
      ]
      | inr e ↦ elim (Option-cases (set_status fuel now id hold w.store)) [
        | inl e' ↦ absurd (ground (arith, h, e, e', k))
        | inr (st, e') ↦ ground (arith, h, e, e', k, held st refl e')
      ]
    ]

succeed-status :
    (fuel now id : ℕ) (s : Status) (w w' : World)
    → status_of w id ≡ s
    → is_running s ≡ true
    → succeed_in s fuel now id w ≡ some w'
    → (status_of w' id ≡ after succeeded (w.runner.has_undo id) s)
      × (w'.runner.tombs ≡ w.runner.tombs)
unfolding succeed_in
succeed-status fuel now id doing w w' h r k =
    let raw = raw_status (w.store.tasks id).status (ap is_running h) in
    elim (Option-cases (set_status fuel now id done w.store)) [
      | inl e ↦ absurd (ground (arith, e, k))
      | inr (st, e) ↦
          let kept = kept_status fuel now id done w.store st (ground (arith, raw, h)) e in
          ground (arith, e, k, kept)
    ]
succeed-status fuel now id abort w w' h r k =
    elim (Option-cases (set_status fuel now id undo w.store)) [
      | inl e ↦ absurd (ground (arith, e, k))
      | inr (st, e) ↦ ground (arith, e, k, kept_status fuel now id undo w.store st refl e)
    ]
succeed-status fuel now id undoing w w' h r k =
    elim (Option-cases (set_status fuel now id undone w.store)) [
      | inl e ↦ absurd (ground (arith, e, k))
      | inr (st, e) ↦ ground (arith, e, k, kept_status fuel now id undone w.store st refl e)
    ]
succeed-status fuel now id s w w' h r k = cc

retry-status :
    (fuel now id d : ℕ) (s : Status) (w w' : World)
    → status_of w id ≡ s
    → is_running s ≡ true
    → retry_task fuel now id d w ≡ some w'
    → (status_of w' id ≡ after (retry d) (w.runner.has_undo id) s)
      × (w'.runner.tombs ≡ w.runner.tombs)
unfolding retry_task
retry-status fuel now id d abort w w' h r k =
    let undone = try_undo-status fuel now id w w' h (ground (arith, h, k)) in ground (arith, undone)
retry-status fuel now id d doing w w' h r k = ground (arith, h, k)
retry-status fuel now id d undoing w w' h r k = ground (arith, h, k)
retry-status fuel now id d s w w' h r k = cc

waiting-status :
    (fuel now id : ℕ) (later : Status) (w w' : World)
    → (w.store.tasks id).status ≢ abort
    → (set_to_wait fuel now id (if is_default later then done else later) w.store >>= λ st.
        some (record w { store = st }))
      ≡ some w'
    → (status_of w' id ≡ wait) × (w'.runner.tombs ≡ w.runner.tombs)
waiting-status fuel now id later w w' h k =
    let later' = if is_default later then done else later in
    elim (Option-cases (set_to_wait fuel now id later' w.store)) [
      | inl e ↦ absurd (ground (arith, e, k))
      | inr (st, e) ↦
          let moved = set_to_wait-tasks fuel now id later' w.store st h e id in
          ground (arith, e, k, moved)
    ]

wait-status :
    (fuel now id : ℕ) (later s : Status) (w w' : World)
    → status_of w id ≡ s
    → is_running s ≡ true
    → wait_task fuel now id later w ≡ some w'
    → (status_of w' id ≡ after (waits_for later) (w.runner.has_undo id) s)
      × (w'.runner.tombs ≡ w.runner.tombs)
unfolding wait_task
wait-status fuel now id later abort w w' h r k =
    let undone = try_undo-status fuel now id w w' h (ground (arith, h, k)) in ground (arith, undone)
wait-status fuel now id later doing w w' h r k =
    let raw = raw_status (w.store.tasks id).status (ap is_running h) in
    waiting-status fuel now id later w w' (λ e. ground (arith, h, e)) (ground (arith, h, k))
wait-status fuel now id later undoing w w' h r k =
    waiting-status fuel now id later w w' (λ e. ground (arith, h, e)) (ground (arith, h, k))
wait-status fuel now id later s w w' h r k = cc

settle-status :
    (res : Result) (n f fuel now id : ℕ) (w w' : World)
    → is_running (status_of w id) ≡ true
    → settle res n f fuel now id w ≡ some w'
    → (status_of w' id ≡ after res (w.runner.has_undo id) (status_of w id))
      × (is_handled w'.runner id ≡ is_handled w.runner id)
unfolding settle
settle-status succeeded n f fuel now id w w' h k =
    let (s, t) = succeed-status fuel now id (status_of w id) w w' refl h k in
    (s, ap (λ tombs. is_some (tombs id)) t)
settle-status (retry d) n f fuel now id w w' h k =
    let (s, t) = retry-status fuel now id d (status_of w id) w w' refl h k in
    (s, ap (λ tombs. is_some (tombs id)) t)
settle-status (waits_for later) n f fuel now id w w' h k =
    let (s, t) = wait-status fuel now id later (status_of w id) w w' refl h k in
    (s, ap (λ tombs. is_some (tombs id)) t)
settle-status failed n f fuel now id w w' h k = fail-status n f fuel now id w w' k

-- The status that a task has after its handler, apart from the code.
abbrev pub expected : Bool → Result → Bool → Status → Status
expected true failed has_undo abort = if has_undo then undo else hold
expected true failed has_undo s = s
expected stopped res has_undo s = after res has_undo s

adjusted-expected :
    (stopped : Bool) (res : Result) (has_undo : Bool) (s : Status)
    → is_running s ≡ true
    → after (adjusted stopped res) has_undo s ≡ expected stopped res has_undo s
adjusted-expected false res has_undo s h = refl
adjusted-expected true (retry d) has_undo s h = refl
adjusted-expected true failed has_undo abort h = refl
adjusted-expected true failed has_undo doing h = refl
adjusted-expected true failed has_undo undoing h = refl
adjusted-expected true res has_undo s h = cc

-- When a handler returns, of a task that is being done, aborted or undone, and there is no panic,
-- the task has no handler any more and is in the status that the result and, for an abort, the
-- presence of an undo handler say. While the runner is being stopped, an error leaves the status
-- of a task that is being done or undone, and one that is to be aborted is to be undone if it has
-- an undo handler, and else on hold.
pub finish_lem :
    (res : Result) (n f fuel now id : ℕ) (w w' : World)
    → is_running (status_of w id) ≡ true
    → finish res n f fuel now id w ≡ some w'
    → (status_of w' id ≡ expected w.runner.stopped res (w.runner.has_undo id) (status_of w id))
      × (is_handled w'.runner id ≡ false)
unfolding finish
finish_lem res n f fuel now id w w' h k =
    let r =
      ask_if w.runner.some_blocked (record w.runner { tombs = update id none w.runner.tombs }) in
    let w₀ : World = record w { runner = r } in
    let undo_kept : r.has_undo ≡ w.runner.has_undo = ground arith in
    let idle : is_handled r id ≡ false = ground arith in
    let settled = settle-status (adjusted w.runner.stopped res) n f fuel now id w₀ w' h k in
    (
      settled.0
          ∙ rw (undo_kept) refl
          ∙ adjusted-expected w.runner.stopped res (w.runner.has_undo id) (status_of w id) h,
      settled.1 ∙ idle,
    )
