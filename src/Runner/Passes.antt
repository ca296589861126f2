-- ===== src/Runner/Passes.antt =====
-- A pass of the runner keeps what holds between changes and tasks
-- (internals/overlord/state/taskrunner.go).
use buildtest.Base.{
  Bool-cases, List, Option, Option-cases, [], arith, inl, inr, ltb, not, some, subst, ℕ, ◌&&◌, ◌==◌,
  ◌∷◌, ◌≡◌,
}
use buildtest.State.Status.{abort, done, ready, status_eq, undo, wait}
use buildtest.State.Store.{>>=-eq-some, ◌>>=◌}
use buildtest.State.Settled.{Sound}
use buildtest.Runner.Data.{
  World, clean_task, is_handled, must_wait, run_in, run_task, status_of, try_undo,
}
use buildtest.Runner.Finish.{Result, finish}
use buildtest.Runner.Ensure.{
  Pass, consider, consider_all, consider_idle, ensure, first_pass, revert, try_run, with_world,
}
use buildtest.Runner.Safety.{SoundWorld, finish-Sound, run_in-Sound, then-Sound, try_undo-Sound}

clean_task-store : (id : ℕ) (w w' : World) → clean_task id w ≡ some w' → w'.store ≡ w.store
unfolding clean_task
clean_task-store id w w' h = ground (arith, h)

try_run-Sound :
    (fuel now id : ℕ) (p p' : Pass)
    → SoundWorld p.world
    → try_run fuel now id p ≡ some p'
    → SoundWorld p'.world
unfolding try_run run_task
try_run-Sound fuel now id p p' v h =
    let w = p.world in
    let r = w.runner in
    elim (Bool-cases (not (r.at_time id == 0) && ltb now (r.at_time id))) [
      | inl e ↦ subst Sound {x = w.store} {y = p'.world.store} (ground (arith, e, h)) v
      | inr e ↦ elim (Bool-cases (r.blocked id p.running)) [
        | inl e' ↦ subst Sound {x = w.store} {y = p'.world.store} (ground (arith, e, e', h)) v
        | inr e' ↦ elim (Option-cases (run_in (status_of w id) fuel now id w)) [
          | inl e'' ↦ absurd (ground (arith, e, e', e'', h))
          | inr (w', e'') ↦
              subst SoundWorld {x = w'} {y = p'.world} (ground (arith, e, e', e'', h))
                (run_in-Sound (status_of w id) fuel now id w w' v e'')
        ]
      ]
    ]

revert-Sound :
    (fuel now id : ℕ) (p p' : Pass)
    → SoundWorld p.world
    → revert fuel now id p ≡ some p'
    → SoundWorld p'.world
unfolding revert
revert-Sound fuel now id p p' v h =
    then-Sound fuel now id done p.world.store _ p' (λ x. x.world.store) v
      (λ st e. ground (arith, e)) h

consider_idle-Sound :
    (fuel now id : ℕ) (p p' : Pass)
    → SoundWorld p.world
    → consider_idle fuel now id p ≡ some p'
    → SoundWorld p'.world
unfolding consider_idle
consider_idle-Sound fuel now id p p' v h =
    let w = p.world in
    let s = status_of w id in
    let same : w.store ≡ p'.world.store → SoundWorld p'.world = λ e. subst Sound e v in
    elim (Bool-cases (ready s)) [
      | inl e ↦ elim (Bool-cases (w.runner.clean id)) [
        | inl c ↦ same (ground (arith, e, c, h))
        | inr c ↦ elim (Option-cases (clean_task id w)) [
          | inl t ↦ absurd (ground (arith, e, c, t, h))
          | inr (w', t) ↦ same (ground (arith, e, c, t, h, clean_task-store id w w' t))
        ]
      ]
      | inr e ↦ elim (Bool-cases (status_eq s wait)) [
        | inl a ↦ same (ground (arith, e, a, h))
        | inr a ↦ elim (Bool-cases (must_wait w.store.tasks id)) [
          | inl m ↦ same (ground (arith, e, a, m, h))
          | inr m ↦ elim (Bool-cases (status_eq s undo && not (w.runner.has_undo id))) [
            | inl u ↦ revert-Sound fuel now id p p' v (ground (arith, e, a, m, u, h))
            | inr u ↦ try_run-Sound fuel now id p p' v (ground (arith, e, a, m, u, h))
          ]
        ]
      ]
    ]

consider-Sound :
    (fuel now id : ℕ) (p p' : Pass)
    → SoundWorld p.world
    → consider fuel now id p ≡ some p'
    → SoundWorld p'.world
unfolding consider
consider-Sound fuel now id p p' v h =
    let w = p.world in
    let same : w.store ≡ p'.world.store → SoundWorld p'.world = λ e. subst Sound e v in
    elim (Bool-cases (w.runner.has_do id)) [
      | inr e ↦ same (ground (arith, e, h))
      | inl e ↦ elim (Bool-cases (is_handled w.runner id)) [
        | inl e' ↦ same (ground (arith, e, e', h))
        | inr e' ↦ elim (Bool-cases (status_eq (status_of w id) abort)) [
          | inr a ↦ consider_idle-Sound fuel now id p p' v (ground (arith, e, e', a, h))
          | inl a ↦ elim (Option-cases (try_undo fuel now id w)) [
            | inl t ↦ absurd (ground (arith, e, e', a, t, h))
            | inr (w', t) ↦
                consider_idle-Sound fuel now id (with_world p w') p'
                  (try_undo-Sound fuel now id w w' v t) (ground (arith, e, e', a, t, h))
          ]
        ]
      ]
    ]

consider_all-Sound :
    (fuel now : ℕ) (ids : List ℕ) (p p' : Pass)
    → SoundWorld p.world
    → consider_all fuel now ids p ≡ some p'
    → SoundWorld p'.world
unfolding consider_all
consider_all-Sound fuel now [] p p' v h =
    subst SoundWorld {x = p.world} {y = p'.world} (ground (arith, h)) v
consider_all-Sound fuel now (id ∷ ids) p p' v h =
    let (p₁, e, h') = >>=-eq-some (consider fuel now id p) (consider_all fuel now ids) h in
    consider_all-Sound fuel now ids p₁ p' (consider-Sound fuel now id p p₁ v e) h'

ensure-Sound :
    (fuel now : ℕ) (ids : List ℕ) (w w' : World)
    → SoundWorld w
    → ensure fuel now ids w ≡ some w'
    → SoundWorld w'
unfolding ensure
ensure-Sound fuel now ids w w' v h = elim (Bool-cases w.runner.stopped) [
  | inl e ↦ subst SoundWorld {x = w} {y = w'} (ground (arith, e, h)) v
  | inr e ↦ elim (Option-cases (consider_all fuel now ids (first_pass ids w))) [
    | inl c ↦ absurd (ground (arith, e, c, h))
    | inr (p, c) ↦
        subst Sound {x = p.world.store} {y = w'.store} (ground (arith, e, c, h))
          (consider_all-Sound fuel now ids (first_pass ids w) p v c)
  ]
]

-- What can happen to a runner: a pass, or the return of a handler.
pub data Turn : Type 0 where
  pass : List ℕ → Turn
  returns : Result → ℕ → Turn

abbrev pub turn : ℕ → ℕ → ℕ → ℕ → Turn → World → Option World
turn n f fuel now (pass ids) w = ensure fuel now ids w
turn n f fuel now (returns res id) w = finish res n f fuel now id w

-- Any number of passes and returns of handlers, in any order, each at its time, until one panics.
abbrev pub turns : ℕ → ℕ → ℕ → List (Turn × ℕ) → World → Option World
turns n f fuel [] w = some w
turns n f fuel ((t, now) ∷ ts) w = turn n f fuel now t w >>= turns n f fuel ts

-- Whatever passes and returns of handlers there are, in any order, and unless one panics: changes and
-- tasks still name each other, and a change whose status is that of its tasks is marked ready once all
-- of them are ready.
pub turns-Sound :
    (n f fuel : ℕ) (ts : List (Turn × ℕ)) (w w' : World)
    → Sound w.store
    → turns n f fuel ts w ≡ some w'
    → Sound w'.store
turns-Sound n f fuel [] w w' v h = subst SoundWorld {x = w} {y = w'} (ground (arith, h)) v
turns-Sound n f fuel ((pass ids, now) ∷ ts) w w' v h =
    let (w₁, e, h') = >>=-eq-some (ensure fuel now ids w) (turns n f fuel ts) h in
    turns-Sound n f fuel ts w₁ w' (ensure-Sound fuel now ids w w₁ v e) h'
turns-Sound n f fuel ((returns res id, now) ∷ ts) w w' v h =
    let (w₁, e, h') = >>=-eq-some (finish res n f fuel now id w) (turns n f fuel ts) h in
    turns-Sound n f fuel ts w₁ w' (finish-Sound res n f fuel now id w w₁ v e) h'
