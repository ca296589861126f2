-- ===== src/State/Abort/Preserved.antt =====
-- What an abort leaves alone (internals/overlord/state/change.go).
use buildtest.Base.{
  Bool-cases, List, Option-cases, [], ap, arith, inl, inr, refl, some, subst, suc, sym, zero, ℕ,
  ℕ_discrete, ◌++◌, ◌∙◌, ◌∷◌, ◌≡◌, ◌⊎◌,
}
use buildtest.State.Data.{Change, Task, effective_status, lanes_of}
use buildtest.State.Aggregate.{is_nil}
use buildtest.State.Settled.{Sound}
use buildtest.State.Sound.{set_status-Sound}
use buildtest.State.Store.{Store}
use buildtest.State.Abort.{
  Again, Marks, abort_change, abort_lanes, abort_loop, abort_status, abort_task, ends, lane_victims,
  lanes_added, mark_all, mark_one, no_marks, unseen,
}
use buildtest.State.Abort.Single.{IsAborted, abort_task-tasks, aborted_task, aborted_task-IsAborted}

abort_task-Sound :
    (fuel now id : ℕ) (st st' : Store) → Sound st → abort_task fuel now id st ≡ some st' → Sound st'
unfolding abort_task
abort_task-Sound fuel now id st st' v h =
    elim (Option-cases (abort_status (effective_status (st.tasks id)))) [
      | inl e ↦ subst Sound {x = st} {y = st'} (ground (arith, e)) v
      | inr (s, e) ↦ set_status-Sound fuel now id s st st' v (inl (ground (arith, e)))
    ]

aborted_task-again : (t : Task) → aborted_task (aborted_task t) ≡ aborted_task t
aborted_task-again t = ground arith

-- Each task is as it was, or aborted.
abbrev Changed : Store → Store → Type 0
Changed st st' = (j : ℕ) → (st'.tasks j ≡ st.tasks j) ⊎ (st'.tasks j ≡ aborted_task (st.tasks j))

abbrev pub Moved : Store → Store → Type 0
Moved st st' = (j : ℕ) → (st'.tasks j ≡ st.tasks j) ⊎ IsAborted (st.tasks j) (st'.tasks j)

Changed-Moved : (st st' : Store) → Changed st st' → Moved st st'
Changed-Moved st st' c j = elim (c j) [
  | inl e ↦ inl e
  | inr e ↦ inr (subst (IsAborted (st.tasks j)) (sym e) (aborted_task-IsAborted (st.tasks j)))
]

abort_task-Changed :
    (fuel now id : ℕ) (st₀ st st' : Store)
    → Changed st₀ st
    → abort_task fuel now id st ≡ some st'
    → Changed st₀ st'
abort_task-Changed fuel now id st₀ st st' v h j =
    let moved = abort_task-tasks fuel now id st st' h j in
    let twice = aborted_task-again (st₀.tasks j) in
    elim (ℕ_discrete id j) [
      | yes e ↦
          let here : st'.tasks j ≡ aborted_task (st.tasks j) =
            moved ∙ ground (arith, e, ap st.tasks e) in
          elim (v j) [
            | inl e' ↦ inr (here ∙ ap aborted_task e')
            | inr e' ↦ inr (here ∙ ap aborted_task e' ∙ twice)
          ]
      | no ne ↦
          let there : st'.tasks j ≡ st.tasks j = moved ∙ ground arith in
          elim (v j) [ inl e' ↦ inl (there ∙ e') | inr e' ↦ inr (there ∙ e') ]
    ]

-- What every abort of one task keeps, a whole abort keeps.
module _ {ℓ} (P : Store → Type ℓ) where
  abbrev KeptBySteps : Type ℓ
  KeptBySteps =
      (fuel now id : ℕ) (st st' : Store) → P st → abort_task fuel now id st ≡ some st' → P st'

  abbrev KeptBy : Again → Type ℓ
  KeptBy again =
      (lanes : List ℕ) (seen : Marks) (st st' : Store)
      → P st
      → again lanes seen st ≡ ends st'
      → P st'

  abort_loop-keeps :
      (f fuel now : ℕ) (again : Again) (aborted : Marks) (queue lanes : List ℕ) (seen : Marks)
      (st st' : Store)
      → KeptBySteps
      → KeptBy again
      → P st
      → abort_loop f fuel now again aborted queue lanes seen st ≡ ends st'
      → P st'
  unfolding abort_loop
  abort_loop-keeps f fuel now again aborted [] lanes seen st st' steps ok v h =
      elim (Bool-cases (is_nil lanes)) [
        | inl e ↦ subst P {x = st} {y = st'} (ground (arith, e)) v
        | inr e ↦ ok lanes seen st st' v (ground (arith, e))
      ]
  abort_loop-keeps zero fuel now again aborted (id ∷ queue) lanes seen st st' steps ok v h = cc
  abort_loop-keeps (suc f) fuel now again aborted (id ∷ queue) lanes seen st st' steps ok v h =
      let more = unseen (mark_one id seen) (st.tasks id).halt_tasks in
      let all = lanes_of (st.tasks id).lanes in
      elim (Bool-cases (seen id)) [
        | inl e ↦
            abort_loop-keeps f fuel now again aborted queue lanes seen st st' steps ok v
              (ground (arith, e))
        | inr e ↦ elim (Option-cases (abort_task fuel now id st)) [
          | inl e' ↦ absurd (ground (arith, e, e'))
          | inr (st₁, e') ↦
              abort_loop-keeps f fuel now again aborted (queue ++ more)
                (lanes ++ lanes_added aborted all all) (mark_one id seen) st₁ st' steps ok
                (steps fuel now id st st₁ v e') (ground (arith, e, e'))
        ]
      ]

  abort_lanes-keeps :
      (n f fuel now : ℕ) (ids : List ℕ) (aborted : Marks) (lanes : List ℕ) (seen : Marks)
      (st st' : Store)
      → KeptBySteps
      → P st
      → abort_lanes n f fuel now ids aborted lanes seen st ≡ ends st'
      → P st'
  unfolding abort_lanes
  abort_lanes-keeps zero f fuel now ids aborted lanes seen st st' steps v h = cc
  abort_lanes-keeps (suc n) f fuel now ids aborted lanes seen st st' steps v h =
      let victims = lane_victims lanes st.tasks ids in
      let aborted' = mark_all lanes aborted in
      elim (Bool-cases (is_nil victims)) [
        | inl e ↦ subst P {x = st} {y = st'} (ground (arith, e)) v
        | inr e ↦
            abort_loop-keeps f fuel now (abort_lanes n f fuel now ids aborted') aborted' victims []
              seen st st' steps
              (λ lanes' seen' s s' w e'.
                abort_lanes-keeps n f fuel now ids aborted' lanes' seen' s s' steps w e')
              v (ground (arith, e))
      ]

  abort_change-keeps :
      (n f fuel now : ℕ) (c : Change) (st st' : Store)
      → KeptBySteps
      → P st
      → abort_change n f fuel now c st ≡ ends st'
      → P st'
  unfolding abort_change
  abort_change-keeps n f fuel now c st st' steps v h =
      abort_loop-keeps f fuel now (abort_lanes n f fuel now c.task_ids no_marks) no_marks c.task_ids
        [] no_marks st st' steps
        (λ lanes seen s s' w e.
          abort_lanes-keeps n f fuel now c.task_ids no_marks lanes seen s s' steps w e)
        v h

pub abort_change-Changed :
    (n f fuel now : ℕ) (c : Change) (st st' : Store)
    → abort_change n f fuel now c st ≡ ends st'
    → Changed st st'
abort_change-Changed n f fuel now c st st' h =
    abort_change-keeps (Changed st) n f fuel now c st st'
      (λ f' t id s s' w e. abort_task-Changed f' t id st s s' w e) (λ j. inl refl) h

pub abort_lanes-Changed :
    (n f fuel now : ℕ) (ids lanes : List ℕ) (st st' : Store)
    → abort_lanes n f fuel now ids no_marks lanes no_marks st ≡ ends st'
    → Changed st st'
abort_lanes-Changed n f fuel now ids lanes st st' h =
    abort_lanes-keeps (Changed st) n f fuel now ids no_marks lanes no_marks st st'
      (λ f' t id s s' w e. abort_task-Changed f' t id st s s' w e) (λ j. inl refl) h

-- Abort and AbortLanes of a change, when they end without a panic: every task is as it was, or it
-- was pending and is on hold, was running and is to be aborted, or was done and is to be undone,
-- with nothing else of it changed; and what holds between changes and tasks, readiness included,
-- holds again.
pub abort-keeps :
    (n f fuel now : ℕ) (c : Change) (lanes : List ℕ) (st st' : Store)
    → Sound st
    → (abort_change n f fuel now c st ≡ ends st')
      ⊎ (abort_lanes n f fuel now c.task_ids no_marks lanes no_marks st ≡ ends st')
    → Moved st st' × Sound st'
abort-keeps n f fuel now c lanes st st' v (inl h) = (
  Changed-Moved st st' (abort_change-Changed n f fuel now c st st' h),
  abort_change-keeps Sound n f fuel now c st st' abort_task-Sound v h,
)
abort-keeps n f fuel now c lanes st st' v (inr h) = (
  Changed-Moved st st' (abort_lanes-Changed n f fuel now c.task_ids lanes st st' h),
  abort_lanes-keeps Sound n f fuel now c.task_ids no_marks lanes no_marks st st' abort_task-Sound v
      h,
)
