-- ===== src/State/Abort/Termination.antt =====
-- An abort comes to an end, whatever cycles the tasks and lanes have
-- (internals/overlord/state/change.go).
use buildtest.Base.{
  Bool-cases, List, Option-cases, [], ap, arith, false, inl, inr, length, length-append, refl,
  subst, suc, sym, true, zero, ℕ, ◌++◌, ◌+◌, ◌<◌, ◌||◌, ◌∷◌, ◌≡◌, ◌≢◌, ◌≤◌,
}
use buildtest.State.Data.{Change, Tasks, lanes_of}
use buildtest.State.Aggregate.{is_nil}
use buildtest.State.Store.{Store, set_task}
use buildtest.State.Searching.{AllBelow}
use buildtest.State.Abort.{
  Again, Marks, abort_change, abort_lanes, abort_loop, abort_task, lane_victims, lanes_added,
  mark_all, mark_one, no_marks, opinions, out_of_fuel, unseen,
}
use buildtest.State.Abort.Markings.{
  AllBelow-append, doomed-below, is_nil-append, lanes_added-new, some_new, some_new-append,
  some_new-lane, unmarked, unmarked-le, unmarked-mark_all, unmarked-mark_one, unmarked_mono,
  unseen-below,
}
use buildtest.State.Abort.Single.{abort_task-tasks, aborted_task}

spend :
    (n : ℕ) (halts : ℕ → List ℕ) (id : ℕ) (seen : Marks)
    → seen id ≡ false
    → id < n
    → unmarked (λ j. length (halts j)) n (mark_one id seen) + length (halts id)
      ≡ unmarked (λ j. length (halts j)) n seen
spend n halts id seen h k = ground (arith, unmarked-mark_one (λ j. length (halts j)) n id seen h)

unmarked-one : (n : ℕ) → unmarked (λ _. 1) n no_marks ≡ n
unmarked-one zero = refl
unmarked-one (suc n) = omega (arith, unmarked-one n)

good-append :
    (bound : ℕ) (m : Marks) (xs ys : List ℕ)
    → is_nil xs || some_new bound m xs ≡ true
    → is_nil ys || some_new bound m ys ≡ true
    → is_nil (xs ++ ys) || some_new bound m (xs ++ ys) ≡ true
good-append bound m xs ys h k = ground (arith, is_nil-append xs ys, some_new-append bound m xs ys)

module _ (n bound : ℕ) (halts : ℕ → List ℕ) (lanes_in : ℕ → List ℕ) where
  -- A state with these edges and lanes, all within the bounds.
  record Bounded (st : Store) : Type 0 where
    kept : (j : ℕ) → (st.tasks j).halt_tasks ≡ halts j
    kept_lanes : (j : ℕ) → lanes_of (st.tasks j).lanes ≡ lanes_in j
    halts_below : (j : ℕ) → AllBelow n (halts j)
    lanes_below : (j : ℕ) → AllBelow bound (lanes_in j)

  abbrev weight : ℕ → ℕ
  weight j = length (halts j)

  abbrev AgainReturns : Marks → Again → Type 0
  AgainReturns aborted again =
      (lanes : List ℕ) (seen : Marks) (st : Store)
      → Bounded st
      → some_new bound aborted lanes ≡ true
      → again lanes seen st ≢ out_of_fuel

  next-Bounded :
      (st st' : Store) (id : ℕ)
      → Bounded st
      → ((j : ℕ) → st'.tasks j ≡ set_task id (aborted_task (st.tasks id)) st.tasks j)
      → Bounded st'
  next-Bounded st st' id v moved = record {
    kept = λ j. ground (arith, moved j, v.kept j, ap st.tasks {x = id} {y = j});
    kept_lanes = λ j. ground (arith, moved j, v.kept_lanes j, ap st.tasks {x = id} {y = j});
    halts_below = v.halts_below;
    lanes_below = v.lanes_below;
  }

  abort_loop-returns :
      (f fuel now : ℕ) (again : Again) (aborted : Marks) (queue lanes : List ℕ) (seen : Marks)
      (st : Store)
      → AgainReturns aborted again
      → Bounded st
      → AllBelow n queue
      → length queue + unmarked weight n seen ≤ f
      → is_nil lanes || some_new bound aborted lanes ≡ true
      → abort_loop f fuel now again aborted queue lanes seen st ≢ out_of_fuel
  unfolding abort_loop
  abort_loop-returns f fuel now again aborted [] lanes seen st ok v b h g =
      elim (Bool-cases (is_nil lanes)) [
        | inl e ↦ rw (e) (λ e'. cc)
        | inr e ↦ rw (e) (ok lanes seen st v (ground (arith, e, g)))
      ]
  abort_loop-returns zero fuel now again aborted (id ∷ queue) lanes seen st ok v b h g =
      absurd (omega arith)
  abort_loop-returns (suc f) fuel now again aborted (id ∷ queue) lanes seen st ok v b h g =
      let seen' = mark_one id seen in
      let halted = (st.tasks id).halt_tasks in
      let more = unseen seen' halted in
      let all = lanes_of (st.tasks id).lanes in
      let halted_below : AllBelow n halted =
        subst (AllBelow n) (sym (v.kept id)) (v.halts_below id) in
      let all_below : AllBelow bound all =
        subst (AllBelow bound) (sym (v.kept_lanes id)) (v.lanes_below id) in
      let added = lanes_added-new bound aborted all all all_below (λ e. e) in
      let (more_below, more_short) = unseen-below n seen' halted halted_below in
      elim (Bool-cases (seen id)) [
        | inl e ↦ rw (e) (
            abort_loop-returns f fuel now again aborted queue lanes seen st ok v b.1 (omega arith)
              g)
        | inr e ↦ elim (Option-cases (abort_task fuel now id st)) [
          | inl e' ↦ rw (e, e') (λ e''. cc)
          | inr (st₁, e') ↦
              let left : length (queue ++ more) + unmarked weight n seen' ≤ f = omega (
                arith,
                length-append queue more,
                spend n halts id seen e b.0,
                more_short,
                ap length (v.kept id),
                h,
              ) in
              let good = good-append bound aborted lanes (lanes_added aborted all all) g added in
              rw (e, e')
                (abort_loop-returns f fuel now again aborted (queue ++ more)
                  (lanes ++ lanes_added aborted all all) seen' st₁ ok
                  (next-Bounded st st₁ id v (abort_task-tasks fuel now id st st₁ e'))
                  (AllBelow-append n queue more b.1 more_below) left good)
        ]
      ]

  -- One call of `abortLanes`, if those that follow return.
  call-returns :
      (k f fuel now : ℕ) (ids : List ℕ) (aborted : Marks) (lanes : List ℕ) (seen : Marks)
      (st : Store)
      → AgainReturns
          (mark_all lanes aborted)
          (abort_lanes k f fuel now ids (mark_all lanes aborted))
      → Bounded st
      → AllBelow n ids
      → length ids + unmarked weight n no_marks ≤ f
      → abort_lanes (suc k) f fuel now ids aborted lanes seen st ≢ out_of_fuel
  unfolding abort_lanes lane_victims
  call-returns k f fuel now ids aborted lanes seen st ok v b h =
      let victims = lane_victims lanes st.tasks ids in
      let aborted' = mark_all lanes aborted in
      let (below, short) : AllBelow n victims × (length victims ≤ length ids) =
        doomed-below n lanes (opinions true lanes st.tasks ids) (opinions false lanes st.tasks ids)
          st.tasks ids b in
      let enough = unmarked-le weight n seen in
      elim (Bool-cases (is_nil victims)) [
        | inl e ↦ rw (e) (λ e'. cc)
        | inr e ↦ rw (e) (
            abort_loop-returns f fuel now (abort_lanes k f fuel now ids aborted') aborted' victims
              [] seen st ok v below (omega arith) refl)
      ]

  fewer :
      (aborted : Marks) (lanes : List ℕ)
      → some_new bound aborted lanes ≡ true
      → unmarked (λ _. 1) bound (mark_all lanes aborted) < unmarked (λ _. 1) bound aborted
  fewer aborted lanes h =
      let (x, below, new, there) = some_new-lane bound aborted lanes h in
      unmarked-mark_all bound x lanes aborted below new there

  abort_lanes-returns :
      (k f fuel now : ℕ) (ids : List ℕ) (aborted : Marks) (lanes : List ℕ) (seen : Marks)
      (st : Store)
      → Bounded st
      → AllBelow n ids
      → length ids + unmarked weight n no_marks ≤ f
      → unmarked (λ _. 1) bound (mark_all lanes aborted) ≤ k
      → abort_lanes (suc k) f fuel now ids aborted lanes seen st ≢ out_of_fuel
  abort_lanes-returns zero f fuel now ids aborted lanes seen st v b h m =
      call-returns zero f fuel now ids aborted lanes seen st
        (λ lanes' seen' st' v' new.
          absurd (omega (arith, fewer (mark_all lanes aborted) lanes' new, m)))
        v b h
  abort_lanes-returns (suc k) f fuel now ids aborted lanes seen st v b h m =
      let aborted' = mark_all lanes aborted in
      call-returns (suc k) f fuel now ids aborted lanes seen st
        (λ lanes' seen' st' v' new.
          abort_lanes-returns k f fuel now ids aborted' lanes' seen' st' v' b h
            (omega (arith, fewer aborted' lanes' new, m)))
        v b h

-- The sum of the numbers of tasks that wait for the tasks below n.
abbrev pub halt_count : ℕ → Tasks → ℕ
halt_count n tasks = unmarked (λ j. length (tasks j).halt_tasks) n no_marks

-- `Abort` and `AbortLanes` of a change, with all ids of tasks below n and all ids of lanes below
-- another bound: with fuel for one call of `abortLanes` more than there are lanes, and for as many
-- rounds of a loop as the change has tasks and the tasks have dependents, they do not run out of it.
pub abort-returns :
    (n bound fuel now : ℕ) (c : Change) (lanes : List ℕ) (st : Store)
    → ((j : ℕ) → AllBelow n (st.tasks j).halt_tasks)
    → ((j : ℕ) → AllBelow bound (lanes_of (st.tasks j).lanes))
    → AllBelow n c.task_ids
    → let rounds = length c.task_ids + halt_count n st.tasks in
      (abort_change (suc bound) rounds fuel now c st ≢ out_of_fuel)
      × (abort_lanes (suc bound) rounds fuel now c.task_ids no_marks lanes no_marks st
          ≢ out_of_fuel)
unfolding abort_change
abort-returns n bound fuel now c lanes st halts_below lanes_below b =
    let halts : ℕ → List ℕ = λ j. (st.tasks j).halt_tasks in
    let lanes_in : ℕ → List ℕ = λ j. lanes_of (st.tasks j).lanes in
    let rounds = length c.task_ids + halt_count n st.tasks in
    let v : Bounded n bound halts lanes_in st = record {
      kept = λ j. refl;
      kept_lanes = λ j. refl;
      halts_below = halts_below;
      lanes_below = lanes_below;
    } in
    let few : (ls : List ℕ) → unmarked (λ _. 1) bound (mark_all ls no_marks) ≤ bound =
      λ ls. omega (arith, unmarked_mono bound ls no_marks, unmarked-one bound) in
    (
      abort_loop-returns n bound halts lanes_in rounds fuel now
          (abort_lanes (suc bound) rounds fuel now c.task_ids no_marks) no_marks c.task_ids []
          no_marks st
          (λ ls seen s v' new.
            abort_lanes-returns n bound halts lanes_in bound rounds fuel now c.task_ids no_marks ls
              seen s v' b (omega arith) (few ls))
          v b (omega arith) refl,
      abort_lanes-returns n bound halts lanes_in bound rounds fuel now c.task_ids no_marks lanes
          no_marks st v b (omega arith) (few lanes),
    )
