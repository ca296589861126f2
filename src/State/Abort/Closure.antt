-- ===== src/State/Abort/Closure.antt =====
-- How far an abort goes: to the tasks it is asked to abort and all that wait for them
-- (internals/overlord/state/change.go).
use buildtest.State.Abort.Preserved.{abort_change-Changed, abort_lanes-Changed}
use buildtest.State.Abort.Victims.{IsSpent, contains-append, lane_victims-has}
use buildtest.Base.{
  Bool-cases, List, Option-cases, [], ap, arith, false, inl, inr, refl, subst, suc, true, zero, ℕ,
  ℕ_discrete, ◌++◌, ◌∙◌, ◌∷◌, ◌≡◌, ◌⊎◌,
}
use buildtest.State.Data.{Change, Task, Tasks, lanes_of}
use buildtest.State.Aggregate.{is_nil}
use buildtest.State.Settled.{contains}
use buildtest.State.Store.{Store, set_task}
use buildtest.State.Abort.{
  Again, Marks, abort_change, abort_lanes, abort_loop, abort_task, ends, is_live, lane_victims,
  lanes_added, mark_all, mark_one, no_marks, unseen,
}
use buildtest.State.Abort.Single.{
  IsAborted, abort_task-tasks, aborted_task, aborted_task-dead, dead-IsAborted,
}

-- A task, and the tasks that wait for it, directly or not.
pub data Behind (halts : ℕ → List ℕ) : ℕ → ℕ → Type 0 where
  itself : (x : ℕ) → Behind halts x x
  behind : (x y z : ℕ) → contains y (halts x) ≡ true → Behind halts y z → Behind halts x z

contains-unseen :
    (x : ℕ) (seen : Marks) (xs : List ℕ)
    → contains x xs ≡ true
    → (seen x ≡ true) ⊎ (contains x (unseen seen xs) ≡ true)
contains-unseen x seen [] h = cc
contains-unseen x seen (y ∷ xs) h =
    ground (arith, contains-unseen x seen xs, ap seen {x = y} {y = x})

set_task-halts :
    (id : ℕ) (tasks : Tasks) (j : ℕ) {t : Task}
    → t ≡ set_task id (aborted_task (tasks id)) tasks j
    → t.halt_tasks ≡ (tasks j).halt_tasks
set_task-halts id tasks j h = ground (arith, ap tasks {x = id} {y = j})

module _ (halts : ℕ → List ℕ) where
  -- Between two rounds of the loop: what was seen is dead, and what waits for it is seen or queued.
  pub record Progress (seen : Marks) (queue : List ℕ) (st : Store) : Type 0 where
    pub kept : (j : ℕ) → (st.tasks j).halt_tasks ≡ halts j
    pub dead : (j : ℕ) → seen j ≡ true → is_live (st.tasks j) ≡ false
    pub closed :
        (j h : ℕ)
        → seen j ≡ true
        → contains h (halts j) ≡ true
        → (seen h ≡ true) ⊎ (contains h queue ≡ true)

  abbrev pub AllDead : Marks → List ℕ → Store → Type 0
  AllDead seen queue st' =
      (j k : ℕ)
      → (seen j ≡ true) ⊎ (contains j queue ≡ true)
      → Behind halts j k
      → is_live (st'.tasks k) ≡ false

  abbrev AgainKills : Again → Type 0
  AgainKills again =
      (lanes : List ℕ) (seen : Marks) (st st' : Store)
      → Progress seen [] st
      → again lanes seen st ≡ ends st'
      → AllDead seen [] st'

  seen-Behind :
      (seen : Marks) (st : Store) (j k : ℕ)
      → Progress seen [] st
      → seen j ≡ true
      → Behind halts j k
      → seen k ≡ true
  seen-Behind seen st j k v s (itself x) = s
  seen-Behind seen st j k v s (behind x y z m b) = elim (v.closed j y s m) [
    | inl e ↦ seen-Behind seen st y k v e b
    | inr e ↦ absurd (ground arith)
  ]

  finished-AllDead : (seen : Marks) (st : Store) → Progress seen [] st → AllDead seen [] st
  finished-AllDead seen st v j k (inl s) b = v.dead k (seen-Behind seen st j k v s b)
  finished-AllDead seen st v j k (inr s) b = cc

  -- One task is seen and aborted.
  next-Progress :
      (seen : Marks) (id : ℕ) (queue : List ℕ) (st st' : Store)
      → Progress seen (id ∷ queue) st
      → ((j : ℕ) → st'.tasks j ≡ set_task id (aborted_task (st.tasks id)) st.tasks j)
      → Progress
          (mark_one id seen)
          (queue ++ unseen (mark_one id seen) (st.tasks id).halt_tasks)
          st'
  next-Progress seen id queue st st' v moved =
      let seen' = mark_one id seen in
      let halted = (st.tasks id).halt_tasks in
      record {
        kept = λ j. set_task-halts id st.tasks j (moved j) ∙ v.kept j;
        dead = λ j s. ground (arith, moved j, v.dead j, aborted_task-dead (st.tasks id));
        closed = λ j h s m. elim (ℕ_discrete id j) [
          | yes e ↦
              let m' : contains h halted ≡ true = ap (contains h) (v.kept id ∙ ap halts e) ∙ m in
              ground (
                arith,
                contains-unseen h seen' halted m',
                contains-append h queue (unseen seen' halted),
              )
          | no ne ↦ ground (arith, v.closed j h, contains-append h queue (unseen seen' halted))
        ];
      }

  skip-Progress :
      (seen : Marks) (id : ℕ) (queue : List ℕ) (st : Store)
      → seen id ≡ true
      → Progress seen (id ∷ queue) st
      → Progress seen queue st
  skip-Progress seen id queue st e v = record {
    kept = v.kept;
    dead = v.dead;
    closed = λ j h s m. ground (arith, v.closed j h s m, ap seen {x = id} {y = h});
  }

  in_queue :
      (seen : Marks) (id : ℕ) (queue more : List ℕ) (j : ℕ)
      → (seen j ≡ true) ⊎ (contains j (id ∷ queue) ≡ true)
      → (mark_one id seen j ≡ true) ⊎ (contains j (queue ++ more) ≡ true)
  in_queue seen id queue more j h = ground (arith, h, contains-append j queue more)

  still_in :
      (seen : Marks) (id : ℕ) (queue : List ℕ) (j : ℕ)
      → seen id ≡ true
      → (seen j ≡ true) ⊎ (contains j (id ∷ queue) ≡ true)
      → (seen j ≡ true) ⊎ (contains j queue ≡ true)
  still_in seen id queue j e h = ground (arith, h, e, ap seen {x = id} {y = j})

  abort_loop-AllDead :
      (f fuel now : ℕ) (again : Again) (aborted : Marks) (queue lanes : List ℕ) (seen : Marks)
      (st st' : Store)
      → AgainKills again
      → Progress seen queue st
      → abort_loop f fuel now again aborted queue lanes seen st ≡ ends st'
      → AllDead seen queue st'
  unfolding abort_loop
  abort_loop-AllDead f fuel now again aborted [] lanes seen st st' ok v h =
      elim (Bool-cases (is_nil lanes)) [
        | inl e ↦
            subst (AllDead seen []) {x = st} {y = st'} (ground (arith, e))
              (finished-AllDead seen st v)
        | inr e ↦ ok lanes seen st st' v (ground (arith, e))
      ]
  abort_loop-AllDead zero fuel now again aborted (id ∷ queue) lanes seen st st' ok v h = cc
  abort_loop-AllDead (suc f) fuel now again aborted (id ∷ queue) lanes seen st st' ok v h =
      let more = unseen (mark_one id seen) (st.tasks id).halt_tasks in
      let all = lanes_of (st.tasks id).lanes in
      elim (Bool-cases (seen id)) [
        | inl e ↦
            let rest =
              abort_loop-AllDead f fuel now again aborted queue lanes seen st st' ok
                (skip-Progress seen id queue st e v) (ground (arith, e)) in
            λ j k s. rest j k (still_in seen id queue j e s)
        | inr e ↦ elim (Option-cases (abort_task fuel now id st)) [
          | inl e' ↦ absurd (ground (arith, e, e'))
          | inr (st₁, e') ↦
              let rest =
                abort_loop-AllDead f fuel now again aborted (queue ++ more)
                  (lanes ++ lanes_added aborted all all) (mark_one id seen) st₁ st' ok
                  (next-Progress seen id queue st st₁ v (abort_task-tasks fuel now id st st₁ e'))
                  (ground (arith, e, e')) in
              λ j k s. rest j k (in_queue seen id queue more j s)
        ]
      ]

  more-Progress :
      (seen : Marks) (queue : List ℕ) (st : Store) → Progress seen [] st → Progress seen queue st
  more-Progress seen queue st v = record {
    kept = v.kept;
    dead = v.dead;
    closed = λ j h s m. elim (v.closed j h s m) [ inl e ↦ inl e | inr e ↦ absurd (ground arith) ];
  }

  seen_or_nil :
      (seen : Marks) (queue : List ℕ) (j : ℕ)
      → is_nil queue ≡ true
      → (seen j ≡ true) ⊎ (contains j queue ≡ true)
      → (seen j ≡ true) ⊎ (contains j [] ≡ true)
  seen_or_nil seen [] j e h = h
  seen_or_nil seen (x ∷ xs) j e h = cc

  abort_lanes-AllDead :
      (n f fuel now : ℕ) (ids : List ℕ) (aborted : Marks) (lanes : List ℕ) (seen : Marks)
      (st st' : Store)
      → Progress seen [] st
      → abort_lanes n f fuel now ids aborted lanes seen st ≡ ends st'
      → AllDead seen (lane_victims lanes st.tasks ids) st'
  unfolding abort_lanes
  abort_lanes-AllDead zero f fuel now ids aborted lanes seen st st' v h = cc
  abort_lanes-AllDead (suc n) f fuel now ids aborted lanes seen st st' v h =
      let victims = lane_victims lanes st.tasks ids in
      let aborted' = mark_all lanes aborted in
      let again = abort_lanes n f fuel now ids aborted' in
      let kills : AgainKills again = λ lanes' seen' s s' w e j k o.
        abort_lanes-AllDead n f fuel now ids aborted' lanes' seen' s s' w e j k
          (elim o [ inl e' ↦ inl e' | inr e' ↦ absurd (ground arith) ]) in
      elim (Bool-cases (is_nil victims)) [
        | inl e ↦
            subst (AllDead seen victims) {x = st} {y = st'} (ground (arith, e))
              (λ j k o. finished-AllDead seen st v j k (seen_or_nil seen victims j e o))
        | inr e ↦
            abort_loop-AllDead f fuel now again aborted' victims [] seen st st' kills
              (more-Progress seen victims st v) (ground (arith, e))
      ]

-- Abort of a change, when it ends without a panic: every task of the change, and every task that
-- waits for one, directly or not, is aborted: if it was pending it is on hold, if it was running
-- it is to be aborted, if it was done it is to be undone, with nothing else of it changed, and any
-- other is as it was.
pub abort_change-IsAborted :
    (n f fuel now : ℕ) (c : Change) (st st' : Store) (id j : ℕ)
    → abort_change n f fuel now c st ≡ ends st'
    → contains id c.task_ids ≡ true
    → Behind (λ x. (st.tasks x).halt_tasks) id j
    → IsAborted (st.tasks j) (st'.tasks j)
unfolding abort_change
abort_change-IsAborted n f fuel now c st st' id j h m b =
    let halts : ℕ → List ℕ = λ x. (st.tasks x).halt_tasks in
    let dead =
      abort_loop-AllDead halts f fuel now (abort_lanes n f fuel now c.task_ids no_marks) no_marks
        c.task_ids [] no_marks st st'
        (λ lanes seen s s' v e j k o.
          abort_lanes-AllDead halts n f fuel now c.task_ids no_marks lanes seen s s' v e j k
            (elim o [ inl e' ↦ inl e' | inr e' ↦ absurd (ground arith) ]))
        (record { kept = λ x. refl; dead = λ x s. cc; closed = λ x y s m'. cc }) h id j (inr m) b in
    dead-IsAborted (st.tasks j) (st'.tasks j) dead (abort_change-Changed n f fuel now c st st' h j)

-- AbortLanes, when it ends without a panic, aborts a task of the change that is in one of the
-- lanes, if each of its lanes is one of them too or has a task of the change that is in none of
-- them and that is neither pending, running nor done; and with it every task that waits for it,
-- directly or not: one that was pending is on hold, one that was running is to be aborted, one
-- that was done is to be undone, with nothing else changed, and any other is as it was.
pub abort_lanes-IsAborted :
    (n f fuel now : ℕ) (c : Change) (lanes : List ℕ) (st st' : Store) (id lane j : ℕ)
    → abort_lanes n f fuel now c.task_ids no_marks lanes no_marks st ≡ ends st'
    → contains id c.task_ids ≡ true
    → contains lane (lanes_of (st.tasks id).lanes) ≡ true
    → contains lane lanes ≡ true
    → ((l : ℕ)
        → contains l (lanes_of (st.tasks id).lanes) ≡ true
        → IsSpent lanes st.tasks c.task_ids l)
    → Behind (λ x. (st.tasks x).halt_tasks) id j
    → IsAborted (st.tasks j) (st'.tasks j)
abort_lanes-IsAborted n f fuel now c lanes st st' id lane j h m i k spent b =
    let dead =
      abort_lanes-AllDead (λ x. (st.tasks x).halt_tasks) n f fuel now c.task_ids no_marks lanes
        no_marks st st' (record { kept = λ x. refl; dead = λ x s. cc; closed = λ x y s m'. cc }) h
        id j (inr (lane_victims-has lanes st.tasks c.task_ids id lane m i k spent)) b in
    dead-IsAborted (st.tasks j) (st'.tasks j) dead
      (abort_lanes-Changed n f fuel now c.task_ids lanes st st' h j)
