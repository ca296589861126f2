-- ===== src/State/Totality.antt =====
-- The search for waiting tasks ends: as much fuel as there are tasks, and one more, is enough
-- (internals/overlord/state/change.go).
use native.Mathlib.Nat.{le_refl}
use buildtest.State.Readiness.{count_all, first_present-some}
use buildtest.State.Aggregate.{change_status, is_nil, stats}
use buildtest.Base.{
  Bool, List, Option, [], arith, false, inl, inr, length, none, refl, some, subst, suc, sym, true,
  zero, ℕ, ◌<◌, ◌∷◌, ◌≡◌, ◌≢◌, ◌≤◌,
}
use buildtest.State.Data.{Change, Tasks, task_status}
use buildtest.State.Waiting.{
  Answer, Visited, change_loop, computing, conclude, deps_loop, is_change_waiting, is_task_waiting,
  mark, not_computed, not_waiting, verdict, waiting,
}
use buildtest.State.Searching.{
  AllBelow, Answers, Answers-mono, Asked, Closed, Decides, WaitCompute-cases, follow-Answers,
  follow_change-Decides, fresh, fresh-mark, is_task_waiting-new, is_task_waiting-old, verdict-Below,
}

module _ (n : ℕ) (tasks : Tasks) (closed : Closed n tasks)
    (owned : (id : ℕ) → (tasks id).change ≢ none) where
  deps_loop-Answers :
      (bound : ℕ) (ask : Visited → ℕ → List ℕ → Answer)
      → Asked n bound ask
      → (v : Visited) (b : Bool) (deps : List ℕ) → AllBelow n deps
      → fresh n v ≤ bound
      → Answers n (fresh n v) (deps_loop ask tasks v b deps)
  unfolding deps_loop
  deps_loop-Answers bound ask asked v b [] d h = omega arith
  deps_loop-Answers bound ask asked v b (w ∷ ws) d h =
      follow-Answers n (verdict (task_status tasks w) (tasks w)) _ (ask v w) v b
        (verdict-Below n (task_status tasks w) (tasks w) (closed w).0 (closed w).1)
        (λ v' b' less. deps_loop-Answers bound ask asked v' b' ws d.1 (omega arith))
        (λ deps below. asked v w deps d.0 below h)

  conclude-Answers :
      (id bound : ℕ) (r : Answer) → Answers n bound r → Answers n bound (conclude id r)
  conclude-Answers id bound none h = h
  conclude-Answers id bound (some (v, true)) h = omega (arith, fresh-mark n v id waiting refl)
  conclude-Answers id bound (some (v, false)) h = omega (arith, fresh-mark n v id not_waiting refl)

  marked :
      (v : Visited) (id : ℕ)
      → id < n
      → v id ≡ not_computed
      → suc (fresh n (mark v id computing)) ≡ fresh n v
  marked v id below e = ground (arith, fresh-mark n v id computing refl)

  -- Each call marks one more task, so the fuel lasts.
  is_task_waiting-step :
      (f : ℕ)
      → ((v : Visited) (deps : List ℕ)
          → AllBelow n deps
          → suc (fresh n v) ≤ f
          → Answers n (fresh n v) (deps_loop (is_task_waiting f tasks) tasks v false deps))
      → Asked n f (is_task_waiting (suc f) tasks)
  is_task_waiting-step f loop v id deps below d h = elim (WaitCompute-cases (v id)) [
    | inl e ↦
        let less = marked v id below e in
        subst (Answers n (fresh n v)) (sym (is_task_waiting-new f tasks v id deps e)) (
          conclude-Answers id (fresh n v) _ (
            Answers-mono n (fresh n (mark v id computing)) (fresh n v) _ (omega arith)
              (loop (mark v id computing) deps d (omega arith))))
    | inr old ↦
        let (b, e) = is_task_waiting-old f tasks v id deps (owned id) old in
        subst (Answers n (fresh n v)) (sym e) (le_refl (fresh n v))
  ]

  is_task_waiting-Answers : (f : ℕ) → Asked n f (is_task_waiting (suc f) tasks)
  is_task_waiting-Answers zero = is_task_waiting-step zero (λ v deps d h. absurd (omega arith))
  is_task_waiting-Answers (suc f) = is_task_waiting-step (suc f) λ v deps d h.
      deps_loop-Answers f (is_task_waiting (suc f) tasks) (is_task_waiting-Answers f) v false deps d
        (omega arith)

  change_loop-Decides :
      (f : ℕ) (v : Visited) (ids : List ℕ)
      → AllBelow n ids
      → fresh n v ≤ f
      → Decides (change_loop (suc f) tasks v ids)
  unfolding change_loop
  change_loop-Decides f v [] d h = tt
  change_loop-Decides f v (w ∷ ws) d h =
      follow_change-Decides n (verdict (task_status tasks w) (tasks w)) _ _ v
        (verdict-Below n (task_status tasks w) (tasks w) (closed w).0 (closed w).1)
        (λ v' less. change_loop-Decides f v' ws d.1 (omega arith))
        (λ deps below. is_task_waiting-Answers f v w deps d.0 below h)

  fresh-all : (m : ℕ) → fresh m (λ _. not_computed) ≡ m
  fresh-all zero = refl
  fresh-all (suc m) = omega (arith, fresh-all m)

Decides-some : (r : Option Bool) → Decides r → r ≢ none
Decides-some (some b) h = λ e. cc
Decides-some none h = absurd h

length_pos : (ids : List ℕ) → is_nil ids ≡ false → 0 < length ids
length_pos [] h = cc
length_pos (x ∷ ids) h = omega arith

-- If every task is in a change, and the tasks that a task or the change names exist and are
-- numbered below n, then fuel of n + 1 finds the status of the change, whatever cycles the tasks
-- have: the source neither loops for ever nor panics.
pub change_status-some :
    (n : ℕ) (tasks : Tasks) (c : Change)
    → Closed n tasks
    → ((id : ℕ) → (tasks id).change ≢ none)
    → AllBelow n c.task_ids
    → change_status (suc n) tasks c ≢ none
unfolding change_status is_change_waiting
change_status-some n tasks c closed owned below =
    let start : Visited = λ _. not_computed in
    let decided = Decides-some (change_loop (suc n) tasks start c.task_ids) (
      change_loop-Decides n tasks closed owned n start c.task_ids below
        (omega (arith, fresh-all n tasks closed owned n))) in
    ground (
      arith,
      decided,
      count_all tasks c.task_ids,
      first_present-some (stats tasks c.task_ids),
      length_pos c.task_ids,
    )
