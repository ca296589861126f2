-- ===== src/State/Waiting.antt =====
-- Whether the pending tasks of a change are all blocked by tasks in wait (`isTaskWaiting` and
-- `isChangeWaiting`, internals/overlord/state/change.go).
use buildtest.Base.{
  Bool, List, Option, [], false, if◌then◌else◌, none, some, suc, true, zero, ℕ, ◌==◌, ◌∷◌,
}
use buildtest.State.Status.{Status, do_, done, error, hold, undo, undone, wait}
use buildtest.State.Data.{Task, Tasks, task_status}

-- `taskWaitComputeStatus`.
pub data WaitCompute : Type 0 where
  not_computed computing not_waiting waiting : WaitCompute

-- The map `visited`, which starts out as `not_computed` everywhere.
abbrev pub Visited : Type 0
Visited = ℕ → WaitCompute

abbrev pub mark : Visited → ℕ → WaitCompute → Visited
mark v id c j = if id == j then c else v j

abbrev pub Answer : Type 0
Answer = Option (Visited × Bool)

-- What a dependency decides: the loop goes on with a value, stops with false, or asks further.
pub data Verdict : Type 0 where
  blocks passes stops : Verdict
  asks : List ℕ → Verdict

abbrev pub verdict : Status → Task → Verdict
verdict wait t = blocks
verdict done t = passes
verdict undone t = passes
verdict error t = passes
verdict hold t = passes
verdict do_ t = asks t.wait_tasks
verdict undo t = asks t.halt_tasks
verdict _ t = stops

-- After the recursive call: false stops the loop, true is kept for the rest.
abbrev pub resume : (Visited → Answer) → Answer → Answer
resume rest none = none
resume rest (some (v, true)) = rest v
resume rest (some (v, false)) = some (v, false)

abbrev pub follow :
    Verdict → (Visited → Bool → Answer) → (List ℕ → Answer) → Visited → Bool → Answer
follow blocks rest ask v b = rest v true
follow passes rest ask v b = rest v b
follow stops rest ask v b = some (v, false)
follow (asks deps) rest ask v b = resume (λ v'. rest v' true) (ask deps)

-- The loop over the dependencies; `ask` is the recursive call on one of them.
unfoldable pub deps_loop :
    (Visited → ℕ → List ℕ → Answer) → Tasks → Visited → Bool → List ℕ → Answer
deps_loop ask tasks v is_waiting [] = some (v, is_waiting)
deps_loop ask tasks v is_waiting (w ∷ ws) =
    follow (verdict (task_status tasks w) (tasks w)) (λ v' b. deps_loop ask tasks v' b ws) (ask v w)
      v is_waiting

abbrev pub conclude : ℕ → Answer → Answer
conclude id none = none
conclude id (some (v, b)) = some (mark v id (if b then waiting else not_waiting), b)

-- A cycle is found. The log names the change of the task, and a task in no change is a panic there.
abbrev pub cyclic : Task → Visited → Answer
cyclic t v = elim t.change [ none ↦ none | some cid ↦ some (v, false) ]

-- `isTaskWaiting` on fuel; `none` means that the fuel ran out, or a panic. What is logged is left out,
-- and the ids that tasks name are of tasks and changes that exist.
unfoldable pub is_task_waiting : ℕ → Tasks → Visited → ℕ → List ℕ → Answer
unfolding deps_loop
is_task_waiting zero tasks v id deps = none
is_task_waiting (suc f) tasks v id deps = elim (v id) [
  | computing ↦ cyclic (tasks id) v
  | waiting ↦ some (v, true)
  | not_waiting ↦ some (v, false)
  | not_computed ↦
      conclude id (deps_loop (is_task_waiting f tasks) tasks (mark v id computing) false deps)
]

abbrev pub resume_change : (Visited → Option Bool) → Answer → Option Bool
resume_change rest none = none
resume_change rest (some (v, true)) = rest v
resume_change rest (some (v, false)) = some false

abbrev pub follow_change :
    Verdict → (Visited → Option Bool) → (List ℕ → Answer) → Visited → Option Bool
follow_change blocks rest ask v = rest v
follow_change passes rest ask v = rest v
follow_change stops rest ask v = some false
follow_change (asks deps) rest ask v = resume_change rest (ask deps)

-- The loop of `isChangeWaiting`.
unfoldable pub change_loop : ℕ → Tasks → Visited → List ℕ → Option Bool
change_loop f tasks v [] = some true
change_loop f tasks v (w ∷ ws) =
    follow_change (verdict (task_status tasks w) (tasks w)) (λ v'. change_loop f tasks v' ws)
      (is_task_waiting f tasks v w) v

unfoldable pub is_change_waiting : ℕ → Tasks → List ℕ → Option Bool
unfolding change_loop
is_change_waiting f tasks ids = change_loop f tasks (λ _. not_computed) ids
