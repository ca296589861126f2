-- ===== src/State/Data.antt =====
-- `Task` and `Change` (internals/overlord/state/task.go and change.go), with the fields that decide
-- about statuses. Ids are the numbers that `NewTask`, `NewChange` and `NewLane` count up.
use buildtest.Base.{Bool, List, Option, [], ℕ, ◌∷◌}
use buildtest.State.Status.{Status, default, do_, wait}

pub record Task : Type 0 where
  pub status : Status
  pub waited_status : Status
  pub wait_tasks : List ℕ
  pub halt_tasks : List ℕ
  pub lanes : List ℕ
  pub change : Option ℕ

-- `ready` is whether the `ready` channel is closed; the two last statuses are those that observers
-- and the change's notice were last told.
pub record Change : Type 0 where
  pub status : Status
  pub task_ids : List ℕ
  pub ready : Bool
  pub ready_time : Option ℕ
  pub last_observed : Status
  pub last_recorded : Status

-- The map of all tasks. An id that a change or a task names is there, since `Prune` removes the
-- tasks of a change only together with it.
abbrev pub Tasks : Type 0
Tasks = ℕ → Task

-- `Task.Status`.
abbrev pub shown : Status → Status
shown default = do_
shown s = s

abbrev pub task_status : Tasks → ℕ → Status
task_status tasks id = shown (tasks id).status

-- `taskEffectiveStatus`.
abbrev pub effective : Status → Status → Status
effective wait later = later
effective s later = s

abbrev pub effective_status : Task → Status
effective_status t = effective (shown t.status) t.waited_status

-- `Lanes`: a task in no lane is in lane 0.
abbrev pub lanes_of : List ℕ → List ℕ
lanes_of [] = 0 ∷ []
lanes_of (l ∷ ls) = l ∷ ls
