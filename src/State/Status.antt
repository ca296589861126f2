-- ===== src/State/Status.antt =====
-- `Status`, of changes and tasks (internals/overlord/state/change.go).
use buildtest.Base.{Bool, List, [], false, true, ℕ, ◌==◌, ◌∷◌}

pub data Status : Type 0 where
  default hold do_ doing done abort undo undoing undone error wait : Status

-- `Ready`.
abbrev pub ready : Status → Bool
ready done = true
ready undone = true
ready hold = true
ready error = true
ready _ = false

-- `statusOrder`, the statuses in order of priority.
abbrev pub status_order : List Status
status_order = abort ∷ undoing ∷ undo ∷ doing ∷ do_ ∷ wait ∷ error ∷ undone ∷ done ∷ hold ∷ []

-- The index of a status among the constants.
abbrev pub code : Status → ℕ
code default = 0
code hold = 1
code do_ = 2
code doing = 3
code done = 4
code abort = 5
code undo = 6
code undoing = 7
code undone = 8
code error = 9
code wait = 10

abbrev pub status_eq : Status → Status → Bool
status_eq a b = code a == code b
