-- ===== src/Runner/Standing.antt =====
-- The status of a task after `SetStatus` (internals/overlord/state/task.go).
use buildtest.Base.{ap, arith, false, some, ℕ, ◌&&◌, ◌∙◌, ◌≡◌}
use buildtest.State.Data.{Task}
use buildtest.State.Store.{Store, set_status}
use buildtest.State.Status.{Status, abort, done, status_eq}
use buildtest.State.Abort.Single.{set_status-tasks}

pub kept_status :
    (fuel now id : ℕ) (new : Status) (st st' : Store)
    → status_eq new done && status_eq (st.tasks id).status abort ≡ false
    → set_status fuel now id new st ≡ some st'
    → (st'.tasks id).status ≡ new
kept_status fuel now id new st st' h k =
    ap (λ (t : Task). t.status) (set_status-tasks fuel now id new st st' h k id) ∙ ground arith
