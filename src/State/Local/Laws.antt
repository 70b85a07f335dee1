-- ===== src/State/Local/Laws.antt =====
-- pkg/state/backend/local/local.go: the locks exclude each other.
use cldctl.Prelude.{some, ◌≡◌}
use cldctl.Dict.{get}
use cldctl.State.Backend.{LockInfo}
use cldctl.State.Os.{Os}
use cldctl.Text.{Text}
use cldctl.State.Local.{Disk, lock_name}

IsTaken : {F : Type 0} → Text → LockInfo → Disk F → Type 0
IsTaken p mine disk = (get disk.locks (lock_name p) ≡ some mine) × (mine.path ≡ p)
