-- ===== src/State/Local/Writes.antt =====
-- pkg/state/backend/local/local.go, `Write`: a temporary file that is renamed, so that a write that
-- fails at any step leaves every document as it was.
use cldctl.Prelude.{Option, Option-cases, arith, inl, inr, none, ◌≡◌, ◌≢◌}
use cldctl.Prelude.Results.{ok}
use cldctl.State.Os.{Keeps, Os, OsError}
use cldctl.State.Local.{Disk, full_path, write_file, write_full}
use cldctl.Text.{Text}

module _ {F : Type 0} (os : Os F) where
  -- What a write of a path has done, for the other paths that `concern`.
  pub record IsAtomic (concern : Text → Type 0) (full content : Text) (fs : F)
      (out : F × Option OsError) : Type 0 where
    pub written : out.1 ≡ none → os.read out.0 full ≡ ok content
    pub kept : (q : Text) → concern q → (out.1 ≡ none → q ≢ full) → Keeps os q fs out.0

pub write_file-error :
    {F : Type 0} (os : Os F) (base_path : Text) (disk : Disk F) (p content : Text)
    → (write_file os base_path disk p content).1 ≡ none
    → (write_full os disk.files (full_path os base_path p) content).1 ≡ none
unfolding write_file
write_file-error os base_path disk p content h =
    elim (Option-cases (write_full os disk.files (full_path os base_path p) content).1) [
      | inl fine ↦ fine
      | inr (e, bad) ↦ absurd (ground (arith, bad, h))
    ]
