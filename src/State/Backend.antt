-- ===== src/State/Backend.antt =====
-- pkg/state/backend/backend.go: the interface of a backend, and what its comments promise of `Read`,
-- `Write`, `Delete` and `List`. The promises are on documents: a directory that stands at the path of one
-- is outside of them.
use cldctl.Prelude.{
  List, Option, if◌then◌else◌, none, ◌≡◌, Bool, [], false, true, ◌&&◌, ◌==◌, ◌∷◌, not, All, ℕ,
}
use cldctl.Prelude.Results.{Result, err, ok}
use cldctl.Text.{Text, same}
use cldctl.State.Paths.{clean, split_slash}
use cldctl.Text.Sort.{occ}
use cldctl.State.Paths.Laws.{IsClean}

pub data StateError : Type 0 where
  -- `ErrNotFound`
  not_found : StateError
  -- A `LockError`, with the holder and the operation of the lock.
  locked : Text → Text → StateError
  -- A document that `encoding/json` refuses.
  not_encoded : StateError
  not_decoded : StateError
  -- `failed to delete <path>: ...`
  not_deleted : Text → StateError → StateError
  other : Text → StateError

pub record LockInfo : Type 0 where
  pub id : Text
  pub path : Text
  pub who : Text
  pub operation : Text
  pub created : ℕ

unfoldable pub is_found : Result StateError Text → Bool
is_found (ok content) = true
is_found (err not_found) = false
is_found (err (locked who operation)) = true
is_found (err not_encoded) = true
is_found (err not_decoded) = true
is_found (err (not_deleted p e)) = true
is_found (err (other m)) = true

-- `S` is what the backend keeps. A call that changes it returns the new one, with its error.
pub record Backend (S : Type 0) : Type 0 where
  pub read : S → Text → Result StateError Text
  pub write : S → Text → Text → S × Option StateError
  pub delete : S → Text → S × Option StateError
  pub list : S → Text → Result StateError (List Text)
  pub exists : S → Text → Result StateError Bool
  pub lock : S → Text → LockInfo → S × Result StateError LockInfo
  pub unlock : S → LockInfo → S × Option StateError

-- A file under a directory, or the file itself.
unfoldable pub is_prefix : List Text → List Text → Bool
is_prefix [] ys = true
is_prefix (x ∷ xs) [] = false
is_prefix (x ∷ xs) (y ∷ ys) = same x y && is_prefix xs ys

unfoldable pub is_under : Text → Text → Bool
is_under p q = is_prefix (split_slash (clean p)) (split_slash q)

unfoldable pub starts_with : Text → Text → Bool
starts_with [] q = true
starts_with (c ∷ p) [] = false
starts_with (c ∷ p) (d ∷ q) = c == d && starts_with p q

module _ {S : Type 0} (b : Backend S) where
  -- What a write or a delete without an error does to what is read, for clean paths.
  pub record IsStore : Type 0 where
    pub written :
        (s : S) (p content : Text)
        → IsClean p
        → (b.write s p content).1 ≡ none
        → (q : Text) → IsClean q
        → b.read (b.write s p content).0 q ≡ (if same p q then ok content else b.read s q)
    pub deleted :
        (s : S) (p : Text)
        → IsClean p
        → (b.delete s p).1 ≡ none
        → (q : Text) → IsClean q
        → b.read (b.delete s p).0 q ≡ (if same p q then err not_found else b.read s q)

  -- `List` gives the files that `belong` to the prefix, with clean paths.
  pub record IsListing (belongs : Text → Text → Bool) : Type 0 where
    pub listed :
        (s : S) (p : Text) (paths : List Text)
        → IsClean p
        → b.list s p ≡ ok paths
        → (q : Text) → IsClean q
        → not (occ q paths == 0) ≡ belongs p q && is_found (b.read s q)
    pub all_clean :
        (s : S) (p : Text) (paths : List Text) → b.list s p ≡ ok paths → All IsClean paths
