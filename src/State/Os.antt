-- ===== src/State/Os.antt =====
-- What pkg/state/backend/local/local.go calls of Go's packages `os`, `io` and `path/filepath`: a parameter
-- of the model. `F` is the file system; a call that changes it returns the new one.
use cldctl.Prelude.{List, Option, none, some, ◌≡◌, ◌≢◌}
use cldctl.Prelude.Results.{Result, err, ok}
use cldctl.Text.{Text}

-- An error is one that `os.IsNotExist` knows, or another with its message.
pub data OsError : Type 0 where
  not_exist : OsError
  failed : Text → OsError

-- The arguments with which `filepath.Walk` calls its function: an error, a directory or a file.
pub data Visit : Type 0 where
  unvisited : OsError → Visit
  directory file : Visit

-- `copy_to` is `io.Copy` to the open file of that name, `close` its `Close`, `read` is `os.ReadFile`, or
-- `os.Open` with the reading of the file, and `write` is `os.WriteFile`.
pub record Os (F : Type 0) : Type 0 where
  pub dir : Text → Text
  pub rel : Text → Text → Text
  pub mkdir_all : F → Text → F × Option OsError
  pub create_temp : F → Text → F × Result OsError Text
  pub copy_to : F → Text → Text → F × Option OsError
  pub close : F → Text → F × Option OsError
  pub rename : F → Text → Text → F × Option OsError
  pub remove : F → Text → F × Option OsError
  pub read : F → Text → Result OsError Text
  pub write : F → Text → Text → F × Option OsError
  pub stat : F → Text → Option OsError
  pub walk : F → Text → List (Text × Visit)

module _ {F : Type 0} (os : Os F) where
  -- What can be read at a path can still be read there, with the same content.
  abbrev pub Keeps : Text → F → F → Type 0
  Keeps p fs fs' = (content : Text) → os.read fs p ≡ ok content → os.read fs' p ≡ ok content

  -- A path that was removed, or that had nothing to remove, has no file.
  pub record IsRemoving : Type 0 where
    pub removed :
        (fs : F) (p : Text)
        → (os.remove fs p).1 ≡ none
        → os.read (os.remove fs p).0 p ≡ err not_exist
    pub absent :
        (fs : F) (p : Text)
        → (os.remove fs p).1 ≡ some not_exist
        → os.read (os.remove fs p).0 p ≡ err not_exist

  -- Each call touches only the files that it names, a temporary file is a new one, what was copied
  -- stands in it, and `rename` replaces its target by the whole file or does nothing.
  pub record IsSparing : Type 0 where
    pub mkdir_keeps : (fs : F) (d p : Text) → Keeps p fs (os.mkdir_all fs d).0
    pub temp_keeps : (fs : F) (d p : Text) → Keeps p fs (os.create_temp fs d).0
    pub temp_new :
        (fs : F) (d t content : Text) → (os.create_temp fs d).1 ≡ ok t → os.read fs t ≢ ok content
    pub copy_keeps : (fs : F) (t content p : Text) → p ≢ t → Keeps p fs (os.copy_to fs t content).0
    pub copied :
        (fs : F) (t content : Text)
        → (os.copy_to fs t content).1 ≡ none
        → os.read (os.copy_to fs t content).0 t ≡ ok content
    pub close_keeps : (fs : F) (t p : Text) → Keeps p fs (os.close fs t).0
    pub rename_keeps :
        (fs : F) (t target p : Text)
        → p ≢ t
        → ((os.rename fs t target).1 ≡ none → p ≢ target)
        → Keeps p fs (os.rename fs t target).0
    pub renamed :
        (fs : F) (t target content : Text)
        → (os.rename fs t target).1 ≡ none
        → os.read fs t ≡ ok content
        → os.read (os.rename fs t target).0 target ≡ ok content
    pub remove_keeps : (fs : F) (t p : Text) → p ≢ t → Keeps p fs (os.remove fs t).0
