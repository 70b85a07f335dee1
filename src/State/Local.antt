-- ===== src/State/Local.antt =====
-- pkg/state/backend/local/local.go: the backend for local files, over the calls of the operating system
-- in State/Os. `Lock` does not wait for a lock that is held: it returns an error at once.
pub mod Laws
pub mod Writes
use cldctl.State.Backend.{Backend, LockInfo, StateError, locked, not_found, other}
use cldctl.Prelude.{
  Bool, List, Option, [], false, if◌then◌else◌, ltb, none, some, true, ℕ, ◌++◌, ◌-◌, ◌∷◌,
}
use cldctl.State.Manager.{Codec, lock}
use cldctl.State.Os.{Os, OsError, Visit, directory, failed, file, not_exist, unvisited}
use cldctl.Dict.{Dict, get, put, remove}
use cldctl.Prelude.Results.{Result, err, ok, ◌>>=◌}
use cldctl.Text.{Text, codes}
use cldctl.State.Paths.{path_join}
use cldctl.Planner.{delete}

-- The file system, and the locks that this process holds.
pub record Disk (F : Type 0) : Type 0 where
  pub files : F
  pub locks : Dict LockInfo

-- An error of `os`, wrapped with `%w`.
unfoldable pub wrapped : OsError → StateError
wrapped not_exist = other (codes "file does not exist")
wrapped (failed m) = other m

-- The error of the copy, or else that of the `Close`.
unfoldable pub first_error : Option OsError → Option OsError → Option OsError
first_error (some e) later = some e
first_error none later = later

-- `path + ".lock"`
unfoldable pub lock_name : Text → Text
lock_name p = p ++ codes ".lock"

-- `time.Hour`, in seconds.
abbrev pub hour : ℕ
hour = 3600

module _ {F : Type 0} (os : Os F) where
  -- `Write`, from the copy to the temporary file on.
  unfoldable pub fill_temp : F → Text → Text → Text → F × Option OsError
  unfolding first_error
  fill_temp fs temp full content =
      let (fs', copy_error) = os.copy_to fs temp content in
      let (closed, close_error) = os.close fs' temp in
      elim (first_error copy_error close_error) [
        | some e ↦ ((os.remove closed temp).0, some e)
        | none ↦
            let (moved, error) = os.rename closed temp full in
            elim error [ some e ↦ ((os.remove moved temp).0, some e) | none ↦ (moved, none) ]
      ]

  -- `Write` of a full path.
  unfoldable pub write_full : F → Text → Text → F × Option OsError
  unfolding fill_temp
  write_full fs full content =
      let (fs', error) = os.mkdir_all fs (os.dir full) in
      elim error [
        | some e ↦ (fs', some e)
        | none ↦
            let (fs'', created) = os.create_temp fs' (os.dir full) in
            elim created [ err e ↦ (fs'', some e) | ok temp ↦ fill_temp fs'' temp full content ]
      ]

  -- `os.Remove`, for which a missing file is no error.
  unfoldable pub remove_full : F → Text → F × Option StateError
  remove_full fs full =
      let (fs', error) = os.remove fs full in
      (
        fs',
        elim error [
          | none ↦ none
          | some e ↦ elim e [ not_exist ↦ none | failed m ↦ some (other m) ]
        ],
      )

  -- The function that `List` hands to `filepath.Walk`, over what it is called with.
  unfoldable pub collect_files : Text → List (Text × Visit) → Result OsError (List Text)
  collect_files base_path [] = ok []
  collect_files base_path ((p, unvisited not_exist) ∷ visits) = collect_files base_path visits
  collect_files base_path ((p, unvisited (failed m)) ∷ visits) = err (failed m)
  collect_files base_path ((p, directory) ∷ visits) = collect_files base_path visits
  collect_files base_path ((p, file) ∷ visits) =
      collect_files base_path visits >>= λ paths. ok (os.rel base_path p ∷ paths)

module _ {F : Type 0} (os : Os F) (base_path : Text) where
  -- `fullPath`
  unfoldable pub full_path : Text → Text
  unfolding path_join
  full_path p = path_join (base_path ∷ p ∷ [])

  -- `Read`
  unfoldable pub read_file : Disk F → Text → Result StateError Text
  unfolding full_path
  read_file disk p = elim (os.read disk.files (full_path p)) [
    | err e ↦ err (elim e [ not_exist ↦ not_found | failed m ↦ other m ])
    | ok content ↦ ok content
  ]

  -- `Write`
  unfoldable pub write_file : Disk F → Text → Text → Disk F × Option StateError
  unfolding full_path write_full wrapped
  write_file disk p content =
      let (fs, error) = write_full os disk.files (full_path p) content in
      (record disk { files = fs }, elim error [ none ↦ none | some e ↦ some (wrapped e) ])

  -- `Delete`
  unfoldable pub delete_file : Disk F → Text → Disk F × Option StateError
  unfolding full_path remove_full
  delete_file disk p =
      let (fs, error) = remove_full os disk.files (full_path p) in
      (record disk { files = fs }, error)

  -- `List`
  unfoldable pub list_files : Disk F → Text → Result StateError (List Text)
  unfolding full_path collect_files wrapped
  list_files disk prefix =
      elim (collect_files os base_path (os.walk disk.files (full_path prefix))) [
        | err e ↦ err (wrapped e)
        | ok paths ↦ ok paths
      ]

  -- `Exists`
  unfoldable pub exists_file : Disk F → Text → Result StateError Bool
  unfolding full_path
  exists_file disk p = elim (os.stat disk.files (full_path p)) [
    | none ↦ ok true
    | some e ↦ elim e [ not_exist ↦ ok false | failed m ↦ err (other m) ]
  ]

  -- `Unlock`
  unfoldable pub drop_lock : Disk F → LockInfo → Disk F × Option StateError
  unfolding lock_name delete_file
  drop_lock disk info =
      delete_file (record disk { locks = remove disk.locks (lock_name info.path) })
        (lock_name info.path)

  -- `now` is the time, `new_id` a fresh UUID, and `codec` what `encoding/json` does with a `LockInfo`.
  module _ (codec : Codec LockInfo) (now : ℕ) (new_id : Text) where
    -- The holder of a lock: in this process, or in a lock file that is not stale.
    unfoldable pub holder : Disk F → Text → Option LockInfo
    unfolding lock_name full_path
    holder disk p = elim (get disk.locks (lock_name p)) [
      | some info ↦ some info
      | none ↦ elim (os.read disk.files (full_path (lock_name p))) [
        | err e ↦ none
        | ok content ↦ elim (codec.decode content) [
          | err e ↦ none
          | ok info ↦ if ltb (now - info.created) hour then some info else none
        ]
      ]
    ]

    -- `Lock`, from the lock file on.
    unfoldable pub write_lock : Disk F → Text → LockInfo → Disk F × Result StateError LockInfo
    unfolding lock_name full_path wrapped
    write_lock disk p mine = elim (codec.encode mine) [
      | err e ↦ (disk, err e)
      | ok content ↦
          let full = full_path (lock_name p) in
          let (fs, dir_error) = os.mkdir_all disk.files (os.dir full) in
          elim dir_error [
            | some e ↦ (record disk { files = fs }, err (wrapped e))
            | none ↦
                let (fs', error) = os.write fs full content in
                elim error [
                  | some e ↦ (record disk { files = fs' }, err (wrapped e))
                  | none ↦
                      (record { files = fs'; locks = put disk.locks (lock_name p) mine }, ok mine)
                ]
          ]
    ]

    -- `Lock`
    unfoldable pub take_lock : Disk F → Text → LockInfo → Disk F × Result StateError LockInfo
    unfolding holder write_lock
    take_lock disk p info = elim (holder disk p) [
      | some other_info ↦ (disk, err (locked other_info.who other_info.operation))
      | none ↦ write_lock disk p (record info { id = new_id; path = p; created = now })
    ]

    -- The backend.
    unfoldable pub local_backend : Backend (Disk F)
    unfolding read_file write_file delete_file list_files exists_file take_lock drop_lock
    local_backend = record {
      read = read_file;
      write = write_file;
      delete = delete_file;
      list = list_files;
      exists = exists_file;
      lock = take_lock;
      unlock = drop_lock;
    }
