-- ===== src/Samples/States.antt =====
-- States on a disk and in a bucket.
use cldctl.Prelude.{All, List, [], all, none, refl, ◌∷◌, ◌≡◌, ap, arith, keep, sym, ◌++◌}
use cldctl.State.Backend.{LockInfo, not_decoded, is_prefix, is_under, not_found, starts_with}
use cldctl.State.Manager.{
  Codecs, delete_all, delete_environment, delete_under, get_environment, save_component,
  save_environment, write_json,
}
use cldctl.State.Local.{
  Disk, collect_files, delete_file, fill_temp, first_error, full_path, list_files, local_backend,
  remove_full, take_lock, write_file, write_full,
}
use cldctl.Types.{EnvironmentState}
use cldctl.State.Paths.Laws.{IsClean, IsName, is_plain_piece}
use cldctl.State.Refine.{
  IsNamed, IsCoded, Operation, deletes_environment, saves_component, saves_environment, perform,
}
use cldctl.Text.{Text, codes, same}
use cldctl.State.Paths.{
  cons_first, split_slash, clean, component_path, environment_path, is_rooted, join_slash,
  path_join, resolve, split_file, split_path,
}
use cldctl.Prelude.Results.{err, ok}
use cldctl.State.Runs.{perform_all, perform_all-refines, updated_all}
use cldctl.Samples.Plans.{stored_env, stored_web}
use cldctl.Samples.{web}
use cldctl.Dict.{Dict, get, keys, put, remove}
use cldctl.Samples.Memory.{
  bucket_backend, bucket_backend-IsListing, bucket_backend-IsStore, disk_backend,
  disk_backend-IsListing, disk_backend-IsStore, lock_codec, memory,
}
use cldctl.State.Prefixes.{delete_environment-takes_longer}
use cldctl.State.Paths.Pieces.{environment_file}
use cldctl.State.Paths.Clean.{split_path-environment_path}

abbrev local : Text
local = codes "local"

abbrev dev : Text
dev = codes "dev"

abbrev dev_env : EnvironmentState
dev_env = record stored_env { name = dev }

abbrev codecs : Codecs
codecs = record {
  datacenter = record { encode = λ x. ok x.name; decode = λ t. err not_decoded };
  datacenter_component = record { encode = λ x. ok x.name; decode = λ t. err not_decoded };
  environment = record {
    encode = λ x. ok x.name;
    decode = λ t. ok (record stored_env { name = t });
  };
  component = record { encode = λ x. ok x.name; decode = λ t. err not_decoded };
  resource = record { encode = λ x. ok x.name; decode = λ t. err not_decoded };
}

abbrev empty_disk : Disk (Dict Text)
empty_disk = record { files = []; locks = [] }

abbrev operations : List Operation
operations =
    saves_environment local dev_env
    ∷ saves_component local dev stored_web
    ∷ deletes_environment local (codes "old")
    ∷ []

local-IsName : IsName local
unfolding split_slash cons_first is_plain_piece all same
local-IsName = record { is_clean = refl; single = refl }

dev-IsName : IsName dev
unfolding split_slash cons_first is_plain_piece all same
dev-IsName = record { is_clean = refl; single = refl }

dev2-IsName : IsName (codes "dev2")
unfolding split_slash cons_first is_plain_piece all same
dev2-IsName = record { is_clean = refl; single = refl }

old-IsName : IsName (codes "old")
unfolding split_slash cons_first is_plain_piece all same
old-IsName = record { is_clean = refl; single = refl }

web-IsClean : IsClean web
unfolding split_slash cons_first is_plain_piece all same
web-IsClean = refl

operations-IsNamed : All IsNamed operations
operations-IsNamed = (
  (local-IsName, dev-IsName),
  ((local-IsName, dev-IsName, web-IsClean), ((local-IsName, old-IsName), tt)),
)

coded : (content : Text) → dev ≡ content → codecs.environment.decode content ≡ ok dev_env
coded content e = ap (λ t. ok (record stored_env { name = t })) (sym e)

operations-IsCoded : All (IsCoded disk_backend codecs) operations
operations-IsCoded = ((λ content e. coded content (ground (arith, e))), (tt, (tt, tt)))

operations-fine : (perform_all disk_backend codecs operations empty_disk).1 ≡ none
unfolding perform_all perform save_environment save_component delete_environment write_json
    delete_under delete_all local_backend write_file delete_file list_files full_path write_full
    fill_temp first_error remove_full collect_files environment_path component_path path_join clean
    split_slash cons_first join_slash resolve is_rooted same keep keys all is_plain_piece is_under
    is_prefix put get remove split_file
operations-fine = refl

perform_all-refines_example :
    get_environment disk_backend codecs
      (perform_all disk_backend codecs operations empty_disk).0
      local
      dev
    ≡ updated_all operations (get_environment disk_backend codecs empty_disk) local dev
perform_all-refines_example =
    perform_all-refines disk_backend codecs operations empty_disk local dev disk_backend-IsStore
      disk_backend-IsListing operations-IsNamed operations-IsCoded local-IsName dev-IsName
      operations-fine

split_path-environment_path_example :
    split_path (environment_path local dev)
    ≡ codes "datacenters" ∷ local ∷ codes "environments" ∷ dev ∷ environment_file ∷ []
split_path-environment_path_example = split_path-environment_path local dev local-IsName dev-IsName

abbrev two_environments : Disk (Dict Text)
two_environments = record empty_disk {
  files =
      (codes "datacenters/local/environments/dev/environment.state.json", dev)
      ∷ (codes "datacenters/local/environments/dev2/environment.state.json", codes "dev2")
      ∷ [];
}

deleted_dev : (delete_environment bucket_backend two_environments local dev).1 ≡ none
unfolding delete_environment delete_under delete_all local_backend delete_file full_path remove_full
    path_join clean split_slash cons_first join_slash resolve is_rooted same keep keys all
    is_plain_piece starts_with get remove
deleted_dev = refl

delete_environment-takes_longer_example :
    get_environment bucket_backend codecs
      (delete_environment bucket_backend two_environments local dev).0
      local
      (dev ++ codes "2")
    ≡ err not_found
delete_environment-takes_longer_example =
    delete_environment-takes_longer bucket_backend codecs two_environments local dev (codes "2")
      bucket_backend-IsStore bucket_backend-IsListing local-IsName dev-IsName dev2-IsName
      deleted_dev

abbrev request : LockInfo
request = record { id = []; path = []; who = codes "ci"; operation = codes "deploy"; created = 0 }

abbrev lock_path : Text
lock_path = codes "datacenters/local/environments/dev"

abbrev locked_disk : Disk (Dict Text)
locked_disk = (take_lock memory [] lock_codec 0 (codes "id") empty_disk lock_path request).0

abbrev lock_of_request : LockInfo
lock_of_request = record request { id = codes "id"; path = lock_path }

abbrev dev_document : Text
dev_document = codes "datacenters/local/environments/dev/environment.state.json"
