-- ===== src/State/Manager.antt =====
-- pkg/state/manager.go: the operations of the manager.
-- What `encoding/json` does with the documents of a type.
use cldctl.State.Backend.{Backend, LockInfo, StateError, not_deleted}
use cldctl.Types.{
  ComponentState, DatacenterComponentConfig, DatacenterState, EnvironmentRef, EnvironmentState,
  ResourceState,
}
use cldctl.Prelude.{List, Option, [], if◌then◌else◌, none, some, suc, zero, ℕ, ◌++◌, ◌∷◌}
use cldctl.Prelude.Results.{Result, err, ok}
use cldctl.Text.{Text, codes, same}
use cldctl.Graph.{append_new}
use cldctl.State.Paths.{
  component_path, datacenter_component_path, datacenter_path, environment_path, path_join,
  resource_path, split_path,
}

pub record Codec (T : Type 0) : Type 0 where
  pub encode : T → Result StateError Text
  pub decode : Text → Result StateError T

-- The codecs of the types that are stored.
pub record Codecs : Type 0 where
  pub datacenter : Codec DatacenterState
  pub datacenter_component : Codec DatacenterComponentConfig
  pub environment : Codec EnvironmentState
  pub component : Codec ComponentState
  pub resource : Codec ResourceState

pub record LockScope : Type 0 where
  pub datacenter : Text
  pub environment : Text
  pub component : Text
  pub operation : Text
  pub who : Text

-- `names[parts[n]] = true`, if there are that many parts. Go leaves the order of the names open.
unfoldable pub nth : ℕ → List Text → Option Text
nth n [] = none
nth zero (x ∷ xs) = some x
nth (suc n) (x ∷ xs) = nth n xs

unfoldable pub names_at : ℕ → List Text → List Text → List Text
unfolding nth split_path append_new
names_at n [] names = names
names_at n (p ∷ paths) names = elim (nth n (split_path p)) [
  | none ↦ names_at n paths names
  | some name ↦ names_at n paths (append_new name names)
]

module _ {S : Type 0} (b : Backend S) where
  -- `readJSON`
  unfoldable pub read_json : {T : Type 0} → Codec T → S → Text → Result StateError T
  read_json codec s p = elim (b.read s p) [ err e ↦ err e | ok content ↦ codec.decode content ]

  -- `writeJSON`
  unfoldable pub write_json : {T : Type 0} → Codec T → S → Text → T → S × Option StateError
  write_json codec s p document = elim (codec.encode document) [
    | err e ↦ (s, some e)
    | ok content ↦ b.write s p content
  ]

  -- The loops of the operations that delete whatever stands under a path.
  unfoldable pub delete_all : List Text → S → S × Option StateError
  delete_all [] s = (s, none)
  delete_all (p ∷ paths) s =
      let (s', error) = b.delete s p in
      elim error [ some e ↦ (s', some (not_deleted p e)) | none ↦ delete_all paths s' ]

  unfoldable pub delete_under : Text → S → S × Option StateError
  unfolding delete_all
  delete_under p s = elim (b.list s p) [ err e ↦ (s, some e) | ok paths ↦ delete_all paths s ]

  unfoldable pub delete_datacenter : S → Text → S × Option StateError
  unfolding delete_under path_join
  delete_datacenter s name = delete_under (path_join (codes "datacenters" ∷ name ∷ [])) s

  unfoldable pub list_datacenters : S → Result StateError (List Text)
  unfolding names_at
  list_datacenters s = elim (b.list s (codes "datacenters/")) [
    | err e ↦ err e
    | ok paths ↦ ok (names_at 1 paths [])
  ]

  unfoldable pub delete_datacenter_component : S → Text → Text → S × Option StateError
  unfolding datacenter_component_path
  delete_datacenter_component s dc component = b.delete s (datacenter_component_path dc component)

  unfoldable pub delete_environment : S → Text → Text → S × Option StateError
  unfolding delete_under path_join
  delete_environment s dc name =
      delete_under (path_join (codes "datacenters" ∷ dc ∷ codes "environments" ∷ name ∷ [])) s

  unfoldable pub delete_component : S → Text → Text → Text → S × Option StateError
  unfolding delete_under path_join
  delete_component s dc env component =
      delete_under
        (path_join (
          codes "datacenters"
          ∷ dc
          ∷ codes "environments"
          ∷ env
          ∷ codes "components"
          ∷ component
          ∷ []))
        s

  unfoldable pub delete_resource : S → Text → Text → Text → Text → S × Option StateError
  unfolding resource_path
  delete_resource s dc env component resource = b.delete s (resource_path dc env component resource)

  unfoldable pub lock : S → LockScope → S × Result StateError LockInfo
  unfolding path_join
  lock s scope =
      let environment_lock =
        path_join (
          codes "datacenters" ∷ scope.datacenter ∷ codes "environments" ∷ scope.environment ∷ []) in
      let lock_path =
        if same scope.component []
        then environment_lock
        else path_join (environment_lock ∷ scope.component ∷ []) in
      b.lock s lock_path
        (record { id = []; path = []; who = scope.who; operation = scope.operation; created = 0 })

module _ {S : Type 0} (b : Backend S) (codecs : Codecs) where
  unfoldable pub get_datacenter : S → Text → Result StateError DatacenterState
  unfolding read_json datacenter_path
  get_datacenter s name = read_json b codecs.datacenter s (datacenter_path name)

  unfoldable pub save_datacenter : S → DatacenterState → S × Option StateError
  unfolding write_json datacenter_path
  save_datacenter s state = write_json b codecs.datacenter s (datacenter_path state.name) state

  unfoldable pub get_datacenter_component :
      S → Text → Text → Result StateError DatacenterComponentConfig
  unfolding read_json datacenter_component_path
  get_datacenter_component s dc component =
      read_json b codecs.datacenter_component s (datacenter_component_path dc component)

  unfoldable pub save_datacenter_component :
      S → Text → DatacenterComponentConfig → S × Option StateError
  unfolding write_json datacenter_component_path
  save_datacenter_component s dc state =
      write_json b codecs.datacenter_component s (datacenter_component_path dc state.name) state

  -- A file that cannot be read is skipped.
  unfoldable pub read_components : S → List Text → List DatacenterComponentConfig
  unfolding read_json
  read_components s [] = []
  read_components s (p ∷ paths) = elim (read_json b codecs.datacenter_component s p) [
    | err e ↦ read_components s paths
    | ok comp ↦ comp ∷ read_components s paths
  ]

  unfoldable pub list_datacenter_components :
      S → Text → Result StateError (List DatacenterComponentConfig)
  unfolding path_join
  list_datacenter_components s dc =
      elim (b.list s
        (path_join (codes "datacenters" ∷ dc ∷ codes "components" ∷ []) ++ codes "/")) [
          | err e ↦ err e
          | ok paths ↦ ok (read_components s paths)
        ]

  unfoldable pub get_environment : S → Text → Text → Result StateError EnvironmentState
  unfolding read_json environment_path
  get_environment s dc name = read_json b codecs.environment s (environment_path dc name)

  unfoldable pub save_environment : S → Text → EnvironmentState → S × Option StateError
  unfolding write_json environment_path
  save_environment s dc state =
      write_json b codecs.environment s (environment_path dc state.name) state

  unfoldable pub read_refs : S → Text → List Text → List EnvironmentRef
  read_refs s dc [] = []
  read_refs s dc (name ∷ names) = elim (get_environment s dc name) [
    | err e ↦ read_refs s dc names
    | ok state ↦ record { name = state.name; datacenter = state.datacenter } ∷ read_refs s dc names
  ]

  unfoldable pub list_environments : S → Text → Result StateError (List EnvironmentRef)
  unfolding path_join names_at
  list_environments s dc =
      elim (b.list s
        (path_join (codes "datacenters" ∷ dc ∷ codes "environments" ∷ []) ++ codes "/")) [
          | err e ↦ err e
          | ok paths ↦ ok (read_refs s dc (names_at 3 paths []))
        ]

  unfoldable pub get_component : S → Text → Text → Text → Result StateError ComponentState
  unfolding read_json component_path
  get_component s dc env component =
      read_json b codecs.component s (component_path dc env component)

  unfoldable pub save_component : S → Text → Text → ComponentState → S × Option StateError
  unfolding write_json component_path
  save_component s dc env state =
      write_json b codecs.component s (component_path dc env state.name) state

  unfoldable pub get_resource : S → Text → Text → Text → Text → Result StateError ResourceState
  unfolding read_json resource_path
  get_resource s dc env component resource =
      read_json b codecs.resource s (resource_path dc env component resource)

  unfoldable pub save_resource : S → Text → Text → Text → ResourceState → S × Option StateError
  unfolding write_json resource_path
  save_resource s dc env component state =
      write_json b codecs.resource s
        (resource_path dc env component (state.type ++ b'.' ∷ state.name)) state
