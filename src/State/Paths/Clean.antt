-- ===== src/State/Paths/Clean.antt =====
-- pkg/state/manager.go: the paths that the manager builds are clean, and are taken apart again.
use cldctl.State.Paths.Laws.{IsClean, IsName, path_join-IsClean}
use cldctl.Text.{Text, codes}
use cldctl.Prelude.{[], ◌++◌, ◌∷◌, ◌∙◌, ◌≡◌}
use cldctl.State.Paths.Pieces.{
  component_file, component_file-IsClean, components-IsClean, datacenter_file,
  datacenter_file-IsClean, datacenters-IsClean, environment_file, environment_file-IsClean,
  environments-IsClean, json-IsClean, resources-IsClean, environment_path-pieces,
}
use cldctl.State.Paths.{
  component_path, datacenter_component_path, datacenter_path, environment_path, resource_path,
  path_join, split_path,
}
use cldctl.State.Paths.RoundTrip.{split_path-IsClean}

pub datacenter_path-IsClean : (dc : Text) → IsName dc → IsClean (datacenter_path dc)
unfolding datacenter_path
datacenter_path-IsClean dc d =
    path_join-IsClean (codes "datacenters") (dc ∷ datacenter_file ∷ [])
      (datacenters-IsClean, (d.is_clean, (datacenter_file-IsClean, tt)))

pub environment_path-IsClean :
    (dc env : Text) → IsName dc → IsName env → IsClean (environment_path dc env)
unfolding environment_path
environment_path-IsClean dc env d n =
    path_join-IsClean (codes "datacenters")
      (dc ∷ codes "environments" ∷ env ∷ environment_file ∷ [])
      (
        datacenters-IsClean,
        (d.is_clean, (environments-IsClean, (n.is_clean, (environment_file-IsClean, tt)))),
      )

pub component_path-IsClean :
    (dc env component : Text)
    → IsName dc
    → IsName env
    → IsClean component
    → IsClean (component_path dc env component)
unfolding component_path
component_path-IsClean dc env component d n c =
    path_join-IsClean (codes "datacenters")
      (dc ∷ codes "environments" ∷ env ∷ codes "components" ∷ component ∷ component_file ∷ [])
      (
        datacenters-IsClean,
        (
          d.is_clean,
          (
            environments-IsClean,
            (n.is_clean, (components-IsClean, (c, (component_file-IsClean, tt)))),
          ),
        ),
      )

pub datacenter_component_path-IsClean :
    (dc component : Text)
    → IsName dc
    → IsClean component
    → IsClean (datacenter_component_path dc component)
unfolding datacenter_component_path
datacenter_component_path-IsClean dc component d c =
    path_join-IsClean (codes "datacenters")
      (dc ∷ codes "components" ∷ (component ++ codes ".state.json") ∷ [])
      (datacenters-IsClean, (d.is_clean, (components-IsClean, (json-IsClean component c, tt))))

pub resource_path-IsClean :
    (dc env component resource : Text)
    → IsName dc
    → IsName env
    → IsClean component
    → IsClean resource
    → IsClean (resource_path dc env component resource)
unfolding resource_path
resource_path-IsClean dc env component resource d n c r =
    path_join-IsClean (codes "datacenters")
      (dc
        ∷ codes "environments"
        ∷ env
        ∷ codes "components"
        ∷ component
        ∷ codes "resources"
        ∷ (resource ++ codes ".state.json")
        ∷ [])
      (
        datacenters-IsClean,
        (
          d.is_clean,
          (
            environments-IsClean,
            (
              n.is_clean,
              (components-IsClean, (c, (resources-IsClean, (json-IsClean resource r, tt)))),
            ),
          ),
        ),
      )

pub datacenter_directory-IsClean :
    (dc : Text) → IsName dc → IsClean (path_join (codes "datacenters" ∷ dc ∷ []))
datacenter_directory-IsClean dc d =
    path_join-IsClean (codes "datacenters") (dc ∷ []) (datacenters-IsClean, (d.is_clean, tt))

pub environment_directory-IsClean :
    (dc env : Text)
    → IsName dc
    → IsName env
    → IsClean (path_join (codes "datacenters" ∷ dc ∷ codes "environments" ∷ env ∷ []))
environment_directory-IsClean dc env d n =
    path_join-IsClean (codes "datacenters") (dc ∷ codes "environments" ∷ env ∷ [])
      (datacenters-IsClean, (d.is_clean, (environments-IsClean, (n.is_clean, tt))))

pub component_directory-IsClean :
    (dc env component : Text)
    → IsName dc
    → IsName env
    → IsClean component
    → IsClean (
        path_join (
          codes "datacenters"
          ∷ dc
          ∷ codes "environments"
          ∷ env
          ∷ codes "components"
          ∷ component
          ∷ []))
component_directory-IsClean dc env component d n c =
    path_join-IsClean (codes "datacenters")
      (dc ∷ codes "environments" ∷ env ∷ codes "components" ∷ component ∷ [])
      (
        datacenters-IsClean,
        (d.is_clean, (environments-IsClean, (n.is_clean, (components-IsClean, (c, tt))))),
      )

-- `splitPath` gives back what an environment's path was joined from, if the names of the
-- datacenter and the environment have no slash and are not empty, a dot or two dots.
pub split_path-environment_path :
    (dc env : Text)
    → IsName dc
    → IsName env
    → split_path (environment_path dc env)
      ≡ codes "datacenters" ∷ dc ∷ codes "environments" ∷ env ∷ environment_file ∷ []
split_path-environment_path dc env d n =
    split_path-IsClean (environment_path dc env) (environment_path-IsClean dc env d n)
    ∙ environment_path-pieces dc env d n
