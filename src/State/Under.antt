-- ===== src/State/Under.antt =====
-- pkg/state/manager.go: which files of environments stand under the directories that are deleted.
use cldctl.State.Paths.Laws.{IsClean, IsName, clean-IsClean}
use cldctl.Prelude.{List, [], ap, arith, false, ◌&&◌, ◌∙◌, ◌∷◌, ◌≡◌}
use cldctl.Text.{Text, codes, same, same_refl}
use cldctl.State.Paths.Pieces.{
  component_directory-pieces, datacenter_directory-pieces, datacenter_pieces,
  environment_directory-pieces, environment_file, environment_path-pieces, environment_pieces,
}
use cldctl.State.Paths.{environment_path, path_join, split_slash}
use cldctl.State.Backend.{is_prefix, is_under}
use cldctl.State.Paths.Clean.{
  datacenter_directory-IsClean, component_directory-IsClean, environment_directory-IsClean,
}

under_of :
    (p q : Text) (xs ys : List Text)
    → IsClean p
    → split_slash p ≡ xs
    → split_slash q ≡ ys
    → is_under p q ≡ is_prefix xs ys
unfolding is_under
under_of p q xs ys h hp hq =
    ap (λ t. is_prefix (split_slash t) (split_slash q)) (clean-IsClean p h)
    ∙ ap (λ l. is_prefix l (split_slash q)) hp
    ∙ ap (is_prefix xs) hq

datacenter_prefix :
    (dc dc' env : Text)
    → is_prefix (datacenter_pieces dc []) (environment_pieces dc' env (environment_file ∷ []))
      ≡ same dc dc'
unfolding is_prefix
datacenter_prefix dc dc' env = ground (arith, same_refl (codes "datacenters"))

environment_prefix :
    (dc env dc' env' : Text)
    → is_prefix (environment_pieces dc env []) (environment_pieces dc' env' (environment_file ∷ []))
      ≡ same dc dc' && same env env'
unfolding is_prefix
environment_prefix dc env dc' env' =
    ground (arith, same_refl (codes "datacenters"), same_refl (codes "environments"))

component_prefix :
    (dc env dc' env' : Text) (rest : List Text)
    → is_prefix
        (environment_pieces dc env (codes "components" ∷ rest))
        (environment_pieces dc' env' (environment_file ∷ []))
      ≡ false
unfolding is_prefix same
component_prefix dc env dc' env' rest = ground arith

module _ (dc' env' : Text) (d' : IsName dc') (n' : IsName env') where
  pub datacenter_directory-under :
      (dc : Text)
      → IsName dc
      → is_under (path_join (codes "datacenters" ∷ dc ∷ [])) (environment_path dc' env')
        ≡ same dc dc'
  datacenter_directory-under dc d =
      under_of (path_join (codes "datacenters" ∷ dc ∷ [])) (environment_path dc' env') _ _
        (datacenter_directory-IsClean dc d) (datacenter_directory-pieces dc d)
        (environment_path-pieces dc' env' d' n')
      ∙ datacenter_prefix dc dc' env'

  pub environment_directory-under :
      (dc env : Text)
      → IsName dc
      → IsName env
      → is_under
          (path_join (codes "datacenters" ∷ dc ∷ codes "environments" ∷ env ∷ []))
          (environment_path dc' env')
        ≡ same dc dc' && same env env'
  environment_directory-under dc env d n =
      under_of (path_join (codes "datacenters" ∷ dc ∷ codes "environments" ∷ env ∷ []))
        (environment_path dc' env') _ _ (environment_directory-IsClean dc env d n)
        (environment_directory-pieces dc env d n) (environment_path-pieces dc' env' d' n')
      ∙ environment_prefix dc env dc' env'

  pub component_directory-under :
      (dc env component : Text)
      → IsName dc
      → IsName env
      → IsClean component
      → is_under
          (path_join (
            codes "datacenters"
            ∷ dc
            ∷ codes "environments"
            ∷ env
            ∷ codes "components"
            ∷ component
            ∷ []))
          (environment_path dc' env')
        ≡ false
  component_directory-under dc env component d n c =
      under_of
        (path_join (
          codes "datacenters"
          ∷ dc
          ∷ codes "environments"
          ∷ env
          ∷ codes "components"
          ∷ component
          ∷ []))
        (environment_path dc' env') _ _ (component_directory-IsClean dc env component d n c)
        (component_directory-pieces dc env component d n c) (environment_path-pieces dc' env' d' n')
      ∙ component_prefix dc env dc' env' _
