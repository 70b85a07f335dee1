-- ===== src/State/Apart.antt =====
-- pkg/state/manager.go: no other document stands in the file of an environment.
use cldctl.State.Paths.Laws.{IsClean, IsName, same-split, same_pieces}
use cldctl.Prelude.{List, [], ap, arith, false, ◌&&◌, ◌∙◌, ◌∷◌, ◌≡◌}
use cldctl.Text.{Text, codes, same, same_refl}
use cldctl.State.Paths.{
  component_path, datacenter_component_path, datacenter_path, environment_path, resource_path,
  split_slash,
}
use cldctl.State.Paths.Pieces.{
  component_path-pieces, datacenter_component_path-pieces, datacenter_file, datacenter_path-pieces,
  datacenter_pieces, environment_file, environment_path-pieces, environment_pieces,
  resource_path-pieces,
}

pub environment_path-same :
    (dc env dc' env' : Text)
    → IsName dc
    → IsName env
    → IsName dc'
    → IsName env'
    → same (environment_path dc env) (environment_path dc' env') ≡ same dc dc' && same env env'
unfolding same_pieces
environment_path-same dc env dc' env' d n d' n' =
    same-split (environment_path dc env) (environment_path dc' env')
    ∙ ground (
      arith,
      ap (λ l. same_pieces l (split_slash (environment_path dc' env')))
          (environment_path-pieces dc env d n),
      ap (same_pieces (environment_pieces dc env (environment_file ∷ [])))
          (environment_path-pieces dc' env' d' n'),
      same_refl (codes "datacenters"),
      same_refl (codes "environments"),
      same_refl environment_file,
    )

-- A path that starts in another way.
apart_of :
    (p q : Text) (xs ys : List Text)
    → split_slash p ≡ xs
    → split_slash q ≡ ys
    → same_pieces xs ys ≡ false
    → same p q ≡ false
apart_of p q xs ys hp hq h =
    same-split p q ∙ ap (λ l. same_pieces l (split_slash q)) hp ∙ ap (same_pieces xs) hq ∙ h

datacenter_apart :
    (dc dc' env : Text)
    → same_pieces
        (datacenter_pieces dc (datacenter_file ∷ []))
        (environment_pieces dc' env (environment_file ∷ []))
      ≡ false
unfolding same_pieces same
datacenter_apart dc dc' env = ground arith

shared_apart :
    (dc dc' env : Text) (rest : List Text)
    → same_pieces
        (datacenter_pieces dc (codes "components" ∷ rest))
        (environment_pieces dc' env (environment_file ∷ []))
      ≡ false
unfolding same_pieces same
shared_apart dc dc' env rest = ground arith

component_apart :
    (dc env dc' env' : Text) (rest : List Text)
    → same_pieces
        (environment_pieces dc env (codes "components" ∷ rest))
        (environment_pieces dc' env' (environment_file ∷ []))
      ≡ false
unfolding same_pieces same
component_apart dc env dc' env' rest = ground arith

module _ (dc' env' : Text) (d' : IsName dc') (n' : IsName env') where
  pub datacenter_path-apart :
      (dc : Text) → IsName dc → same (datacenter_path dc) (environment_path dc' env') ≡ false
  datacenter_path-apart dc d =
      apart_of (datacenter_path dc) (environment_path dc' env') _ _ (datacenter_path-pieces dc d)
        (environment_path-pieces dc' env' d' n') (datacenter_apart dc dc' env')

  pub datacenter_component_path-apart :
      (dc component : Text)
      → IsName dc
      → IsClean component
      → same (datacenter_component_path dc component) (environment_path dc' env') ≡ false
  datacenter_component_path-apart dc component d c =
      apart_of (datacenter_component_path dc component) (environment_path dc' env') _ _
        (datacenter_component_path-pieces dc component d c) (environment_path-pieces dc' env' d' n')
        (shared_apart dc dc' env' _)

  pub component_path-apart :
      (dc env component : Text)
      → IsName dc
      → IsName env
      → IsClean component
      → same (component_path dc env component) (environment_path dc' env') ≡ false
  component_path-apart dc env component d n c =
      apart_of (component_path dc env component) (environment_path dc' env') _ _
        (component_path-pieces dc env component d n c) (environment_path-pieces dc' env' d' n')
        (component_apart dc env dc' env' _)

  pub resource_path-apart :
      (dc env component resource : Text)
      → IsName dc
      → IsName env
      → IsClean component
      → IsClean resource
      → same (resource_path dc env component resource) (environment_path dc' env') ≡ false
  resource_path-apart dc env component resource d n c r =
      apart_of (resource_path dc env component resource) (environment_path dc' env') _ _
        (resource_path-pieces dc env component resource d n c r)
        (environment_path-pieces dc' env' d' n') (component_apart dc env dc' env' _)
