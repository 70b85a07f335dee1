-- ===== src/State/Paths/Pieces.antt =====
-- pkg/state/manager.go: the pieces of the paths that the manager builds.
use cldctl.Prelude.{
  List, List-cases, [], all, ap, arith, inl, inr, refl, true, ◌++◌, ◌∙◌, ◌∷◌, ◌≡◌, append-nil,
}
use cldctl.State.Paths.Laws.{
  IsClean, IsName, is_plain_piece, path_join-of_clean, pieces, split-cons,
}
use cldctl.Text.{Text, codes, same}
use cldctl.State.Paths.{
  cons_first, environment_path, split_slash, component_path, datacenter_component_path,
  datacenter_path, path_join, resource_path,
}

-- A name that gets a suffix without a slash stays clean.
append_last : List Text → Text → List Text
append_last [] suffix = suffix ∷ []
append_last (x ∷ []) suffix = (x ++ suffix) ∷ []
append_last (x ∷ y ∷ ys) suffix = x ∷ append_last (y ∷ ys) suffix

split-suffix :
    (t suffix : Text)
    → split_slash suffix ≡ suffix ∷ []
    → split_slash (t ++ suffix) ≡ append_last (split_slash t) suffix
unfolding split_slash cons_first append_last
split-suffix [] suffix h = h
split-suffix (c ∷ cs) suffix h = elim (List-cases (split_slash cs)) [
  | inl empty ↦ absurd (split-cons cs empty)
  | inr (x, xs, e) ↦ elim (List-cases xs) [
    | inl last ↦ ground (arith, split-suffix cs suffix h, e, last)
    | inr (y, ys, e') ↦ ground (arith, split-suffix cs suffix h, e, e')
  ]
]

plain-suffix :
    (x : Text) → is_plain_piece x ≡ true → is_plain_piece (x ++ codes ".state.json") ≡ true
unfolding is_plain_piece same
plain-suffix [] h = absurd (ground (arith, h))
plain-suffix (c ∷ []) h = ground arith
plain-suffix (c ∷ d ∷ []) h = ground arith
plain-suffix (c ∷ d ∷ e ∷ x) h = ground arith

append_last-plain :
    (xs : List Text)
    → all is_plain_piece xs ≡ true
    → all is_plain_piece (append_last xs (codes ".state.json")) ≡ true
unfolding append_last all is_plain_piece same
append_last-plain [] h = refl
append_last-plain (x ∷ []) h = ground (arith, plain-suffix x, h)
append_last-plain (x ∷ y ∷ ys) h = ground (arith, append_last-plain (y ∷ ys), h)

pub json-IsClean : (t : Text) → IsClean t → IsClean (t ++ codes ".state.json")
unfolding split_slash cons_first
json-IsClean t h =
    ap (all is_plain_piece) (split-suffix t (codes ".state.json") refl)
    ∙ append_last-plain (split_slash t) h

abbrev pub datacenter_file : Text
datacenter_file = codes "datacenter.state.json"

abbrev pub environment_file : Text
environment_file = codes "environment.state.json"

abbrev pub component_file : Text
component_file = codes "component.state.json"

abbrev pub datacenter_pieces : Text → List Text → List Text
datacenter_pieces dc rest = codes "datacenters" ∷ dc ∷ rest

abbrev pub environment_pieces : Text → Text → List Text → List Text
environment_pieces dc env rest = datacenter_pieces dc (codes "environments" ∷ env ∷ rest)

abbrev pub component_pieces : Text → Text → Text → List Text → List Text
component_pieces dc env component rest =
    environment_pieces dc env (codes "components" ∷ (split_slash component ++ rest))

-- The words that the manager puts into paths.
pub datacenters-IsClean : IsClean (codes "datacenters")
unfolding split_slash cons_first is_plain_piece all same
datacenters-IsClean = refl

pub environments-IsClean : IsClean (codes "environments")
unfolding split_slash cons_first is_plain_piece all same
environments-IsClean = refl

pub components-IsClean : IsClean (codes "components")
unfolding split_slash cons_first is_plain_piece all same
components-IsClean = refl

pub resources-IsClean : IsClean (codes "resources")
unfolding split_slash cons_first is_plain_piece all same
resources-IsClean = refl

pub datacenter_file-IsClean : IsClean datacenter_file
unfolding split_slash cons_first is_plain_piece all same
datacenter_file-IsClean = refl

pub environment_file-IsClean : IsClean environment_file
unfolding split_slash cons_first is_plain_piece all same
environment_file-IsClean = refl

pub component_file-IsClean : IsClean component_file
unfolding split_slash cons_first is_plain_piece all same
component_file-IsClean = refl

pub datacenter_directory-pieces :
    (dc : Text)
    → IsName dc
    → split_slash (path_join (codes "datacenters" ∷ dc ∷ [])) ≡ datacenter_pieces dc []
unfolding pieces split_slash cons_first
datacenter_directory-pieces dc d =
    let joined =
      path_join-of_clean (codes "datacenters") (dc ∷ []) (datacenters-IsClean, (d.is_clean, tt)) in
    ground (arith, joined.1, d.single)

pub datacenter_path-pieces :
    (dc : Text)
    → IsName dc
    → split_slash (datacenter_path dc) ≡ datacenter_pieces dc (datacenter_file ∷ [])
unfolding datacenter_path pieces split_slash cons_first
datacenter_path-pieces dc d =
    let joined =
      path_join-of_clean (codes "datacenters") (dc ∷ datacenter_file ∷ [])
        (datacenters-IsClean, (d.is_clean, (datacenter_file-IsClean, tt))) in
    ground (arith, joined.1, d.single)

pub environment_directory-pieces :
    (dc env : Text)
    → IsName dc
    → IsName env
    → split_slash (path_join (codes "datacenters" ∷ dc ∷ codes "environments" ∷ env ∷ []))
      ≡ environment_pieces dc env []
unfolding pieces split_slash cons_first
environment_directory-pieces dc env d n =
    let joined =
      path_join-of_clean (codes "datacenters") (dc ∷ codes "environments" ∷ env ∷ [])
        (datacenters-IsClean, (d.is_clean, (environments-IsClean, (n.is_clean, tt)))) in
    ground (arith, joined.1, d.single, n.single)

pub environment_path-pieces :
    (dc env : Text)
    → IsName dc
    → IsName env
    → split_slash (environment_path dc env) ≡ environment_pieces dc env (environment_file ∷ [])
unfolding environment_path pieces split_slash cons_first
environment_path-pieces dc env d n =
    let joined =
      path_join-of_clean (codes "datacenters")
        (dc ∷ codes "environments" ∷ env ∷ environment_file ∷ [])
        (
          datacenters-IsClean,
          (d.is_clean, (environments-IsClean, (n.is_clean, (environment_file-IsClean, tt)))),
        ) in
    ground (arith, joined.1, d.single, n.single)

pub component_directory-pieces :
    (dc env component : Text)
    → IsName dc
    → IsName env
    → IsClean component
    → split_slash (
        path_join (
          codes "datacenters"
          ∷ dc
          ∷ codes "environments"
          ∷ env
          ∷ codes "components"
          ∷ component
          ∷ []))
      ≡ component_pieces dc env component []
unfolding pieces split_slash cons_first
component_directory-pieces dc env component d n c =
    let joined =
      path_join-of_clean (codes "datacenters")
        (dc ∷ codes "environments" ∷ env ∷ codes "components" ∷ component ∷ [])
        (
          datacenters-IsClean,
          (d.is_clean, (environments-IsClean, (n.is_clean, (components-IsClean, (c, tt))))),
        ) in
    ground (arith, joined.1, d.single, n.single)

pub component_path-pieces :
    (dc env component : Text)
    → IsName dc
    → IsName env
    → IsClean component
    → split_slash (component_path dc env component)
      ≡ component_pieces dc env component (component_file ∷ [])
unfolding component_path pieces split_slash cons_first
component_path-pieces dc env component d n c =
    let joined =
      path_join-of_clean (codes "datacenters")
        (dc ∷ codes "environments" ∷ env ∷ codes "components" ∷ component ∷ component_file ∷ [])
        (
          datacenters-IsClean,
          (
            d.is_clean,
            (
              environments-IsClean,
              (n.is_clean, (components-IsClean, (c, (component_file-IsClean, tt)))),
            ),
          ),
        ) in
    ground (arith, joined.1, d.single, n.single)

pub datacenter_component_path-pieces :
    (dc component : Text)
    → IsName dc
    → IsClean component
    → split_slash (datacenter_component_path dc component)
      ≡ datacenter_pieces dc (codes "components" ∷ split_slash (component ++ codes ".state.json"))
unfolding datacenter_component_path pieces split_slash cons_first
datacenter_component_path-pieces dc component d c =
    let joined =
      path_join-of_clean (codes "datacenters")
        (dc ∷ codes "components" ∷ (component ++ codes ".state.json") ∷ [])
        (datacenters-IsClean, (d.is_clean, (components-IsClean, (json-IsClean component c, tt)))) in
    ground (arith, joined.1, d.single, append-nil (split_slash (component ++ codes ".state.json")))

pub resource_path-pieces :
    (dc env component resource : Text)
    → IsName dc
    → IsName env
    → IsClean component
    → IsClean resource
    → split_slash (resource_path dc env component resource)
      ≡ component_pieces dc env component
          (codes "resources" ∷ split_slash (resource ++ codes ".state.json"))
unfolding resource_path pieces split_slash cons_first
resource_path-pieces dc env component resource d n c r =
    let joined =
      path_join-of_clean (codes "datacenters")
        (dc
          ∷ codes "environments"
          ∷ env
          ∷ codes "components"
          ∷ component
          ∷ codes "resources"
          ∷ (resource ++ codes ".state.json")
          ∷ [])
        (
          datacenters-IsClean,
          (
            d.is_clean,
            (
              environments-IsClean,
              (
                n.is_clean,
                (components-IsClean, (c, (resources-IsClean, (json-IsClean resource r, tt)))),
              ),
            ),
          ),
        ) in
    ground (
      arith,
      joined.1,
      d.single,
      n.single,
      append-nil (split_slash (resource ++ codes ".state.json")),
    )
