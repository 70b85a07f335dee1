-- ===== src/State/Runs.antt =====
-- pkg/state/manager.go: operations one after the other.
use cldctl.Prelude.{
  All, List, Option, Option-cases, [], ap, arith, inl, inr, none, refl, some, sym, ◌∙◌, ◌∷◌, ◌≡◌,
}
use cldctl.State.Backend.{Backend, IsListing, IsStore, StateError, is_under}
use cldctl.State.Manager.{Codecs, get_environment}
use cldctl.State.Refine.{
  IsNamed, Environments, IsCoded, Operation, deletes_component, deletes_datacenter,
  deletes_environment, deletes_resource, deletes_shared, perform, perform_lem, saves_component,
  saves_datacenter, saves_environment, saves_resource, saves_shared, updated,
}
use cldctl.State.Paths.Laws.{IsName}
use cldctl.Text.{Text}
use cldctl.Executor.{store}

unfoldable pub updated_all : List Operation → Environments → Environments
unfolding updated
updated_all [] m = m
updated_all (op ∷ ops) m = updated_all ops (updated op m)

-- What an operation does to an environment depends on that environment only.
updated-at :
    (op : Operation) (m m' : Environments) (dc env : Text)
    → m dc env ≡ m' dc env
    → updated op m dc env ≡ updated op m' dc env
unfolding updated
updated-at (saves_datacenter state) m m' dc env h = h
updated-at (deletes_datacenter name) m m' dc env h = ground (arith, h)
updated-at (saves_shared dc' state) m m' dc env h = h
updated-at (deletes_shared dc' component) m m' dc env h = h
updated-at (saves_environment dc' state) m m' dc env h = ground (arith, h)
updated-at (deletes_environment dc' name) m m' dc env h = ground (arith, h)
updated-at (saves_component dc' env' state) m m' dc env h = h
updated-at (deletes_component dc' env' component) m m' dc env h = h
updated-at (saves_resource dc' env' component state) m m' dc env h = h
updated-at (deletes_resource dc' env' component resource) m m' dc env h = h

updated_all-at :
    (ops : List Operation) (m m' : Environments) (dc env : Text)
    → m dc env ≡ m' dc env
    → updated_all ops m dc env ≡ updated_all ops m' dc env
unfolding updated_all
updated_all-at [] m m' dc env h = h
updated_all-at (op ∷ ops) m m' dc env h =
    updated_all-at ops (updated op m) (updated op m') dc env (updated-at op m m' dc env h)

module _ {S : Type 0} (b : Backend S) (codecs : Codecs) where
  -- Operations up to the first that fails.
  unfoldable pub perform_all : List Operation → S → S × Option StateError
  unfolding perform
  perform_all [] s = (s, none)
  perform_all (op ∷ ops) s =
      let (s', error) = perform b codecs op s in
      elim error [ some e ↦ (s', some e) | none ↦ perform_all ops s' ]

-- Operations that return no error do to the environments what they do to a map from datacenters
-- and names to environments: the manager refines the map, over each backend that keeps what is
-- written, and lists what stands under a directory. The names of datacenters and environments
-- are single pieces of a path, those of components and resources clean paths, where no piece is
-- empty, a dot or two dots; and the codec decodes what it encoded, for the environments that are
-- saved.
pub perform_all-refines :
    {S : Type 0} (b : Backend S) (codecs : Codecs) (ops : List Operation) (s : S) (dc env : Text)
    → IsStore b
    → IsListing b is_under
    → All IsNamed ops
    → All (IsCoded b codecs) ops
    → IsName dc
    → IsName env
    → (perform_all b codecs ops s).1 ≡ none
    → get_environment b codecs (perform_all b codecs ops s).0 dc env
      ≡ updated_all ops (get_environment b codecs s) dc env
unfolding perform_all updated_all
perform_all-refines b codecs [] s dc env store listing named coded d n h = refl
perform_all-refines b codecs (op ∷ ops) s dc env store listing named coded d n h =
    let s' = (perform b codecs op s).0 in
    elim (Option-cases (perform b codecs op s).1) [
      | inr (e, failed) ↦ absurd (ground (arith, failed, h))
      | inl fine ↦
          let after : perform_all b codecs (op ∷ ops) s ≡ perform_all b codecs ops s' =
            ground (arith, fine) in
          let rest =
            perform_all-refines b codecs ops s' dc env store listing named.1 coded.1 d n
              (sym (ap (λ r. r.1) after) ∙ h) in
          let first = perform_lem b codecs store listing op s dc env named.0 coded.0 d n fine in
          ap (λ r. get_environment b codecs r.0 dc env) after
          ∙ rest
          ∙ updated_all-at ops (get_environment b codecs s')
              (updated op (get_environment b codecs s)) dc env first
    ]
