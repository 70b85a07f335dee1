-- ===== src/State/Refine.antt =====
-- pkg/state/manager.go: the manager as a map from datacenters and names to environments.
-- The operations that change what is stored.
use cldctl.State.Backend.{Backend, IsListing, IsStore, StateError, is_under, not_found}
use cldctl.Prelude.{
  Bool, Option, arith, false, if◌then◌else◌, none, ◌&&◌, ◌++◌, ◌∷◌, ◌≡◌, Bool-cases, ap, inl, inr,
  ◌∙◌,
}
use cldctl.State.Manager.{
  delete_resource, Codecs, delete_component, delete_datacenter, delete_datacenter_component,
  delete_environment, delete_under, get_environment, read_json, save_component, save_datacenter,
  save_datacenter_component, save_environment, save_resource, write_json,
}
use cldctl.Types.{
  ComponentState, DatacenterComponentConfig, DatacenterState, EnvironmentState, ResourceState,
}
use cldctl.State.Paths.Laws.{IsClean, IsName}
use cldctl.Prelude.Results.{Result, err, ok}
use cldctl.Text.{Text, same, same_iff}
use cldctl.State.Under.{
  component_directory-under, datacenter_directory-under, environment_directory-under,
}
use cldctl.State.Apart.{
  component_path-apart, datacenter_component_path-apart, datacenter_path-apart, resource_path-apart,
  environment_path-same,
}
use cldctl.State.Views.{delete_under-read, write_json-other, write_json-same}
use cldctl.State.Paths.{environment_path}
use cldctl.State.Paths.Clean.{
  component_directory-IsClean, component_path-IsClean, datacenter_component_path-IsClean,
  datacenter_directory-IsClean, datacenter_path-IsClean, environment_directory-IsClean,
  environment_path-IsClean, resource_path-IsClean,
}

pub data Operation : Type 0 where
  saves_datacenter : DatacenterState → Operation
  deletes_datacenter : Text → Operation
  saves_shared : Text → DatacenterComponentConfig → Operation
  deletes_shared : Text → Text → Operation
  saves_environment : Text → EnvironmentState → Operation
  deletes_environment : Text → Text → Operation
  saves_component : Text → Text → ComponentState → Operation
  deletes_component : Text → Text → Text → Operation
  saves_resource : Text → Text → Text → ResourceState → Operation
  deletes_resource : Text → Text → Text → Text → Operation

-- The environments that are stored, by their datacenter and their name.
abbrev pub Environments : Type 0
Environments = Text → Text → Result StateError EnvironmentState

-- What an operation does to them.
unfoldable pub updated : Operation → Environments → Environments
updated (saves_datacenter state) m dc env = m dc env
updated (deletes_datacenter name) m dc env = if same name dc then err not_found else m dc env
updated (saves_shared dc' state) m dc env = m dc env
updated (deletes_shared dc' component) m dc env = m dc env
updated (saves_environment dc' state) m dc env =
    if same dc' dc && same state.name env then ok state else m dc env
updated (deletes_environment dc' name) m dc env =
    if same dc' dc && same name env then err not_found else m dc env
updated (saves_component dc' env' state) m dc env = m dc env
updated (deletes_component dc' env' component) m dc env = m dc env
updated (saves_resource dc' env' component state) m dc env = m dc env
updated (deletes_resource dc' env' component resource) m dc env = m dc env

-- Datacenters and environments have names; names of components may have several pieces.
abbrev pub IsNamed : Operation → Type 0
IsNamed (saves_datacenter state) = IsName state.name
IsNamed (deletes_datacenter name) = IsName name
IsNamed (saves_shared dc state) = IsName dc × IsClean state.name
IsNamed (deletes_shared dc component) = IsName dc × IsClean component
IsNamed (saves_environment dc state) = IsName dc × IsName state.name
IsNamed (deletes_environment dc name) = IsName dc × IsName name
IsNamed (saves_component dc env state) = IsName dc × IsName env × IsClean state.name
IsNamed (deletes_component dc env component) = IsName dc × IsName env × IsClean component
IsNamed (saves_resource dc env component state) =
    IsName dc × IsName env × IsClean component × IsClean (state.type ++ b'.' ∷ state.name)
IsNamed (deletes_resource dc env component resource) =
    IsName dc × IsName env × IsClean component × IsClean resource

module _ {S : Type 0} (b : Backend S) (codecs : Codecs) where
  unfoldable pub perform : Operation → S → S × Option StateError
  perform (saves_datacenter state) s = save_datacenter b codecs s state
  perform (deletes_datacenter name) s = delete_datacenter b s name
  perform (saves_shared dc state) s = save_datacenter_component b codecs s dc state
  perform (deletes_shared dc component) s = delete_datacenter_component b s dc component
  perform (saves_environment dc state) s = save_environment b codecs s dc state
  perform (deletes_environment dc name) s = delete_environment b s dc name
  perform (saves_component dc env state) s = save_component b codecs s dc env state
  perform (deletes_component dc env component) s = delete_component b s dc env component
  perform (saves_resource dc env component state) s =
      save_resource b codecs s dc env component state
  perform (deletes_resource dc env component resource) s =
      delete_resource b s dc env component resource

  -- What is decoded is what was encoded, for the environments that are saved.
  abbrev pub IsCoded : Operation → Type 0
  IsCoded (saves_environment dc state) =
      (content : Text)
      → codecs.environment.encode state ≡ ok content
      → codecs.environment.decode content ≡ ok state
  IsCoded _ = Unit

module _ {S : Type 0} (b : Backend S) (codecs : Codecs) (store : IsStore b)
    (listing : IsListing b is_under) where
  -- A file of an environment that is not touched by a delete.
  delete-other :
      (s : S) (p q : Text)
      → IsClean p
      → IsClean q
      → (b.delete s p).1 ≡ none
      → same p q ≡ false
      → read_json b codecs.environment (b.delete s p).0 q ≡ read_json b codecs.environment s q
  unfolding read_json
  delete-other s p q hp hq h apart = ground (arith, store.deleted s p hp h q hq, apart)

  under-found :
      (s : S) (p q : Text) (gone : Bool)
      → IsClean p
      → IsClean q
      → (delete_under b p s).1 ≡ none
      → is_under p q ≡ gone
      → read_json b codecs.environment (delete_under b p s).0 q
        ≡ (if gone then err not_found else read_json b codecs.environment s q)
  unfolding read_json
  under-found s p q gone hp hq h e =
      ground (arith, delete_under-read b store is_under listing p s hp h q hq, e)

  -- An environment that is saved is found, and no other one changes.
  save_environment-read :
      (s : S) (dc' dc env : Text) (state : EnvironmentState)
      → IsName dc'
      → IsName state.name
      → IsCoded b codecs (saves_environment dc' state)
      → IsName dc
      → IsName env
      → (save_environment b codecs s dc' state).1 ≡ none
      → get_environment b codecs (save_environment b codecs s dc' state).0 dc env ≡ (
          if same dc' dc && same state.name env
          then ok state
          else get_environment b codecs s dc env)
  unfolding save_environment get_environment
  save_environment-read s dc' dc env state d' n' c d n h =
      let p = environment_path dc' state.name in
      let q = environment_path dc env in
      let clean_p = environment_path-IsClean dc' state.name d' n' in
      let apart = environment_path-same dc' state.name dc env d' n' d n in
      let written = (write_json b codecs.environment s p state).0 in
      elim (Bool-cases (same dc' dc && same state.name env)) [
        | inl here ↦
            let there : p ≡ q = ground (arith, same_iff p q, apart, here) in
            ground (
              arith,
              here,
              ap (read_json b codecs.environment written) there,
              write_json-same b store codecs.environment s p state clean_p c h,
            )
        | inr differ ↦ ground (
          arith,
          differ,
          write_json-other b store codecs.environment codecs.environment s p q state clean_p
              (environment_path-IsClean dc env d n) h (apart ∙ differ),
        )
      ]

  pub perform_lem :
      (op : Operation) (s : S) (dc env : Text)
      → IsNamed op
      → IsCoded b codecs op
      → IsName dc
      → IsName env
      → (perform b codecs op s).1 ≡ none
      → get_environment b codecs (perform b codecs op s).0 dc env
        ≡ updated op (get_environment b codecs s) dc env
  unfolding perform updated get_environment save_datacenter delete_datacenter
      save_datacenter_component delete_datacenter_component delete_environment save_component
      delete_component save_resource delete_resource
  perform_lem (saves_datacenter state) s dc env n c d e h =
      write_json-other b store codecs.datacenter codecs.environment s _ _ state
        (datacenter_path-IsClean state.name n) (environment_path-IsClean dc env d e) h
        (datacenter_path-apart dc env d e state.name n)
  perform_lem (deletes_datacenter name) s dc env n c d e h =
      under-found s _ _ _ (datacenter_directory-IsClean name n)
        (environment_path-IsClean dc env d e) h (datacenter_directory-under dc env d e name n)
  perform_lem (saves_shared dc' state) s dc env n c d e h =
      write_json-other b store codecs.datacenter_component codecs.environment s _ _ state
        (datacenter_component_path-IsClean dc' state.name n.0 n.1)
        (environment_path-IsClean dc env d e) h
        (datacenter_component_path-apart dc env d e dc' state.name n.0 n.1)
  perform_lem (deletes_shared dc' component) s dc env n c d e h =
      delete-other s _ _ (datacenter_component_path-IsClean dc' component n.0 n.1)
        (environment_path-IsClean dc env d e) h
        (datacenter_component_path-apart dc env d e dc' component n.0 n.1)
  perform_lem (saves_environment dc' state) s dc env n c d e h =
      save_environment-read s dc' dc env state n.0 n.1 c d e h
  perform_lem (deletes_environment dc' name) s dc env n c d e h =
      under-found s _ _ _ (environment_directory-IsClean dc' name n.0 n.1)
        (environment_path-IsClean dc env d e) h
        (environment_directory-under dc env d e dc' name n.0 n.1)
  perform_lem (saves_component dc' env' state) s dc env n c d e h =
      write_json-other b store codecs.component codecs.environment s _ _ state
        (component_path-IsClean dc' env' state.name n.0 n.1 n.2)
        (environment_path-IsClean dc env d e) h
        (component_path-apart dc env d e dc' env' state.name n.0 n.1 n.2)
  perform_lem (deletes_component dc' env' component) s dc env n c d e h =
      under-found s _ _ _ (component_directory-IsClean dc' env' component n.0 n.1 n.2)
        (environment_path-IsClean dc env d e) h
        (component_directory-under dc env d e dc' env' component n.0 n.1 n.2)
  perform_lem (saves_resource dc' env' component state) s dc env n c d e h =
      write_json-other b store codecs.resource codecs.environment s _ _ state
        (resource_path-IsClean dc' env' component (state.type ++ b'.' ∷ state.name) n.0 n.1 n.2 n.3)
        (environment_path-IsClean dc env d e) h
        (resource_path-apart dc env d e dc' env' component (state.type ++ b'.' ∷ state.name) n.0 n.1
          n.2 n.3)
  perform_lem (deletes_resource dc' env' component resource) s dc env n c d e h =
      delete-other s _ _ (resource_path-IsClean dc' env' component resource n.0 n.1 n.2 n.3)
        (environment_path-IsClean dc env d e) h
        (resource_path-apart dc env d e dc' env' component resource n.0 n.1 n.2 n.3)
