-- ===== src/Redeploy/Keeps.antt =====
-- pkg/engine/executor/executor.go: the keys under which the executor stores resources.
use cldctl.Prelude.{All, Bool-cases, Option-cases, [], arith, inl, inr, refl, some, ◌∷◌, ◌≡◌, none}
use cldctl.Redeploy.{All-keys-put, HasNoSlash, IsPlain, IsRecorded, IsResourceKey}
use cldctl.Types.{ComponentState, ResourceState}
use cldctl.Dict.{Dict, get, keys, put, remove}
use cldctl.Graph.{Node}
use cldctl.Executor.{
  Options, World, get_or, new_component_state, put_resource, put_shared, resource_key, save_state,
  store,
}
use cldctl.Text.{Text, same, same_iff}
use mathlib.Core.Path.{subst}

-- A node whose component has no slash in its name and whose type is plain.
abbrev pub IsNamed : Node → Type 0
IsNamed node = HasNoSlash node.component × IsPlain node.type

abbrev pub HasResourceKeys : ComponentState → Type 0
HasResourceKeys comp = All IsResourceKey (keys comp.resources)

pub put-IsRecorded :
    (components : Dict ComponentState) (k : Text) (comp : ComponentState)
    → HasNoSlash k
    → HasResourceKeys comp
    → IsRecorded components
    → IsRecorded (put components k comp)
unfolding put
put-IsRecorded [] k comp a b h = (a, b, tt)
put-IsRecorded ((j, c) ∷ m) k comp a b h = elim (Bool-cases (same j k)) [
  | inl here ↦ rw here (h.0, b, h.2)
  | inr away ↦ rw away (h.0, h.1, put-IsRecorded m k comp a b h.2)
]

pub remove-IsRecorded :
    (components : Dict ComponentState) (k : Text)
    → IsRecorded components
    → IsRecorded (remove components k)
unfolding remove
remove-IsRecorded [] k h = tt
remove-IsRecorded ((j, c) ∷ m) k h = elim (Bool-cases (same j k)) [
  | inl here ↦ rw here (remove-IsRecorded m k h.2)
  | inr away ↦ rw away (h.0, h.1, remove-IsRecorded m k h.2)
]

pub get-IsRecorded :
    (components : Dict ComponentState) (k : Text) (comp : ComponentState)
    → get components k ≡ some comp
    → IsRecorded components
    → HasNoSlash k × HasResourceKeys comp
unfolding get
get-IsRecorded [] k comp e h = cc
get-IsRecorded ((j, c) ∷ m) k comp e h = elim (Bool-cases (same j k)) [
  | inl here ↦
      let found : c ≡ comp = ground (arith, e) in
      (subst HasNoSlash ((same_iff j k).0 here) h.0, subst HasResourceKeys found h.1)
  | inr away ↦ get-IsRecorded m k comp (ground (arith, e)) h.2
]

pub All-keys-remove :
    (P : Text → Type 0) (m : Dict ResourceState) (k : Text)
    → All P (keys m)
    → All P (keys (remove m k))
unfolding keys remove
All-keys-remove P [] k h = tt
All-keys-remove P ((j, r) ∷ m) k h = elim (Bool-cases (same j k)) [
  | inl here ↦ rw here (All-keys-remove P m k h.1)
  | inr away ↦ rw away (h.0, All-keys-remove P m k h.1)
]

pub put_shared-HasResourceKeys :
    (comp : ComponentState) (node : Node) (res : ResourceState)
    → IsPlain node.type
    → HasResourceKeys comp
    → HasResourceKeys (put_shared comp node res)
unfolding put_shared resource_key
put_shared-HasResourceKeys comp node res plain h =
    All-keys-put IsResourceKey comp.resources (resource_key node) res
      (node.type, node.name, plain, refl) h

pub put_resource-HasResourceKeys :
    (comp : ComponentState) (node : Node) (res : ResourceState)
    → IsPlain node.type
    → HasResourceKeys comp
    → HasResourceKeys (put_resource comp node res)
unfolding put_resource resource_key
put_resource-HasResourceKeys comp node res plain h = elim (Option-cases node.node_instance) [
  | inl shared ↦ rw shared (
      All-keys-put IsResourceKey comp.resources (resource_key node) res
        (node.type, node.name, plain, refl) h)
  | inr (i, own) ↦ rw own h
]

-- The state of a world is recorded.
abbrev pub Holds : World → Type 0
Holds w = IsRecorded w.env.components

get_or-none :
    (m : Dict ComponentState) (k : Text) (d : ComponentState) → get m k ≡ none → get_or m k d ≡ d
unfolding get_or
get_or-none m k d e = rw (e, get_or)

get_or-some :
    (m : Dict ComponentState) (k : Text) (d comp : ComponentState)
    → get m k ≡ some comp
    → get_or m k d ≡ comp
unfolding get_or
get_or-some m k d comp e = rw (e, get_or)

module _ (options : Options) where
  got :
      (w : World) (node : Node)
      → Holds w
      → HasResourceKeys (
          get_or w.env.components node.component
            (new_component_state options w.graph node.component))
  unfolding new_component_state keys
  got w node h =
      let fresh = new_component_state options w.graph node.component in
      elim (Option-cases (get w.env.components node.component)) [
        | inl absent ↦ rw (get_or-none w.env.components node.component fresh absent) tt
        | inr (comp, there) ↦
            rw (get_or-some w.env.components node.component fresh comp there)
              (get-IsRecorded w.env.components node.component comp there h).1
      ]

  pub store-Holds :
      (place : ComponentState → Node → ResourceState → ComponentState)
      → ((comp : ComponentState) (node : Node) (res : ResourceState)
          → IsPlain node.type
          → HasResourceKeys comp
          → HasResourceKeys (place comp node res))
      → (node : Node) (res : ResourceState) (w : World) → IsNamed node
      → Holds w
      → Holds (store place options node res w)
  unfolding store save_state
  store-Holds place keeps node res w named h =
      put-IsRecorded w.env.components node.component _ named.0
        (keeps _ node res named.1 (got w node h)) h
