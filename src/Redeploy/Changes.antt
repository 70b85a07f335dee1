-- ===== src/Redeploy/Changes.antt =====
-- pkg/engine/executor/executor.go: the keys of stored resources in a single change.
use cldctl.Prelude.{
  Option-cases, arith, inl, inr, refl, some, ◌≡◌, if_ind, sym, ◌≢◌, Bool-cases, false, not, ◌&&◌,
}
use cldctl.Redeploy.{HasNoSlash, IsPlain, IsRecorded, IsResourceKey}
use cldctl.Types.{ComponentState, EnvironmentState, ResourceStatus, ResourceState}
use cldctl.Dict.{get}
use cldctl.Graph.{Node, Graph, set_input, database_user, network_policy, port}
use cldctl.Executor.{
  Options, World, put_resource, put_shared, resource_key, save_state, store, HookResult, Outside,
  resource_of, NodeResult,
}
use cldctl.Text.{Text, same}
use mathlib.Core.Path.{subst}
use cldctl.Planner.{Action, ResourceChange, create, delete, noop, replace, update}
use cldctl.Prelude.Results.{Result, err, ok}
use cldctl.Executor.Change.{
  copy_output, delete_resource, drop_resource, execute_apply, execute_database_user_passthrough,
  execute_hook, execute_network_policy_noop, execute_port_allocation, finish_hook,
  inject_parent_database_outputs, execute_change, execute_destroy, destroyed_resource,
  stored_iac_state,
}
use cldctl.Redeploy.Keeps.{
  All-keys-remove, HasResourceKeys, Holds, IsNamed, get-IsRecorded, put-IsRecorded,
  put_resource-HasResourceKeys, put_shared-HasResourceKeys, remove-IsRecorded, store-Holds,
}

component-inject :
    (g : Graph) (node : Node) → (inject_parent_database_outputs g node).component ≡ node.component
unfolding inject_parent_database_outputs copy_output set_input
component-inject g node = ground arith

type-inject : (g : Graph) (node : Node) → (inject_parent_database_outputs g node).type ≡ node.type
unfolding inject_parent_database_outputs copy_output set_input
type-inject g node = ground arith

IsNamed-inject :
    (g : Graph) (node : Node) → IsNamed node → IsNamed (inject_parent_database_outputs g node)
IsNamed-inject g node named = (
  subst HasNoSlash (sym (component-inject g node)) named.0,
  subst IsPlain (sym (type-inject g node)) named.1,
)

HasResourceKeys-delete :
    (comp : ComponentState) (node : Node)
    → HasResourceKeys comp
    → HasResourceKeys (delete_resource comp node)
unfolding delete_resource
HasResourceKeys-delete comp node h =
    if_ind (λ c. HasResourceKeys c) _
      (All-keys-remove IsResourceKey comp.resources (resource_key node) h)
      (All-keys-remove IsResourceKey comp.resources node.name h)

drop_resource-IsRecorded :
    (env : EnvironmentState) (node : Node) (comp : ComponentState)
    → get env.components node.component ≡ some comp
    → IsRecorded env.components
    → IsRecorded (drop_resource env node comp).components
unfolding drop_resource
drop_resource-IsRecorded env node comp there h =
    let (no_slash, in_keys) = get-IsRecorded env.components node.component comp there h in
    if_ind (λ (e : EnvironmentState). IsRecorded e.components) _
      (remove-IsRecorded env.components node.component h)
      (put-IsRecorded env.components node.component (delete_resource comp node) no_slash
        (HasResourceKeys-delete comp node in_keys) h)

-- A change leaves a recorded state.
pub record Leaves (r : Node × (NodeResult × World)) : Type 0 where
  pub holds : Holds r.1.1

module _ (options : Options) (outside : Outside) where
  hook-Holds :
      (node : Node) (action : Action) (w : World)
      → IsNamed node
      → Holds w
      → Holds (execute_hook options outside node action w).1
  unfolding execute_hook
  hook-Holds node action w named h =
      let w' = store put_resource options node (resource_of node ResourceStatus.provisioning) w in
      finished _ w' (store-Holds options put_resource put_resource-HasResourceKeys node _ w named h)
    where
      finished :
          (r : Result Text HookResult) (w' : World)
          → Holds w'
          → Holds (finish_hook options outside node action r w').1
      finished (err m) w' k =
          store-Holds options put_resource put_resource-HasResourceKeys node _ w' named k
      finished (ok r) w' k =
          store-Holds options put_resource put_resource-HasResourceKeys node _ w' named k

  shared :
      (node : Node) (res : ResourceState) (w : World)
      → IsNamed node
      → Holds w
      → Holds (store put_shared options node res w)
  shared node res w = store-Holds options put_shared put_shared-HasResourceKeys node res w

  owned :
      (node : Node) (res : ResourceState) (w : World)
      → IsNamed node
      → Holds w
      → Holds (store put_resource options node res w)
  owned node res w = store-Holds options put_resource put_resource-HasResourceKeys node res w

  apply-Leaves :
      (node : Node) (action : Action) (w : World)
      → IsNamed node
      → Holds w
      → Leaves (execute_apply options outside node action w)
  unfolding execute_apply execute_port_allocation execute_database_user_passthrough
      execute_network_policy_noop
  apply-Leaves node action w named h =
      let resolved : Node = record node { inputs = outside.resolve_inputs w.graph w.env node } in
      elim (Bool-cases (same node.type port)) [
        | inl e ↦ rw e (record { holds = shared resolved _ w named h })
        | inr e ↦
            elim (Bool-cases
              (same node.type database_user && not (outside.has_matching_hook resolved))) [
                | inl e' ↦ rw (e, e') (record { holds = owned resolved _ w named h })
                | inr e' ↦
                    elim (Bool-cases
                      (same node.type network_policy && not (outside.has_matching_hook resolved))) [
                        | inl e'' ↦ rw (e, e', e'') (record { holds = owned resolved _ w named h })
                        | inr e'' ↦ elim (Bool-cases (same node.type database_user)) [
                          | inl user ↦
                              rw (e, e', e'', user)
                                (record {
                                  holds =
                                      hook-Holds (inject_parent_database_outputs w.graph resolved)
                                        action w (IsNamed-inject w.graph resolved named) h;
                                })
                          | inr other ↦
                              rw (e, e', e'', other)
                                (record { holds = hook-Holds resolved action w named h })
                        ]
                      ]
              ]
      ]

  -- Either nothing changes, or the resource is gone and the state is saved.
  destroy-Holds :
      (node : Node) (action : Action) (w : World)
      → Holds w
      → Holds (execute_destroy options outside node action w).1
  unfolding execute_destroy save_state
  destroy-Holds node action w h =
      let destroyed : World = (execute_destroy options outside node action w).1 in
      elim (Option-cases (get w.env.components node.component)) [
        | inl absent ↦
            let same_world : w ≡ destroyed = ground (arith, absent) in subst Holds same_world h
        | inr (comp, there) ↦
            elim (Option-cases
              (outside.destroy node (stored_iac_state (destroyed_resource comp node)))) [
                | inl done ↦
                    let dropped : save_state (record w { env = drop_resource w.env node comp })
                        ≡ destroyed =
                      ground (arith, there, done) in
                    subst Holds dropped (drop_resource-IsRecorded w.env node comp there h)
                | inr (error, refused) ↦
                    let same_world : w ≡ destroyed = ground (arith, there, refused) in
                    subst Holds same_world h
              ]
      ]

  by_action :
      (c : ResourceChange) (w : World) (a : Action)
      → c.action ≡ a
      → options.dry_run ≡ false
      → (c.action ≢ delete → IsNamed c.node)
      → Holds w
      → Leaves (execute_change options outside c w)
  unfolding execute_change
  by_action c w create e wet named h =
      rw (wet, e) (apply-Leaves c.node c.action w (named (ground arith)) h)
  by_action c w update e wet named h =
      rw (wet, e) (apply-Leaves c.node c.action w (named (ground arith)) h)
  by_action c w replace e wet named h =
      rw (wet, e) (apply-Leaves c.node c.action w (named (ground arith)) h)
  by_action c w delete e wet named h =
      rw (wet, e) (record { holds = destroy-Holds c.node c.action w h })
  by_action c w noop e wet named h = rw (wet, e) (record { holds = h })

  pub change-Leaves :
      (c : ResourceChange) (w : World)
      → (c.action ≢ delete → IsNamed c.node)
      → Holds w
      → Leaves (execute_change options outside c w)
  unfolding execute_change
  change-Leaves c w named h = elim (Bool-cases options.dry_run) [
    | inl dry ↦ rw dry (record { holds = h })
    | inr wet ↦ by_action c w c.action refl wet named h
  ]
