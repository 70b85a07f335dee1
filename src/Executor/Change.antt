-- ===== src/Executor/Change.antt =====
-- pkg/engine/executor/executor.go, `executeChange` and what it dispatches to: `executeApply`,
-- `executePortAllocation`, `executeDatabaseUserPassthrough`, `executeNetworkPolicyNoop` and
-- `executeDestroy`. Progress callbacks, logs, times and debug output are not modelled.
pub mod Laws
use cldctl.Planner.{Action, ResourceChange, create, delete, noop, replace, update}
use cldctl.Types.{ComponentState, EnvironmentState, ModuleState, ResourceState, ResourceStatus}
use cldctl.Dict.{Dict, get, has, put, remove}
use cldctl.Executor.{
  ExecError, HookResult, NodeResult, Options, Outside, World, context_done, dependencies_failed,
  dependency_failed, destroy_failed, get_or, hook_failed, new_component_state, plugin_unavailable,
  put_resource, put_shared, resource_of, save_failed, save_state, store, resource_key, cancelled,
  deployment_stopped, node_stuck,
}
use cldctl.Graph.{
  Graph, Node, database, database_user, get_node, network_policy, node_id, port, set_input,
}
use cldctl.Prelude.{
  List, Option, [], false, if◌then◌else◌, length, none, not, some, true, ℕ, ℤ, ◌&&◌, ◌++◌, ◌==◌,
  ◌∷◌,
}
use cldctl.Prelude.Results.{Result, err, ok}
use cldctl.Text.{Text, codes, same}
use cldctl.Value.{Value, int, str}
use cldctl.Graph.Topo.{ids}
use cldctl.Executor.Port.{stable_port_for_node}

abbrev pub succeeded : Node → Action → Option (Dict Value) → NodeResult
succeeded node action outputs = record {
  node_id = node.id;
  action = action;
  success = true;
  error = none;
  outputs = outputs;
}

abbrev pub failed_with : Node → Action → ExecError → NodeResult
failed_with node action error = record {
  node_id = node.id;
  action = action;
  success = false;
  error = some error;
  outputs = none;
}

-- `err.Error()`
join_texts : Text → List Text → Text
join_texts sep [] = []
join_texts sep (t ∷ []) = t
join_texts sep (t ∷ u ∷ ts) = t ++ (sep ++ join_texts sep (u ∷ ts))

unfoldable pub message : ExecError → Text
unfolding join_texts
message (dependency_failed id) = codes "dependency " ++ (id ++ codes " failed")
message (dependencies_failed ids) = codes "dependencies failed: " ++ join_texts (codes ", ") ids
message (hook_failed m) = codes "failed to execute hook: " ++ m
message (plugin_unavailable m) = codes "failed to get IaC plugin: " ++ m
message (destroy_failed m) = codes "destroy failed: " ++ m
message context_done = codes "context canceled"
message (save_failed m) = codes "failed to save state: " ++ m
message deployment_stopped = codes "deployment stopped: a previous resource failed"
message cancelled = codes "cancelled"
message node_stuck = codes "node stuck: dependencies could not be resolved"

-- The parent database, by the input `database`, if that is a text other than "".
unfoldable pub parent_database : Graph → Node → Option Node
parent_database g node = elim (get node.inputs (codes "database")) [
  | some (str name) ↦
      if same name [] then none else get_node g (node_id node.component database name)
  | _ ↦ none
]

-- A loop that copies a map.
unfoldable pub copy : Dict Value → Dict Value → Dict Value
copy [] m = m
copy ((k, v) ∷ from) m = copy from (put m k v)

unfoldable pub copy_output : Text → Dict Value → Node → Node
copy_output key outputs node = elim (get outputs key) [
  | none ↦ node
  | some v ↦ set_input node key v
]

unfoldable pub inject_parent_database_outputs : Graph → Node → Node
unfolding parent_database copy_output
inject_parent_database_outputs g node = elim (parent_database g node) [
  | none ↦ node
  | some db ↦ copy_output (codes "port") db.outputs (copy_output (codes "host") db.outputs node)
]

-- One module's IaC state goes to the legacy field, several go to the field of their own.
unfoldable pub with_module_states : Dict ModuleState → ResourceState → ResourceState
with_module_states [] res = res
with_module_states ((name, ms) ∷ []) res = record res { iac_state = ms.iac_state }
with_module_states (a ∷ b ∷ rest) res = record res { module_states = a ∷ b ∷ rest }

-- `compState.Resources[resourceKey(node)]`, or under the legacy key.
unfoldable pub destroyed_resource : ComponentState → Node → Option ResourceState
unfolding resource_key
destroyed_resource comp node = elim (get comp.resources (resource_key node)) [
  | some res ↦ some res
  | none ↦ get comp.resources node.name
]

unfoldable pub delete_resource : ComponentState → Node → ComponentState
unfolding resource_key
delete_resource comp node =
    if has comp.resources (resource_key node)
    then record comp { resources = remove comp.resources (resource_key node) }
    else record comp { resources = remove comp.resources node.name }

-- The component goes with its last shared resource.
unfoldable pub drop_resource : EnvironmentState → Node → ComponentState → EnvironmentState
unfolding delete_resource
drop_resource env node comp =
    let comp' = delete_resource comp node in
    if length comp'.resources == 0
    then record env { components = remove env.components node.component }
    else record env { components = put env.components node.component comp' }

unfoldable pub stored_iac_state : Option ResourceState → List ℕ
stored_iac_state none = []
stored_iac_state (some res) = res.iac_state

-- What a node that is up to date gives: the stored outputs. A map that is empty is stored as nil.
unfoldable pub noop_outputs : ResourceChange → Option (Dict Value)
noop_outputs c = elim c.current_state [
  | none ↦ none
  | some res ↦ elim res.outputs [ [] ↦ none | o ∷ os ↦ some (o ∷ os) ]
]

module _ (options : Options) (outside : Outside) where
  open outside use {has_matching_hook, execute_hook_modules, port_hook, destroy, resolve_inputs}

  override_port : Node → Option ℤ
  override_port node = elim (get options.component_ports node.component) [
    | none ↦ none
    | some ports ↦ get ports node.name
  ]

  -- The environment's override, then the datacenter's hook, then the hash.
  unfoldable pub allocated_port : Node → Text → ℤ
  unfolding override_port
  allocated_port node env_name = elim (override_port node) [
    | some p ↦ p
    | none ↦ elim (port_hook node env_name) [
      | some p ↦ p
      | none ↦ stable_port_for_node env_name node.component node.name
    ]
  ]

  unfoldable pub execute_port_allocation : Node → Action → World → NodeResult × World
  unfolding allocated_port store put_shared resource_of
  execute_port_allocation node action w =
      let outputs : Dict Value = (codes "port", int (allocated_port node w.env.name)) ∷ [] in
      (
        succeeded node action (some outputs),
        store put_shared options node
            (record (resource_of node ResourceStatus.ready) { outputs = outputs }) w,
      )

  unfoldable pub execute_database_user_passthrough : Node → Action → World → NodeResult × World
  unfolding parent_database copy store put_resource resource_of
  execute_database_user_passthrough node action w =
      let outputs : Dict Value = elim (parent_database w.graph node) [
        | none ↦ []
        | some db ↦ copy db.outputs []
      ] in
      (
        succeeded node action (some outputs),
        store put_resource options node
            (record (resource_of node ResourceStatus.ready) { outputs = outputs }) w,
      )

  unfoldable pub execute_network_policy_noop : Node → Action → World → NodeResult × World
  unfolding store put_resource resource_of
  execute_network_policy_noop node action w = (
    succeeded node action (some []),
    store put_resource options node (resource_of node ResourceStatus.ready) w,
  )

  -- From the hook's run on, in the world where the resource is provisioning.
  unfoldable pub finish_hook : Node → Action → Result Text HookResult → World → NodeResult × World
  unfolding store put_resource resource_of with_module_states message
  finish_hook node action (err m) w = (
    failed_with node action (hook_failed m),
    store put_resource options node
        (record (resource_of node ResourceStatus.failed) {
          status_reason = message (hook_failed m);
        })
        w,
  )
  finish_hook node action (ok r) w = (
    succeeded node action (some r.outputs),
    store put_resource options node
        (with_module_states r.module_states
          (record (resource_of node ResourceStatus.ready) { outputs = r.outputs }))
        w,
  )

  unfoldable pub execute_hook : Node → Action → World → NodeResult × World
  unfolding finish_hook store put_resource resource_of get_or
  execute_hook node action w =
      let w' = store put_resource options node (resource_of node ResourceStatus.provisioning) w in
      let comp =
        get_or w'.env.components node.component
          (new_component_state options w'.graph node.component) in
      finish_hook node action (execute_hook_modules node w'.env.name comp) w'

  -- The node comes back with the inputs that it has now.
  unfoldable pub execute_apply : Node → Action → World → Node × (NodeResult × World)
  unfolding execute_port_allocation execute_database_user_passthrough execute_network_policy_noop
      inject_parent_database_outputs execute_hook
  execute_apply node action w =
      let resolved = record node { inputs = resolve_inputs w.graph w.env node } in
      if same node.type port
      then (resolved, execute_port_allocation resolved action w)
      else (if same node.type database_user && not (has_matching_hook resolved)
          then (resolved, execute_database_user_passthrough resolved action w)
          else (if same node.type network_policy && not (has_matching_hook resolved)
              then (resolved, execute_network_policy_noop resolved action w)
              else (if same node.type database_user
                  then (let injected = inject_parent_database_outputs w.graph resolved in
                      (injected, execute_hook injected action w))
                  else (resolved, execute_hook resolved action w))))

  unfoldable pub execute_destroy : Node → Action → World → NodeResult × World
  unfolding destroyed_resource drop_resource stored_iac_state save_state
  execute_destroy node action w = elim (get w.env.components node.component) [
    | none ↦ (succeeded node action none, w)
    | some comp ↦ elim (destroy node (stored_iac_state (destroyed_resource comp node))) [
      | some error ↦ (failed_with node action error, w)
      | none ↦ (
        succeeded node action none,
        save_state (record w { env = drop_resource w.env node comp }),
      )
    ]
  ]

  unfoldable pub execute_change : ResourceChange → World → Node × (NodeResult × World)
  execute_change c w =
      if options.dry_run then (c.node, (succeeded c.node c.action none, w)) else elim c.action [
        | create ↦ execute_apply c.node c.action w
        | update ↦ execute_apply c.node c.action w
        | replace ↦ execute_apply c.node c.action w
        | delete ↦ (c.node, execute_destroy c.node c.action w)
        | noop ↦ (c.node, (succeeded c.node c.action (noop_outputs c), w))
      ]
