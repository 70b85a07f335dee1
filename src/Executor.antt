-- ===== src/Executor.antt =====
-- pkg/engine/executor/executor.go: what an executor is given, what it keeps and what it returns, and
-- how it stores a resource in the state of an environment. The children model its operations.
pub mod Port
pub mod Status
pub mod Change
pub mod Run
pub mod Parallel
use cldctl.Planner.{Action}
use cldctl.Prelude.{Bool, List, Option, [], if◌then◌else◌, none, some, ℕ, ℤ, ◌++◌, ◌∷◌}
use cldctl.Types.{
  ComponentState, EnvironmentState, InstanceState, ModuleState, ResourceState, ResourceStatus,
}
use cldctl.Dict.{Dict, get, has, map_values, put}
use cldctl.Graph.{Graph, Node}
use cldctl.Prelude.Results.{Result}
use cldctl.Text.{Text}
use cldctl.Value.{Value, sprint}

-- The errors that a node's result holds.
pub data ExecError : Type 0 where
  dependency_failed : Text → ExecError
  dependencies_failed : List Text → ExecError
  hook_failed : Text → ExecError
  plugin_unavailable : Text → ExecError
  destroy_failed : Text → ExecError
  context_done : ExecError
  save_failed : Text → ExecError
  deployment_stopped : ExecError
  cancelled : ExecError
  node_stuck : ExecError

pub record NodeResult : Type 0 where
  pub node_id : Text
  pub action : Action
  pub success : Bool
  pub error : Option ExecError
  pub outputs : Option (Dict Value)

pub record ExecutionResult : Type 0 where
  pub success : Bool
  pub created : ℕ
  pub updated : ℕ
  pub deleted : ℕ
  pub failed : ℕ
  pub errors : List (Option ExecError)
  pub node_results : Dict NodeResult

pub record Options : Type 0 where
  pub dry_run : Bool
  pub stop_on_error : Bool
  pub component_sources : Dict Text
  pub component_variables : Dict (Dict Value)
  pub component_ports : Dict (Dict ℤ)

-- `hookExecutionResult`
pub record HookResult : Type 0 where
  pub outputs : Dict Value
  pub module_states : Dict ModuleState

-- The datacenter's hooks, the IaC plugins and the resolution of expressions, which the operations
-- here only call: `hasMatchingHook`, `executeHookModules`, the port hook of `executePortAllocation`
-- (none if it gives no port), the plugin's `Destroy` with the stored IaC state, the inputs that
-- `resolveComponentExpressions` leaves, the outputs that `enrichObservabilityOutputs` leaves, and
-- the values of a component's output expressions.
pub record Outside : Type 0 where
  pub has_matching_hook : Node → Bool
  pub execute_hook_modules : Node → Text → ComponentState → Result Text HookResult
  pub port_hook : Node → Text → Option ℤ
  pub destroy : Node → List ℕ → Option ExecError
  pub resolve_inputs : Graph → EnvironmentState → Node → Dict Value
  pub enrich_outputs : Graph → Node → Dict Value
  pub resolve_component_outputs : Graph → Text → Dict Text → Dict Value

-- What the operations share and change: the graph, the state in memory, and the states that were
-- written to the backend, oldest first.
pub record World : Type 0 where
  pub graph : Graph
  pub env : EnvironmentState
  pub saved : List EnvironmentState

-- `saveStateLocked`, whose error is ignored.
unfoldable pub save_state : World → World
save_state w = record w { saved = w.saved ++ w.env ∷ [] }

unfoldable pub get_or {ℓ} : {A : Type ℓ} → Dict A → Text → A → A
get_or m k d = elim (get m k) [ none ↦ d | some a ↦ a ]

unfoldable pub new_component_state : Options → Graph → Text → ComponentState
unfolding get_or
new_component_state options g component_name = record {
  name = component_name;
  version = [];
  source = get_or options.component_sources component_name [];
  status = ResourceStatus.provisioning;
  status_reason = [];
  variables =
      map_values {V = Value} (λ _ v. sprint v)
        (get_or options.component_variables component_name []);
  dependencies = get_or g.component_dependencies component_name [];
  outputs = [];
  resources = [];
  instances = [];
}

-- `type.name`
unfoldable pub resource_key : Node → Text
resource_key node = node.type ++ b'.' ∷ node.name

-- A write through `getResourceMap`: to the shared resources, or to those of the node's instance.
unfoldable pub put_resource : ComponentState → Node → ResourceState → ComponentState
unfolding get_or resource_key
put_resource comp node res = elim node.node_instance [
  | none ↦ record comp { resources = put comp.resources (resource_key node) res }
  | some i ↦
      let inst : InstanceState = get_or comp.instances i.name (record {
        name = i.name;
        source = [];
        weight = i.weight;
        variables = [];
        resources = [];
      }) in
      record comp {
        instances =
            put comp.instances i.name
              (record inst { resources = put inst.resources (resource_key node) res });
      }
]

-- A write to `compState.Resources` itself, whether or not the node has an instance.
unfoldable pub put_shared : ComponentState → Node → ResourceState → ComponentState
unfolding resource_key
put_shared comp node res = record comp { resources = put comp.resources (resource_key node) res }

-- The component's state is got or created, changed and saved.
unfoldable pub store :
    (ComponentState → Node → ResourceState → ComponentState)
    → Options
    → Node
    → ResourceState
    → World
    → World
unfolding new_component_state get_or save_state
store place options node res w =
    let comp =
      get_or w.env.components node.component (new_component_state options w.graph node.component) in
    save_state (record w {
      env = record w.env { components = put w.env.components node.component (place comp node res) };
    })

unfoldable pub resource_of : Node → ResourceStatus → ResourceState
resource_of node status = record {
  name = node.name;
  type = node.type;
  component = node.component;
  hook = [];
  module_name = [];
  inputs = node.inputs;
  outputs = [];
  iac_state = [];
  module_states = [];
  status = status;
  status_reason = [];
}

-- A node of a change is a pointer: what stands in the graph under its ID, if the node is the graph's.
unfoldable pub current_node : Graph → Node → Node
current_node g n = elim (get g.nodes n.id) [ none ↦ n | some m ↦ m ]

-- A node is changed through its pointer: the graph sees it, if the node is the graph's.
unfoldable pub set_node : Graph → Node → Graph
set_node g n = if has g.nodes n.id then record g { nodes = put g.nodes n.id n } else g
