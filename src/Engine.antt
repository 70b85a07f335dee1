-- ===== src/Engine.antt =====
-- pkg/engine/engine.go: `Destroy`, `DestroyComponent` and `FindDependents`. Printed summaries and
-- times are not modelled. The state manager is told at the end to delete the state; whether that call
-- fails is a parameter, as is the saving of the state in the executor. The caller gives an `Output`, to
-- which the warning of a failed deletion is printed.
pub mod Bare
pub mod Destroy
pub mod Dependents
use cldctl.Prelude.{
  Bool, List, Option, [], any, false, if◌then◌else◌, none, some, true, ℕ, ◌||◌, ◌∷◌,
}
use cldctl.Types.{ComponentState, EnvironmentState, ResourceState}
use cldctl.Dict.{Dict, get}
use cldctl.Executor.{ExecutionResult, Options, Outside, World}
use cldctl.Graph.{Graph, GraphError, Node, add_node, new_graph, new_node}
use cldctl.Planner.{Plan, is_empty, plan_destroy}
use cldctl.Prelude.Results.{Result, err, ok, ◌>>=◌}
use cldctl.Text.{Text, same}
use cldctl.Executor.Run.{execute}
use cldctl.Text.Sort.{sort_strings}

pub data EngineError : Type 0 where
  environment_not_found : Text → Text → EngineError
  component_not_found : Text → Text → EngineError
  has_dependents : Text → List Text → EngineError
  destroy_plan_failed : GraphError → EngineError

pub record DestroyOptions : Type 0 where
  pub environment : Text
  pub datacenter : Text
  pub dry_run : Bool

pub record DestroyComponentOptions : Type 0 where
  pub environment : Text
  pub datacenter : Text
  pub component : Text
  pub dry_run : Bool
  pub force : Bool

-- A `DestroyResult`, and what happened to the state: what the executor did to it, if it ran, and
-- at the end whether the manager was told to delete it, whether it did so, and the warning that is
-- printed where it did not.
pub record DestroyResult : Type 0 where
  pub success : Bool
  pub plan : Plan
  pub execution : Option ExecutionResult
  pub world : Option World
  pub asked : Bool
  pub deleted : Bool
  pub warning : Option Text

-- The end of both operations: after a success the state manager is told to delete the state. Its error
-- is printed as a warning and changes nothing in the result. `delete_error` is that call's error.
unfoldable pub delete_state : Option Text → DestroyResult → DestroyResult
delete_state delete_error r =
    if r.success
    then elim delete_error [
      | none ↦ record r { asked = true; deleted = true }
      | some m ↦ record r { asked = true; warning = some m }
    ]
    else r

-- The options of the executor.
abbrev pub destroy_options : Options
destroy_options = record {
  dry_run = false;
  stop_on_error = true;
  component_sources = [];
  component_variables = [];
  component_ports = [];
}

-- `node := graph.NewNode(resState.Type, compName, resName)` with the stored inputs and outputs.
unfoldable pub resource_node : Text → Text → ResourceState → Node
resource_node comp_name res_name res = record (new_node res.type comp_name res_name) {
  inputs = res.inputs;
  outputs = res.outputs;
}

-- `_ = g.AddNode(node)`: the error is ignored.
unfoldable pub try_add_node : Graph → Node → Graph
try_add_node g node = elim (add_node g node) [ ok g' ↦ g' | err e ↦ g ]

unfoldable pub add_resource_nodes : Text → Dict ResourceState → Graph → Graph
unfolding try_add_node resource_node
add_resource_nodes comp_name [] g = g
add_resource_nodes comp_name ((res_name, res) ∷ resources) g =
    add_resource_nodes comp_name resources (try_add_node g (resource_node comp_name res_name res))

unfoldable pub add_component_nodes : Dict ComponentState → Graph → Graph
unfolding add_resource_nodes
add_component_nodes [] g = g
add_component_nodes ((comp_name, comp) ∷ components) g =
    add_component_nodes components (add_resource_nodes comp_name comp.resources g)

module _ (outside : Outside) (interrupts : ℕ → Bool) (save_error delete_error : Option Text) where
  -- From the executor's run on. `delete_error` is what the state manager returns if it is told to delete
  -- the state.
  unfoldable pub run_destroy : Plan → Graph → EnvironmentState → DestroyResult
  unfolding execute delete_state
  run_destroy p g current_state =
      let (result, world) =
        execute destroy_options outside interrupts save_error p g (some current_state) in
      delete_state delete_error (record {
        success = result.success;
        plan = p;
        execution = some result;
        world = world;
        asked = false;
        deleted = false;
        warning = none;
      })

  -- What both operations do with the graph of the stored resources.
  unfoldable pub destroy_graph : Bool → Graph → EnvironmentState → Result EngineError DestroyResult
  unfolding plan_destroy run_destroy is_empty
  destroy_graph dry_run g current_state =
      let (g', planned) = plan_destroy g (some current_state) in
      elim planned [
        | err e ↦ err (destroy_plan_failed e)
        | ok p ↦ ok (
            if dry_run || is_empty p
            then record {
              success = is_empty p || dry_run;
              plan = p;
              execution = none;
              world = none;
              asked = false;
              deleted = false;
              warning = none;
            }
            else run_destroy p g' current_state)
      ]

  unfoldable pub destroy :
      DestroyOptions → Option EnvironmentState → Result EngineError DestroyResult
  unfolding destroy_graph add_component_nodes new_graph
  destroy opts none = err (environment_not_found opts.environment opts.datacenter)
  destroy opts (some current_state) =
      destroy_graph opts.dry_run
        (add_component_nodes current_state.components (new_graph opts.environment opts.datacenter))
        current_state

-- The components, but for the target, that name the target among their dependencies.
unfoldable pub dependents_of : Text → Dict ComponentState → List Text
dependents_of target [] = []
dependents_of target ((comp_name, comp) ∷ components) =
    let rest = dependents_of target components in
    if same comp_name target
    then rest
    else (if any (λ dep. same dep target) comp.dependencies then comp_name ∷ rest else rest)

unfoldable pub find_dependents : EnvironmentState → Text → List Text
unfolding dependents_of sort_strings
find_dependents env target = sort_strings (dependents_of target env.components)

-- The check on dependents, which `--force` skips.
unfoldable pub check_dependents :
    DestroyComponentOptions → EnvironmentState → Result {0, 0} EngineError Unit
unfolding find_dependents
check_dependents opts current_state =
    if opts.force then ok tt else elim (find_dependents current_state opts.component) [
      | [] ↦ ok tt
      | d ∷ ds ↦ err (has_dependents opts.component (d ∷ ds))
    ]

module _ (outside : Outside) (interrupts : ℕ → Bool) (save_error delete_error : Option Text) where
  unfoldable pub destroy_component :
      DestroyComponentOptions → Option EnvironmentState → Result EngineError DestroyResult
  unfolding check_dependents destroy_graph add_resource_nodes new_graph
  destroy_component opts none = err (environment_not_found opts.environment opts.datacenter)
  destroy_component opts (some current_state) = elim (get current_state.components opts.component) [
    | none ↦ err (component_not_found opts.component opts.environment)
    | some comp ↦ check_dependents opts current_state >>= λ _.
        destroy_graph outside interrupts save_error delete_error opts.dry_run
          (add_resource_nodes opts.component comp.resources
            (new_graph opts.environment opts.datacenter))
          current_state
  ]
