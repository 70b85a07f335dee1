-- ===== src/Executor/Run.antt =====
-- pkg/engine/executor/executor.go, `Execute`: the changes of a plan one after the other.
pub mod Order
pub mod Success
pub mod Totals
use cldctl.Planner.{Action, Plan, ResourceChange, create, delete, is_empty, noop, replace, update}
use cldctl.Prelude.{
  Bool, List, Option, [], all, false, if◌then◌else◌, keep, none, not, some, true, ℕ, ◌++◌, ◌+◌, ◌∷◌,
}
use cldctl.Dict.{Dict, get, put}
use cldctl.Types.{EnvironmentState, EnvironmentStatus, ResourceStatus, deleted}
use cldctl.Executor.{
  ExecError, ExecutionResult, NodeResult, Options, Outside, World, context_done,
  dependencies_failed, dependency_failed, new_component_state, put_shared, resource_of, save_failed,
  save_state, set_node, store,
}
use cldctl.Graph.{Graph, Node, NodeState, completed, observability}
use cldctl.Text.{Text, same}
use cldctl.Value.{Value}
use cldctl.Executor.Status.{compute_component_statuses}
use cldctl.Executor.Change.{execute_change, failed_with, message}

-- What the loop over the changes carries.
pub record Run : Type 0 where
  pub world : World
  pub result : ExecutionResult

unfoldable pub dependency_succeeded : Dict NodeResult → Text → Bool
dependency_succeeded results id = elim (get results id) [ none ↦ false | some r ↦ r.success ]

unfoldable pub are_dependencies_satisfied : Node → Dict NodeResult → Bool
unfolding dependency_succeeded
are_dependencies_satisfied node results = all (dependency_succeeded results) node.depends_on

unfoldable pub build_dependency_error : Node → Dict NodeResult → ExecError
unfolding dependency_succeeded
build_dependency_error node results =
    elim (keep (λ id. not (dependency_succeeded results id)) node.depends_on) [
      | [] ↦ dependencies_failed []
      | id ∷ rest ↦ elim rest [
        | [] ↦ dependency_failed id
        | j ∷ more ↦ dependencies_failed (id ∷ j ∷ more)
      ]
    ]

unfoldable pub record_result : ExecutionResult → NodeResult → ExecutionResult
record_result result r = record result { node_results = put result.node_results r.node_id r }

-- The `switch` on the action of a change that was executed.
unfoldable pub count_result : ExecutionResult → Action → Bool → ExecutionResult
count_result result create true = record result { created = result.created + 1 }
count_result result update true = record result { updated = result.updated + 1 }
count_result result replace true = record result { updated = result.updated + 1 }
count_result result delete true = record result { deleted = result.deleted + 1 }
count_result result create false = record result { failed = result.failed + 1 }
count_result result update false = record result { failed = result.failed + 1 }
count_result result replace false = record result { failed = result.failed + 1 }
count_result result delete false = record result { failed = result.failed + 1 }
count_result result noop success = result

abbrev pub empty_result : ExecutionResult
empty_result = record {
  success = true;
  created = 0;
  updated = 0;
  deleted = 0;
  failed = 0;
  errors = [];
  node_results = [];
}

unfoldable pub new_environment : Plan → EnvironmentState
new_environment p = record {
  name = p.environment;
  datacenter = p.datacenter;
  status = EnvironmentStatus.provisioning;
  status_reason = [];
  variables = [];
  components = [];
  modules = [];
}

module _ (options : Options) (outside : Outside) where
  -- A change whose dependencies are not satisfied.
  unfoldable pub fail_dependency : ResourceChange → Run → Run
  unfolding build_dependency_error record_result store put_shared resource_of message
  fail_dependency c run =
      let error = build_dependency_error c.node run.result.node_results in
      let result = record_result run.result (failed_with c.node c.action error) in
      let node = record c.node {
        inputs = outside.resolve_inputs run.world.graph run.world.env c.node;
      } in
      let w = record run.world { graph = set_node run.world.graph node } in
      record {
        world =
            store put_shared options node
              (record (resource_of node ResourceStatus.failed) { status_reason = message error }) w;
        result = record result { failed = result.failed + 1; success = false };
      }

  -- What is left on the node in the graph by a change that was executed.
  unfoldable pub update_node : Node → NodeResult → Graph → Node
  update_node node r g =
      if r.success
      then (let done = record node {
        outputs = elim r.outputs [ none ↦ node.outputs | some outputs ↦ outputs ];
        state = completed;
      } in
          if same node.type observability
          then record done { outputs = outside.enrich_outputs g done }
          else done)
      else record node { state = NodeState.failed }

  -- The body of the loop from `executeChange` on. Beside the run stands whether the loop goes on.
  unfoldable pub apply_change : ResourceChange → Run → Run × Bool
  unfolding record_result count_result update_node set_node
  apply_change c run =
      let (node, executed) = execute_change options outside c run.world in
      let (r, w) = executed in
      let counted = count_result (record_result run.result r) c.action r.success in
      let g = set_node w.graph (update_node node r w.graph) in
      if r.success
      then (record { world = record w { graph = g }; result = counted }, true)
      else (let result = record counted {
        success = false;
        errors = counted.errors ++ r.error ∷ [];
      } in
          if options.stop_on_error
          then (
            record { world = record w { graph = set_node w.graph node }; result = result },
            false,
          )
          else (record { world = record w { graph = g }; result = result }, true))

  unfoldable pub run_change : Bool → ResourceChange → Run → Run × Bool
  run_change interrupted c run =
      if interrupted
      then (
        record run {
          result = record run.result {
            success = false;
            errors = run.result.errors ++ some context_done ∷ [];
          };
        },
        false,
      )
      else (if are_dependencies_satisfied c.node run.result.node_results
          then apply_change c run
          else (fail_dependency c run, not options.stop_on_error))

  -- The loop. `interrupts n` is whether the context is done when the n-th change comes up.
  unfoldable pub run_changes : (ℕ → Bool) → ℕ → List ResourceChange → Run → Run
  run_changes interrupts n [] run = run
  run_changes interrupts n (c ∷ cs) run =
      let (run', more) = run_change (interrupts n) c run in
      elim more [ false ↦ run' | true ↦ run_changes interrupts (n + 1) cs run' ]

  unfoldable pub store_outputs : Graph → EnvironmentState → Text → Dict Value → EnvironmentState
  store_outputs g env name resolved = elim (get env.components name) [
    | some comp ↦ record env {
      components = put env.components name (record comp { outputs = resolved });
    }
    | none ↦ record env {
      components = put env.components name (record (new_component_state options g name) {
        outputs = resolved;
        status = ResourceStatus.ready;
      });
    }
  ]

  -- `resolveAndStoreComponentOutputs`
  unfoldable pub resolve_and_store : Graph → Dict (Dict Text) → EnvironmentState → EnvironmentState
  unfolding store_outputs new_component_state
  resolve_and_store g [] env = env
  resolve_and_store g ((name, exprs) ∷ rest) env =
      resolve_and_store g rest
        (store_outputs g env name (outside.resolve_component_outputs g name exprs))

  -- From the stored state, if there is one, to the first save.
  unfoldable pub start_run : Plan → Graph → Option EnvironmentState → Run
  unfolding new_environment save_state
  start_run p g stored =
      let env : EnvironmentState = elim stored [ none ↦ new_environment p | some e ↦ e ] in
      record {
        world = save_state (record {
          graph = g;
          env = record env { status = EnvironmentStatus.provisioning };
          saved = [];
        });
        result = empty_result;
      }

  -- From the end of the loop to the last save, which may fail.
  unfoldable pub finish_run : Option Text → Run → Run
  unfolding resolve_and_store compute_component_statuses save_state
  finish_run save_error run =
      let w = run.world in
      let resolved =
        resolve_and_store w.graph w.graph.component_output_exprs
          (compute_component_statuses w.env) in
      let env = record resolved {
        status = if run.result.success then EnvironmentStatus.ready else EnvironmentStatus.failed;
      } in
      elim save_error [
        | none ↦ record run { world = save_state (record w { env = env }) }
        | some m ↦ record {
          world = record w { env = env };
          result = record run.result { errors = run.result.errors ++ some (save_failed m) ∷ [] };
        }
      ]

  -- An empty plan leaves the state alone.
  unfoldable pub execute :
      (ℕ → Bool)
      → Option Text
      → Plan
      → Graph
      → Option EnvironmentState
      → ExecutionResult × Option World
  unfolding start_run run_changes finish_run is_empty
  execute interrupts save_error p g stored =
      if is_empty p
      then (empty_result, none)
      else (let run =
            finish_run save_error (run_changes interrupts 0 p.changes (start_run p g stored)) in
          (run.result, some run.world))
