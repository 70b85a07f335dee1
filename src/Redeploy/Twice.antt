-- ===== src/Redeploy/Twice.antt =====
-- pkg/engine/executor/executor.go and pkg/engine/planner/planner.go: a deployment, and the plan for the
-- same environment after it.
use cldctl.Prelude.{
  All, Option, Option-cases, [], inl, inr, none, some, sym, ◌∷◌, Bool, Bool-cases, List, arith,
  length, ℕ, ◌≡◌,
}
use cldctl.Types.{ComponentState, EnvironmentState, ResourceState, ResourceStatus}
use cldctl.Dict.{Dict, get, keys, map_values, put}
use cldctl.Graph.{Graph, Node}
use cldctl.Redeploy.{HasNoSlash, IsRecorded, IsResourceKey, IsPlanned, redeploy-recreates}
use cldctl.Redeploy.Keeps.{HasResourceKeys, Holds, get-IsRecorded, put-IsRecorded, IsNamed}
use cldctl.Redeploy.Runs.{IsFit, run_changes-IsFit}
use cldctl.Executor.{Options, Outside, new_component_state, save_state, World}
use cldctl.Executor.Run.{
  Run, finish_run, resolve_and_store, store_outputs, execute, run_changes, start_run,
  new_environment,
}
use cldctl.Text.{Text}
use cldctl.Value.{Value}
use cldctl.Executor.Status.{
  component_status, compute_component_statuses, resources-component_status,
}
use mathlib.Core.Path.{subst}
use cldctl.Planner.{Plan, PlanOptions, existing_resources, is_empty, plan}
use cldctl.Prelude.Results.{ok}
use cldctl.Graph.Topo.{topological_sort}
use cldctl.Planner.Range.{IsRange}

statuses-IsRecorded :
    (components : Dict ComponentState)
    → IsRecorded components
    → IsRecorded (map_values {V = ComponentState} (λ _ comp. component_status comp) components)
unfolding map_values
statuses-IsRecorded [] h = tt
statuses-IsRecorded ((k, comp) ∷ m) h = (h.0, same_keys comp h.1, statuses-IsRecorded m h.2)
  where
    same_keys : (c : ComponentState) → HasResourceKeys c → HasResourceKeys (component_status c)
    same_keys c keyed =
        subst (λ (rs : Dict ResourceState). All IsResourceKey (keys rs))
          (sym (resources-component_status c)) keyed

module _ (options : Options) (outside : Outside) where
  store_outputs-IsRecorded :
      (g : Graph) (env : EnvironmentState) (name : Text) (resolved : Dict Value)
      → HasNoSlash name
      → IsRecorded env.components
      → IsRecorded (store_outputs options outside g env name resolved).components
  unfolding store_outputs new_component_state keys
  store_outputs-IsRecorded g env name resolved no_slash h =
      let after : Dict ComponentState =
        (store_outputs options outside g env name resolved).components in
      elim (Option-cases (get env.components name)) [
        | inl absent ↦
            let fresh : ComponentState = record (new_component_state options g name) {
              outputs = resolved;
              status = ResourceStatus.ready;
            } in
            let e : put env.components name fresh ≡ after = ground (arith, absent) in
            subst IsRecorded e (put-IsRecorded env.components name fresh no_slash tt h)
        | inr (comp, there) ↦
            let changed : ComponentState = record comp { outputs = resolved } in
            let e : put env.components name changed ≡ after = ground (arith, there) in
            subst IsRecorded e (
              put-IsRecorded env.components name changed no_slash
                (get-IsRecorded env.components name comp there h).1 h)
      ]

  resolve_and_store-IsRecorded :
      (g : Graph) (exprs : Dict (Dict Text)) (env : EnvironmentState)
      → All HasNoSlash (keys exprs)
      → IsRecorded env.components
      → IsRecorded (resolve_and_store options outside g exprs env).components
  unfolding resolve_and_store keys
  resolve_and_store-IsRecorded g [] env names h = h
  resolve_and_store-IsRecorded g ((name, e) ∷ exprs) env names h =
      resolve_and_store-IsRecorded g exprs (store_outputs options outside g env name _) names.1
        (store_outputs-IsRecorded g env name _ names.0 h)

  finished :
      (run : Run)
      → IsFit run.world
      → IsRecorded
          (resolve_and_store options outside run.world.graph run.world.graph.component_output_exprs
            (compute_component_statuses run.world.env)).components
  unfolding compute_component_statuses
  finished run fit =
      resolve_and_store-IsRecorded run.world.graph run.world.graph.component_output_exprs _
        fit.outputs (statuses-IsRecorded run.world.env.components fit.holds)

  finish_run-Holds :
      (save_error : Option Text) (run : Run)
      → IsFit run.world
      → Holds (finish_run options outside save_error run).world
  unfolding finish_run compute_component_statuses save_state
  finish_run-Holds none run fit = finished run fit
  finish_run-Holds (some m) run fit = finished run fit

-- What is stored at the start of an execution is recorded.
abbrev pub IsRecordedState : Option EnvironmentState → Type 0
IsRecordedState none = Unit
IsRecordedState (some env) = IsRecorded env.components

module _ (options : Options) (outside : Outside) where
  start_run-IsFit :
      (p : Plan) (g : Graph) (stored : Option EnvironmentState)
      → IsRecordedState stored
      → All HasNoSlash (keys g.component_output_exprs)
      → IsFit (start_run options outside p g stored).world
  unfolding start_run save_state new_environment
  start_run-IsFit p g none h names = record { holds = tt; outputs = names }
  start_run-IsFit p g (some env) h names = record { holds = h; outputs = names }

  execute-Holds :
      (interrupts : ℕ → Bool) (save_error : Option Text) (p : Plan) (g : Graph)
      (stored : Option EnvironmentState) (w : World)
      → IsRecordedState stored
      → All HasNoSlash (keys g.component_output_exprs)
      → All (λ c. IsNamed c.node) p.changes
      → (execute options outside interrupts save_error p g stored).1 ≡ some w
      → Holds w
  unfolding execute
  execute-Holds interrupts save_error p g stored w h names named e =
      let last =
        run_changes options outside interrupts 0 p.changes (start_run options outside p g stored) in
      let fit =
        run_changes-IsFit options outside interrupts 0 p.changes
          (start_run options outside p g stored) named (start_run-IsFit p g stored h names) in
      elim (Bool-cases (is_empty p)) [
        | inl empty ↦ absurd (ground (arith, empty, e))
        | inr full ↦
            let out : (finish_run options outside save_error last).world ≡ w =
              ground (arith, full, e) in
            subst Holds out (finish_run-Holds options outside save_error last fit)
      ]

-- Whatever happens in an execution that starts from a state that is recorded or from none: if no
-- component in it has a slash in its name and node types are plain, then a plan against the state
-- that it leaves, for a graph whose node IDs have the form of `NewNode` or `NewInstanceNode` with
-- such names, finds none of the stored resources: it creates every node, deletes every stored
-- shared resource, updates nothing and finds nothing up to date. The loop over the stored resources may
-- take any order, but meets each of them once.
pub execute-plan_recreates :
    (options : Options) (outside : Outside) (interrupts : ℕ → Bool) (save_error : Option Text)
    (p : Plan) (g : Graph) (stored : Option EnvironmentState) (w : World)
    (range : Dict ResourceState → Dict ResourceState) (plan_options : PlanOptions) (g' : Graph)
    (sorted : List Node) (q : Plan)
    → IsRange range
    → IsRecordedState stored
    → All HasNoSlash (keys g.component_output_exprs)
    → All (λ c. IsNamed c.node) p.changes
    → (execute options outside interrupts save_error p g stored).1 ≡ some w
    → (topological_sort g').1 ≡ ok sorted
    → (plan range plan_options g' (some w.env)).1 ≡ ok q
    → All IsPlanned sorted
    → (q.to_create ≡ length sorted)
      × (q.to_delete ≡ length (existing_resources (some w.env)))
      × (q.to_update ≡ 0)
      × (q.no_change ≡ 0)
execute-plan_recreates options outside interrupts save_error p g stored w range plan_options g'
      sorted q ranged h names named e sorts plans planned =
    redeploy-recreates range plan_options g' w.env sorted q ranged sorts plans
      (execute-Holds options outside interrupts save_error p g stored w h names named e) planned
