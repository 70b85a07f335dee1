-- ===== src/Redeploy/Runs.antt =====
-- pkg/engine/executor/executor.go: the keys of stored resources in an execution.
use cldctl.Planner.{Action, ResourceChange}
use cldctl.Prelude.{
  All, arith, refl, ◌≡◌, Bool, Bool-cases, List, [], false, inl, inr, sym, true, ℕ, ◌+◌, ◌∷◌,
}
use cldctl.Redeploy.{HasNoSlash, IsRecorded}
use cldctl.Redeploy.Keeps.{Holds, IsNamed, put_shared-HasResourceKeys, store-Holds}
use cldctl.Executor.{HookResult, Options, Outside, World, save_state, store, set_node, put_shared}
use cldctl.Graph.{Node, Graph}
use cldctl.Prelude.Results.{Result, err, ok}
use cldctl.Text.{Text}
use cldctl.Executor.Change.{
  execute_apply, execute_change, execute_database_user_passthrough, execute_destroy, execute_hook,
  execute_network_policy_noop, execute_port_allocation, finish_hook, inject_parent_database_outputs,
}
use cldctl.Dict.{keys, Dict}
use cldctl.Types.{EnvironmentState}
use cldctl.Executor.Run.{
  Run, apply_change, are_dependencies_satisfied, fail_dependency, run_change, run_changes,
}
use cldctl.Redeploy.Changes.{change-Leaves}
use mathlib.Core.Path.{subst}

-- The state is recorded, and no component with output expressions has a slash in its name.
pub record IsFit (w : World) : Type 0 where
  pub holds : Holds w
  pub outputs : All HasNoSlash (keys w.graph.component_output_exprs)

module _ (options : Options) (outside : Outside) where
  graph-execute_destroy :
      (node : Node) (action : Action) (w : World)
      → (execute_destroy options outside node action w).1.graph ≡ w.graph
  unfolding execute_destroy save_state
  graph-execute_destroy node action w = ground arith

  graph-execute_hook :
      (node : Node) (action : Action) (w : World)
      → (execute_hook options outside node action w).1.graph ≡ w.graph
  unfolding execute_hook store save_state
  graph-execute_hook node action w = go _ _
    where
      go :
          (r : Result Text HookResult) (w' : World)
          → (finish_hook options outside node action r w').1.graph ≡ w'.graph
      go (ok r) w' = refl
      go (err m) w' = refl

  graph-execute_apply :
      (node : Node) (action : Action) (w : World)
      → (execute_apply options outside node action w).1.1.graph ≡ w.graph
  unfolding execute_apply execute_port_allocation execute_database_user_passthrough
      execute_network_policy_noop store save_state
  graph-execute_apply node action w =
      let resolved : Node = record node { inputs = outside.resolve_inputs w.graph w.env node } in
      ground (
        arith,
        graph-execute_hook (inject_parent_database_outputs w.graph resolved) action w,
        graph-execute_hook resolved action w,
      )

  graph-execute_change :
      (c : ResourceChange) (w : World) → (execute_change options outside c w).1.1.graph ≡ w.graph
  unfolding execute_change
  graph-execute_change c w =
      ground (arith, graph-execute_apply c.node c.action w, graph-execute_destroy c.node c.action w)

  exprs-set_node :
      (g : Graph) (n : Node) → (set_node g n).component_output_exprs ≡ g.component_output_exprs
  unfolding set_node
  exprs-set_node g n = ground arith

  env-apply_change :
      (c : ResourceChange) (run : Run)
      → ((apply_change options outside c run).0).world.env
        ≡ (execute_change options outside c run.world).1.1.env
  unfolding apply_change
  env-apply_change c run = ground arith

  exprs-apply_change :
      (c : ResourceChange) (run : Run)
      → ((apply_change options outside c run).0).world.graph.component_output_exprs
        ≡ run.world.graph.component_output_exprs
  unfolding apply_change set_node
  exprs-apply_change c run = ground (arith, graph-execute_change c run.world)

  apply_change-IsFit :
      (c : ResourceChange) (run : Run)
      → IsNamed c.node
      → IsFit run.world
      → IsFit ((apply_change options outside c run).0).world
  apply_change-IsFit c run named fit = record {
    holds =
        subst (λ (e : EnvironmentState). IsRecorded e.components) (sym (env-apply_change c run))
          (change-Leaves options outside c run.world (λ _. named) fit.holds).holds;
    outputs =
        subst (λ (m : Dict (Dict Text)). All HasNoSlash (keys m)) (sym (exprs-apply_change c run))
          fit.outputs;
  }

  fail_dependency-IsFit :
      (c : ResourceChange) (run : Run)
      → IsNamed c.node
      → IsFit run.world
      → IsFit (fail_dependency options outside c run).world
  unfolding fail_dependency store save_state
  fail_dependency-IsFit c run named fit =
      let w = run.world in
      let node : Node = record c.node { inputs = outside.resolve_inputs w.graph w.env c.node } in
      record {
        holds =
            store-Holds options put_shared put_shared-HasResourceKeys node _
              (record w { graph = set_node w.graph node }) named fit.holds;
        outputs =
            subst (λ (m : Dict (Dict Text)). All HasNoSlash (keys m))
              (sym (exprs-set_node w.graph node)) fit.outputs;
      }

  run_change-IsFit :
      (b : Bool) (c : ResourceChange) (run : Run)
      → IsNamed c.node
      → IsFit run.world
      → IsFit ((run_change options outside b c run).0).world
  unfolding run_change
  run_change-IsFit true c run named fit = fit
  run_change-IsFit false c run named fit =
      elim (Bool-cases (are_dependencies_satisfied c.node run.result.node_results)) [
        | inl ready_now ↦ rw ready_now (apply_change-IsFit c run named fit)
        | inr blocked ↦ rw blocked (fail_dependency-IsFit c run named fit)
      ]

  pub run_changes-IsFit :
      (interrupts : ℕ → Bool) (n : ℕ) (cs : List ResourceChange) (run : Run)
      → All (λ c. IsNamed c.node) cs
      → IsFit run.world
      → IsFit (run_changes options outside interrupts n cs run).world
  unfolding run_changes
  run_changes-IsFit interrupts n [] run named fit = fit
  run_changes-IsFit interrupts n (c ∷ cs) run named fit =
      let next = run_change-IsFit (interrupts n) c run named.0 fit in
      elim (Bool-cases (run_change options outside (interrupts n) c run).1) [
        | inl more ↦
            rw (more, run_changes)
              (run_changes-IsFit interrupts (n + 1) cs
                (run_change options outside (interrupts n) c run).0 named.1 next)
        | inr stop ↦ rw (stop, run_changes) next
      ]
