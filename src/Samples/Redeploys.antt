-- ===== src/Samples/Redeploys.antt =====
-- A witness on a deployment and the plan after it.
use cldctl.Prelude.{All, arith, length, none, refl, some, ◌≡◌}
use cldctl.Redeploy.{HasNoSlash}
use cldctl.Redeploy.Keeps.{IsNamed}
use cldctl.Planner.{
  Plan, existing_resources, find_existing, first_some, is_empty, plan_node_change, plan_sorted,
}
use cldctl.Executor.{World}
use cldctl.Graph.{add_dependency, add_dependent, new_graph, new_node}
use cldctl.Samples.Runs.{calm, changes, executor_options, outside}
use cldctl.Text.{codes}
use cldctl.Samples.Plans.{
  database-IsPlain, options, plan_of_sort, sorted, sorted-IsPlanned, web-HasNoSlash, stored_order,
  stored_order-IsRange,
}
use cldctl.Executor.Run.{execute, finish_run, run_changes, start_run}
use cldctl.Redeploy.Twice.{execute-plan_recreates}
use cldctl.Dict.{get, keys}
use cldctl.Samples.{needs_main}
use cldctl.Samples.Sorting.{needs_main-sorted}

abbrev first_plan : Plan
first_plan = record {
  environment = codes "dev";
  datacenter = codes "dc";
  changes = changes;
  to_create = 2;
  to_update = 0;
  to_delete = 0;
  no_change = 0;
}

abbrev deployed : World
deployed =
    (finish_run executor_options outside none (
      run_changes executor_options outside calm 0 changes
        (start_run executor_options outside first_plan needs_main none))).world

deploys : (execute executor_options outside calm none first_plan needs_main none).1 ≡ some deployed
unfolding execute is_empty
deploys = refl

changes-IsNamed : All (λ c. IsNamed c.node) changes
unfolding plan_node_change find_existing get first_some new_node add_dependency add_dependent
changes-IsNamed = ((web-HasNoSlash, database-IsPlain), ((web-HasNoSlash, ground arith), tt))

no_outputs : All HasNoSlash (keys needs_main.component_output_exprs)
unfolding new_graph keys
no_outputs = tt

abbrev second_plan : Plan
second_plan = plan_sorted stored_order options needs_main (some deployed.env) sorted

execute-plan_recreates_example :
    (second_plan.to_create ≡ length sorted)
    × (second_plan.to_delete ≡ length (existing_resources (some deployed.env)))
    × (second_plan.to_update ≡ 0)
    × (second_plan.no_change ≡ 0)
execute-plan_recreates_example =
    execute-plan_recreates executor_options outside calm none first_plan needs_main none deployed
      stored_order options needs_main sorted second_plan stored_order-IsRange tt no_outputs
      changes-IsNamed deploys needs_main-sorted
      (plan_of_sort stored_order options needs_main (some deployed.env) sorted needs_main-sorted)
      sorted-IsPlanned
