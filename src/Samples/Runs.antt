-- ===== src/Samples/Runs.antt =====
-- Witnesses on executions: the deployment and its database, with hooks that give no outputs.
use cldctl.Prelude.{
  All, Bool, List, [], any, arith, false, negsuc, none, pos, refl, true, ℕ, ◌+◌, ◌<◌, ◌↔◌, ◌∷◌, ◌≡◌,
  ◌≤◌,
}
use cldctl.Executor.Status.{AllReady, HasStatus, component_status, component_status_lem}
use cldctl.Executor.Run.Totals.{IsDone, IsGoodRun, run_changes-failed-le, run_changes-success}
use cldctl.Executor.Run.Success.{IsFollowing, execute-of_plan, run_changes-of_sound}
use cldctl.Executor.Run.Order.{IsJustified, change_ids, run_changes-IsJustified}
use cldctl.Executor.Change.Laws.{IsSound}
use cldctl.Graph.{Node, add_dependency, add_dependent, append_new, new_node, node_id}
use cldctl.Executor.{Options, Outside}
use cldctl.Executor.Port.{
  Overflows, hash_from, stable_port_for_node, stable_port_for_node_bounds,
  stable_port_for_node_overflow,
}
use cldctl.Planner.{
  Plan, ResourceChange, find_existing, first_some, is_empty, plan, plan_node_change, plan_sorted,
}
use cldctl.Types.{ResourceStatus}
use cldctl.Executor.Run.{Run, execute, run_changes, start_run}
use cldctl.Text.{Text, codes, same, same_iff}
use cldctl.Samples.Sorting.{api', main', needs_main-sorted, apart}
use cldctl.Dict.{get}
use cldctl.Samples.{needs_main, needs_main-IsLinked, api, main}
use cldctl.Text.Sort.{occ}
use cldctl.Prelude.Results.{ok}
use cldctl.Samples.Plans.{options, plan_of_sort, sorted, stored_web, stored_order}

abbrev pub executor_options : Options
executor_options = record {
  dry_run = false;
  stop_on_error = true;
  component_sources = [];
  component_variables = [];
  component_ports = [];
}

abbrev pub outside : Outside
outside = record {
  has_matching_hook = λ _. true;
  execute_hook_modules = λ _ _ _. ok (record { outputs = []; module_states = [] });
  port_hook = λ _ _. none;
  destroy = λ _ _. none;
  resolve_inputs = λ _ _ n. n.inputs;
  enrich_outputs = λ _ n. n.outputs;
  resolve_component_outputs = λ _ _ _. [];
}

outside-IsSound : IsSound executor_options outside
outside-IsSound = record {
  hooks = λ node env_name comp. (record { outputs = []; module_states = [] }, refl);
  destroys = λ node iac. refl;
}

abbrev pub calm : ℕ → Bool
calm n = false

abbrev deploy_plan : Plan
deploy_plan = plan_sorted stored_order options needs_main none sorted

execute-of_plan_example :
    ((execute executor_options outside calm none deploy_plan
        (plan stored_order options needs_main none).0
        none).0.success
      ≡ true)
    × (is_empty deploy_plan ≡ false
        → All
            (IsDone
              (execute executor_options outside calm none deploy_plan
                (plan stored_order options needs_main none).0
                none).0.node_results)
            deploy_plan.changes)
execute-of_plan_example =
    execute-of_plan stored_order options executor_options outside calm none needs_main none none
      sorted deploy_plan needs_main-IsLinked.0 needs_main-sorted
      (plan_of_sort stored_order options needs_main none sorted needs_main-sorted) outside-IsSound
      (λ n. refl)

abbrev change_of : Node → ResourceChange
change_of n = plan_node_change options n []

abbrev pub changes : List ResourceChange
changes = change_of main' ∷ change_of api' ∷ []

abbrev start : Run
start = start_run executor_options outside deploy_plan needs_main none

abbrev final : Run
final = run_changes executor_options outside calm 0 changes start

start-good : start.result.success ≡ true
unfolding start_run
start-good = refl

changes-IsFollowing : IsFollowing [] changes
unfolding occ new_node add_dependency add_dependent append_new any plan_node_change find_existing
    get first_some
changes-IsFollowing = (λ id p. p, (λ id p. p, tt))

run_changes-of_sound_example :
    (final.result.success ≡ true) × All (IsDone final.result.node_results) changes
run_changes-of_sound_example =
    run_changes-of_sound executor_options outside calm changes start outside-IsSound (λ n. refl)
      changes-IsFollowing start-good

final-good : final.result.success ≡ true
final-good =
    (run_changes-of_sound executor_options outside calm changes start outside-IsSound (λ n. refl)
      changes-IsFollowing start-good).0

run_changes-success_example : IsGoodRun changes start final
run_changes-success_example =
    run_changes-success executor_options outside calm changes start final-good

run_changes-failed-le_example : final.result.failed ≤ start.result.failed + 1
run_changes-failed-le_example =
    run_changes-failed-le executor_options outside calm changes start refl

pub at_most_once : (a b id : Text) → same a b ≡ false → occ id (b ∷ a ∷ []) ≤ 1
unfolding occ
at_most_once a b id h = ground (arith, same_iff id a, same_iff id b, same_iff a b, h)

once : (id : Text) → occ id (change_ids changes) ≤ 1
unfolding occ new_node add_dependency add_dependent plan_node_change find_existing get first_some
    node_id
once id = at_most_once api.id main.id id apart

run_changes-IsJustified_example : All (IsJustified final.result.node_results) changes
unfolding start_run
run_changes-IsJustified_example =
    run_changes-IsJustified executor_options outside calm changes start once refl

component_status_lem_example :
    (((component_status stored_web).status ≡ ResourceStatus.failed)
      ↔ HasStatus ResourceStatus.failed stored_web.resources)
    × (((component_status stored_web).status ≡ ResourceStatus.ready)
        ↔ AllReady stored_web.resources)
    × (((component_status stored_web).status ≡ ResourceStatus.provisioning) ↔ (
        (¬ HasStatus ResourceStatus.failed stored_web.resources)
        × (¬ AllReady stored_web.resources)))
component_status_lem_example = component_status_lem stored_web (λ e. absurd (ground (arith, e)))

fits : ¬ Overflows (codes "dev") (codes "web") (codes "http")
unfolding hash_from
fits = ground arith

stable_port_for_node_bounds_example :
    (p : ℕ) × (stable_port_for_node (codes "dev") (codes "web") (codes "http") ≡ pos p)
    × (10000 ≤ p)
    × (p < 60000)
stable_port_for_node_bounds_example =
    stable_port_for_node_bounds (codes "dev") (codes "web") (codes "http") fits

unlucky : Overflows (codes "dev") (codes "web") (codes "h1ZmifVnHScQ_")
unfolding hash_from
unlucky = refl

stable_port_for_node_overflow_example :
    stable_port_for_node (codes "dev") (codes "web") (codes "h1ZmifVnHScQ_") ≡ negsuc 15807
stable_port_for_node_overflow_example =
    stable_port_for_node_overflow (codes "dev") (codes "web") (codes "h1ZmifVnHScQ_") unlucky
