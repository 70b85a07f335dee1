-- ===== src/Samples/Parallels.antt =====
-- An execution with `ExecuteParallel`: two changes, one after the other, with one place.
use cldctl.Executor.{NodeResult, cancelled}
use cldctl.Planner.{Plan, ResourceChange, create, is_empty}
use cldctl.Executor.Parallel.{
  Shared, all_pending, cascade, cascade_one, cascade_pass, complete, find_and_launch_ready,
  first_failed, initial_shared, kept_result, launch_one, launch_pass, member, note_result,
  start_parallel, without, is_empty_list,
}
use cldctl.Prelude.{
  [], all, any, keep, none, refl, true, ◌+◌, ◌∷◌, ◌≡◌, arith, false, All, length, ◌≤◌, some,
}
use cldctl.Samples.Runs.{executor_options, outside, at_most_once}
use cldctl.Text.{codes, same, Text}
use cldctl.Graph.{database, deployment, new_node, node_id}
use cldctl.Executor.Change.{failed_with}
use cldctl.Dict.{get, keys, put, remove}
use cldctl.Samples.{needs_main, web}
use cldctl.Executor.Run.{
  start_run, count_result, finish_run, are_dependencies_satisfied, dependency_succeeded, Run,
}
use cldctl.Executor.Parallel.Success.{parallel_success_means_all}
use cldctl.Executor.Parallel.Steps.{Reachable, acquire, finish, next, release, HasStopped, ended}
use cldctl.Executor.Run.Success.{IsFollowing}
use cldctl.Executor.Run.Order.{change_ids}
use cldctl.Executor.Parallel.Drained.{no_node_is_stuck, Reachable-IsSettled}
use cldctl.Text.Sort.{occ}
use cldctl.Executor.Parallel.Totals.{running_fits}
use cldctl.Executor.Parallel.Safety.{running_is_new, running_is_ready}
use cldctl.Executor.Parallel.Finish.{finish_parallel, mark_stuck}
use cldctl.Executor.Parallel.Launched.{IsSettled}

abbrev first : ResourceChange
first = record {
  node = new_node database web (codes "a");
  action = create;
  current_state = none;
  property_changes = [];
  reason = [];
}

abbrev second : ResourceChange
second = record {
  node = record (new_node deployment web (codes "b")) { depends_on = codes "web/database/a" ∷ [] };
  action = create;
  current_state = none;
  property_changes = [];
  reason = [];
}

abbrev small_plan : Plan
small_plan = record {
  environment = codes "dev";
  datacenter = codes "local";
  changes = first ∷ second ∷ [];
  to_create = 2;
  to_update = 0;
  to_delete = 0;
  no_change = 0;
}

abbrev success_of : ResourceChange → NodeResult
success_of c = record (failed_with c.node create cancelled) { success = true; error = none }

abbrev finished : Shared → ResourceChange → Shared
finished s c = find_and_launch_ready executor_options outside (
    complete executor_options outside c (kept_result s (success_of c))
      (record s { running = []; leaving = s.leaving + 1 }))

abbrev launched : Shared → ResourceChange → Shared
launched s c = record s { waiting = []; running = c ∷ s.running }

abbrev s0 : Shared
s0 = start_parallel executor_options outside small_plan needs_main none

abbrev s1 : Shared
s1 = launched s0 first

abbrev s2 : Shared
s2 = record (finished s1 first) { leaving = 0 }

abbrev s3 : Shared
s3 = launched s2 second

abbrev s4 : Shared
s4 = finished s3 second

s3-runs : s3.running ≡ second ∷ []
unfolding start_parallel initial_shared find_and_launch_ready cascade cascade_pass cascade_one
    first_failed member launch_pass launch_one complete note_result all_pending put get remove keys
    without keep any same new_node node_id all start_run kept_result is_empty_list
s3-runs = refl

s4-HasStopped : HasStopped s4
unfolding start_parallel initial_shared find_and_launch_ready cascade cascade_pass cascade_one
    first_failed member launch_pass launch_one complete note_result all_pending put get remove keys
    without keep any same new_node node_id all start_run kept_result is_empty_list
s4-HasStopped = record { no_waiting = refl; no_running = refl }

s4-success : (finish_parallel executor_options outside none s4).result.success ≡ true
unfolding start_parallel initial_shared find_and_launch_ready cascade cascade_pass cascade_one
    first_failed member launch_pass launch_one complete note_result all_pending put get remove keys
    without keep any same new_node node_id all start_run kept_result is_empty_list finish_parallel
    mark_stuck finish_run count_result
s4-success = refl

s4-goes_on : s4.is_done ≡ false
unfolding start_parallel initial_shared find_and_launch_ready cascade cascade_pass cascade_one
    first_failed member launch_pass launch_one complete note_result all_pending put get remove keys
    without keep any same new_node node_id all start_run kept_result is_empty_list
s4-goes_on = refl

abbrev Reached : Shared → Type 0
Reached = Reachable executor_options outside 1 small_plan needs_main none

s1-Reached : Reached s1
unfolding start_parallel initial_shared find_and_launch_ready cascade cascade_pass cascade_one
    first_failed member launch_pass launch_one complete note_result all_pending put get remove keys
    without keep any same new_node node_id all start_run kept_result is_empty_list
s1-Reached = next s0 s1 Reachable.start (acquire [] [] first refl (omega arith))

s2-Reached : Reached s2
unfolding start_parallel initial_shared find_and_launch_ready cascade cascade_pass cascade_one
    first_failed member launch_pass launch_one complete note_result all_pending put get remove keys
    without keep any same new_node node_id all start_run kept_result is_empty_list
s2-Reached =
    next (finished s1 first) s2
      (next s1 (finished s1 first) s1-Reached (finish [] [] first (success_of first) refl))
      (release 0 refl)

s3-Reached : Reached s3
unfolding start_parallel initial_shared find_and_launch_ready cascade cascade_pass cascade_one
    first_failed member launch_pass launch_one complete note_result all_pending put get remove keys
    without keep any same new_node node_id all start_run kept_result is_empty_list
s3-Reached = next s2 s3 s2-Reached (acquire [] [] second refl (omega arith))

s4-Reached : Reached s4
unfolding start_parallel initial_shared find_and_launch_ready cascade cascade_pass cascade_one
    first_failed member launch_pass launch_one complete note_result all_pending put get remove keys
    without keep any same new_node node_id all start_run kept_result is_empty_list
s4-Reached = next s3 s4 s3-Reached (finish [] [] second (success_of second) refl)

running_is_ready_example : are_dependencies_satisfied second.node s3.result.node_results ≡ true
running_is_ready_example =
    running_is_ready executor_options outside 1 small_plan needs_main none s3 [] [] second
      s3-Reached s3-runs

running_is_new_example :
    (occ (codes "web/deployment/b") (change_ids s3.waiting)
        + occ (codes "web/deployment/b") (change_ids s3.running)
      ≤ 1)
    × (1 ≤ occ (codes "web/deployment/b") s3.completed
        → occ (codes "web/deployment/b") (change_ids s3.waiting)
            + occ (codes "web/deployment/b") (change_ids s3.running)
          ≡ 0)
running_is_new_example =
    running_is_new executor_options outside 1 small_plan needs_main none s3
      (codes "web/deployment/b") s3-Reached

running_fits_example : length s3.running ≤ 1
running_fits_example =
    running_fits executor_options outside 1 small_plan needs_main none s3 s3-Reached

second-planned : 1 ≤ occ second.node.id (change_ids small_plan.changes)
unfolding occ same new_node node_id
second-planned = omega arith

small_plan-full : is_empty small_plan ≡ false
unfolding is_empty
small_plan-full = refl

abbrev outcome : Run
outcome = finish_parallel executor_options outside none s4

parallel_success_means_all_example :
    dependency_succeeded outcome.result.node_results second.node.id ≡ true
parallel_success_means_all_example =
    parallel_success_means_all executor_options outside 1 small_plan needs_main none none
      outcome.result (some outcome.world) (ended s4 small_plan-full s4-Reached s4-HasStopped)
      small_plan-full s4-success second.node.id second-planned

second-apart : same second.node.id first.node.id ≡ false
unfolding same new_node node_id
second-apart = refl

small_plan-once : (k : Text) → occ k (change_ids small_plan.changes) ≤ 1
small_plan-once k = at_most_once second.node.id first.node.id k second-apart

small_plan-IsFollowing : IsFollowing [] small_plan.changes
unfolding occ new_node node_id
small_plan-IsFollowing = (λ id p. p, (λ id p. p, tt))

no_node_is_stuck_example : All (λ c. get s4.pending c.node.id ≡ none) small_plan.changes
no_node_is_stuck_example =
    no_node_is_stuck executor_options outside 1 small_plan needs_main none s4 s4-Reached
      s4-HasStopped s4-goes_on small_plan-once small_plan-IsFollowing

Reachable-IsSettled_example : IsSettled s2
Reachable-IsSettled_example =
    Reachable-IsSettled executor_options outside 1 small_plan needs_main none s2 s2-Reached
