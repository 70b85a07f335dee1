-- ===== src/Executor/Parallel/Finish.antt =====
-- pkg/engine/executor/executor.go, `ExecuteParallel`: after all goroutines have ended.
-- The entry of a node that is reported without a change of `Success`.
use cldctl.Dict.{Dict, put}
use cldctl.Types.{EnvironmentStatus}
use cldctl.Executor.{
  ExecError, ExecutionResult, Options, Outside, cancelled, context_done, node_stuck, save_state,
}
use cldctl.Prelude.{Option, [], false, if◌then◌else◌, none, some, ◌++◌, ◌+◌, ◌||◌, ◌∷◌}
use cldctl.Planner.{ResourceChange}
use cldctl.Executor.Run.{Run, finish_run, resolve_and_store}
use cldctl.Executor.Parallel.{Shared, member, record_failure}
use cldctl.Text.{Text}
use cldctl.Executor.Status.{compute_component_statuses}
use cldctl.Executor.Change.{failed_with}

unfoldable pub record_missing : ResourceChange → ExecError → ExecutionResult → ExecutionResult
record_missing c error result = record result {
  node_results = put result.node_results c.node.id (failed_with c.node c.action error);
  failed = result.failed + 1;
}

-- The loop over the nodes that are left when the run was cancelled.
unfoldable pub mark_cancelled : Shared → Dict ResourceChange → ExecutionResult → ExecutionResult
unfolding record_missing member
mark_cancelled s [] result = result
mark_cancelled s ((id, c) ∷ rest) result =
    if member id s.in_flight || (member id s.completed || member id s.failed)
    then mark_cancelled s rest result
    else mark_cancelled s rest (record_missing c cancelled result)

-- The loop over the nodes that are left when nothing was cancelled.
unfoldable pub mark_stuck : Shared → Dict ResourceChange → ExecutionResult → ExecutionResult
unfolding record_failure member
mark_stuck s [] result = result
mark_stuck s ((id, c) ∷ rest) result =
    if member id s.in_flight
    then mark_stuck s rest result
    else mark_stuck s rest (record_failure result c node_stuck)

module _ (options : Options) (outside : Outside) where
  -- From `wg.Wait()` to the end. `save_error` is the error of the last save.
  unfoldable pub finish_parallel : Option Text → Shared → Run
  unfolding mark_cancelled mark_stuck resolve_and_store compute_component_statuses save_state
  finish_parallel save_error s =
      let w = s.world in
      if s.is_cancelled || s.is_done
      then (let marked = mark_cancelled s s.pending s.result in
          let result = record marked {
            success = false;
            errors =
                if s.interrupted then marked.errors ++ some context_done ∷ [] else marked.errors;
          } in
          let resolved =
            resolve_and_store options outside w.graph w.graph.component_output_exprs
              (compute_component_statuses w.env) in
          let closing = record w { env = record resolved { status = EnvironmentStatus.failed } } in
          record {
            world = elim save_error [ none ↦ save_state closing | some m ↦ closing ];
            result = result;
          })
      else finish_run options outside save_error
          (record { world = w; result = mark_stuck s s.pending s.result })
