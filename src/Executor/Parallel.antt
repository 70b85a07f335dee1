-- ===== src/Executor/Parallel.antt =====
-- pkg/engine/executor/executor.go, `ExecuteParallel`: what the goroutines share, the blocks of code
-- that run under the mutex `mu`, and the start and the end of the run. Steps puts them together.
pub mod Finish
pub mod Steps
pub mod Invariant
pub mod Passes
pub mod Sane
pub mod Safety
pub mod Counted
pub mod Totals
pub mod Success
pub mod Settled
pub mod Launched
pub mod Progress
pub mod Drained
use cldctl.Dict.{Dict, get, keys, put, remove}
use cldctl.Types.{EnvironmentState, ResourceStatus}
use cldctl.Executor.{
  ExecError, ExecutionResult, NodeResult, Options, Outside, World, cancelled, dependency_failed,
  deployment_stopped, put_shared, resource_of, set_node, store, current_node,
}
use cldctl.Graph.{Graph}
use cldctl.Planner.{Plan, ResourceChange}
use cldctl.Text.{Text, same}
use cldctl.Executor.Run.{count_result, start_run, update_node}
use cldctl.Executor.Change.{failed_with, message}
use cldctl.Graph.Topo.{ids}
use cldctl.Prelude.{
  Bool, List, Option, [], all, any, false, if◌then◌else◌, keep, length, none, not, some, suc, true,
  zero, ℕ, ◌&&◌, ◌++◌, ◌+◌, ◌||◌, ◌∷◌,
}

-- What the goroutines share. The Go maps to `bool` are lists of the keys that are set. `waiting` are
-- the goroutines in front of the semaphore, `running` those that hold it and execute their change,
-- `turned` those that met a done context instead and have told the wait group, but not yet taken the
-- mutex, and `leaving` counts those that hold the semaphore and are through with their change. `is_done` is whether the
-- context of the run is done, `interrupted` whether the caller's is.
pub record Shared : Type 0 where
  pub world : World
  pub result : ExecutionResult
  pub pending : Dict ResourceChange
  pub completed : List Text
  pub failed : List Text
  pub in_flight : List Text
  pub is_cancelled : Bool
  pub is_done : Bool
  pub interrupted : Bool
  pub waiting : List ResourceChange
  pub running : List ResourceChange
  pub turned : List ResourceChange
  pub leaving : ℕ

-- `m[id]`
unfoldable pub member : Text → List Text → Bool
member id ids = any (same id) ids

-- `delete(m, id)`
unfoldable pub without : Text → List Text → List Text
without id ids = keep (λ j. not (same id j)) ids

unfoldable pub first_failed : List Text → List Text → Option Text
unfolding member
first_failed failed [] = none
first_failed failed (d ∷ deps) =
    let rest = first_failed failed deps in if member d failed then some d else rest

-- `result.NodeResults[id] = ...` and the counters of a node that failed without being executed.
unfoldable pub record_failure : ExecutionResult → ResourceChange → ExecError → ExecutionResult
record_failure result c error = record result {
  node_results = put result.node_results c.node.id (failed_with c.node c.action error);
  failed = result.failed + 1;
  success = false;
}

-- One round of the loop that fills `pending`.
unfoldable pub all_pending : List ResourceChange → Dict ResourceChange → Dict ResourceChange
all_pending [] pending = pending
all_pending (c ∷ cs) pending = all_pending cs (put pending c.node.id c)

-- The result that a goroutine keeps: after a stop it is a plain "cancelled".
unfoldable pub kept_result : Shared → NodeResult → NodeResult
kept_result s r =
    if not r.success && (s.is_done && not s.interrupted)
    then record r { error = some cancelled }
    else r

-- The block under the mutex of a goroutine that met a done context.
unfoldable pub turn_away : ResourceChange → Shared → Shared
unfolding record_failure without
turn_away c s = record s {
  in_flight = without c.node.id s.in_flight;
  failed = c.node.id ∷ s.failed;
  result = record_failure s.result c cancelled;
}

-- One iteration of the second pass: a goroutine is started for a node that is ready.
unfoldable pub launch_one : Text → Shared → Shared
launch_one id s = if member id s.in_flight then s else elim (get s.pending id) [
  | none ↦ s
  | some c ↦
      if all (λ d. member d s.completed) c.node.depends_on
      then record s { in_flight = id ∷ s.in_flight; waiting = s.waiting ++ c ∷ [] }
      else s
]

unfoldable pub launch_pass : List Text → Shared → Shared
launch_pass [] s = s
launch_pass (id ∷ ids) s = launch_pass ids (launch_one id s)

unfoldable pub is_empty_list : List Text → Bool
is_empty_list [] = true
is_empty_list (x ∷ xs) = false

module _ (options : Options) (outside : Outside) where
  -- A pending node fails without being executed; the failure is saved in the state.
  unfoldable pub fail_node : ResourceChange → ExecError → Shared → Shared
  unfolding record_failure store put_shared resource_of message
  fail_node c error s =
      let node = record c.node {
        inputs = outside.resolve_inputs s.world.graph s.world.env c.node;
      } in
      record s {
        result = record_failure s.result c error;
        pending = remove s.pending c.node.id;
        failed = c.node.id ∷ s.failed;
        world =
            store put_shared options node
              (record (resource_of node ResourceStatus.failed) { status_reason = message error })
              (record s.world { graph = set_node s.world.graph node });
      }

  -- One iteration of the first pass over the pending nodes; beside the state stands whether it failed
  -- a node.
  unfoldable pub cascade_one : Text → Shared → Shared × Bool
  cascade_one id s = if member id s.in_flight then (s, false) else elim (get s.pending id) [
    | none ↦ (s, false)
    | some c ↦ elim (first_failed s.failed c.node.depends_on) [
      | none ↦ (s, false)
      | some dep ↦ (fail_node c (dependency_failed dep) s, true)
    ]
  ]

  unfoldable pub cascade_pass : List Text → Shared → Shared × Bool
  cascade_pass [] s = (s, false)
  cascade_pass (id ∷ ids) s =
      let (s', now) = cascade_one id s in
      let (s'', later) = cascade_pass ids s' in (s'', now || later)

  -- The passes are repeated until one fails no node. The fuel bounds their number.
  unfoldable pub cascade : ℕ → Shared → Shared
  cascade zero s = s
  cascade (suc fuel) s =
      let (s', cascaded) = cascade_pass (keys s.pending) s in
      elim cascaded [ true ↦ cascade fuel s' | false ↦ s' ]

  -- One iteration of the loop that gives up after a failure.
  unfoldable pub stop_one : Text → Shared → Shared
  stop_one id s =
      if member id s.in_flight
      then s
      else elim (get s.pending id) [ none ↦ s | some c ↦ fail_node c deployment_stopped s ]

  unfoldable pub stop_pass : List Text → Shared → Shared
  stop_pass [] s = s
  stop_pass (id ∷ ids) s = stop_pass ids (stop_one id s)

  unfoldable pub give_up : Shared → Shared
  give_up s = record (stop_pass (keys s.pending) s) { is_done = true }

  -- `findAndLaunchReady`, with a pass for each pending node and one more.
  unfoldable pub find_and_launch_ready : Shared → Shared
  find_and_launch_ready s =
      if s.is_done
      then record s { is_cancelled = true }
      else (let s' = cascade (length s.pending + 1) s in
          if options.stop_on_error && not (is_empty_list s'.failed)
          then give_up s'
          else launch_pass (keys s'.pending) s')

  -- What a goroutine notes of a change that is through, whatever its result.
  unfoldable pub note_result : ResourceChange → NodeResult → Shared → Shared
  note_result c r s = record s {
    result =
        count_result (record s.result { node_results = put s.result.node_results c.node.id r })
          c.action r.success;
    world = record s.world {
      graph =
          set_node s.world.graph
            (update_node options outside (current_node s.world.graph c.node) r s.world.graph);
    };
    pending = remove s.pending c.node.id;
    in_flight = without c.node.id s.in_flight;
  }

  -- The block under the mutex after `executeChange`, to the call of `findAndLaunchReady`.
  unfoldable pub complete : ResourceChange → NodeResult → Shared → Shared
  complete c r s =
      let noted = note_result c r s in
      if r.success then record noted { completed = c.node.id ∷ s.completed } else record noted {
        result = record noted.result {
          success = false;
          errors = noted.result.errors ++ r.error ∷ [];
        };
        failed = c.node.id ∷ s.failed;
      }

  -- From the first lines to the declaration of `findAndLaunchReady`.
  unfoldable pub initial_shared : Plan → Graph → Option EnvironmentState → Shared
  initial_shared p g stored =
      let run = start_run options outside p g stored in
      record {
        world = run.world;
        result = run.result;
        pending = all_pending p.changes [];
        completed = [];
        failed = [];
        in_flight = [];
        is_cancelled = false;
        is_done = false;
        interrupted = false;
        waiting = [];
        running = [];
        turned = [];
        leaving = 0;
      }

  -- The same, with the initial launch.
  unfoldable pub start_parallel : Plan → Graph → Option EnvironmentState → Shared
  start_parallel p g stored = find_and_launch_ready (initial_shared p g stored)
