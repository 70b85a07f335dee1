-- ===== src/Lib.antt =====
-- cldctl deploys components into environments. A deployment builds a graph of resources with their
-- dependencies, plans the changes from the stored state of the environment to the graph, and executes
-- the changes in the order of the plan, where each change is saved to the state as it happens.
--
-- The parts and where they are modelled:
--
--   pkg/graph (graph.go, node.go)   Graph, with Graph/Topo for `TopologicalSort`. A Go pointer to a
--     node is the entry of the node in the graph's map. Graph/Edges, Graph/Built, Graph/Kahn,
--     Graph/Order and Graph/Cycles hold the proofs.
--   pkg/state/types (types.go)      Types: what is stored for an environment, without times.
--   pkg/engine/planner (planner.go) Planner, with the proofs in Planner/Inputs, Planner/Counts and
--     Planner/Destroy. Planner/Range says what is known of the order in which a loop ranges over a map.
--   pkg/engine/executor (executor.go) Executor: the state that operations share, as a `World` of the
--     graph, the environment in memory and the environments saved so far. Executor/Change is
--     `executeChange` with what it dispatches to, Executor/Run is `Execute`, Executor/Status is
--     `computeComponentStatuses` and Executor/Port is `stablePortForNode`. Executor/Parallel is
--     `ExecuteParallel`: the blocks that run under its mutex are functions on what the goroutines share,
--     and Executor/Parallel/Steps puts them together as a step relation, with every interleaving.
--   pkg/engine (engine.go)          Engine: `Destroy`, `DestroyComponent` and `FindDependents`, with the
--     proofs in Engine/Bare, Engine/Destroy and Engine/Dependents.
--   pkg/state (manager.go, backend) State: State/Paths are the paths with what they use of Go's package
--     `path`, State/Backend is the interface of a backend with what its comments promise as `IsStore` and
--     `IsListing`, State/Manager has the operations, and State/Local is the backend for local files, over
--     the calls of the operating system in State/Os, with the proofs on `Lock` in State/Local/Laws and on
--     `Write` in State/Local/Writes. State/Runs has the refinement, and State/Prefixes what a backend does
--     that lists by a prefix of the key.
--   pkg/engine/expression (expression.go, functions.go, evaluator.go, parser.go) Expression:
--     Expression/Functions are the pipe functions, Expression/Resolve and Expression/Others the values that a
--     reference can name, Expression/Evaluator the evaluation, and Expression/Parser reads references; the proofs are
--     in Expression/Laws, Expression/Endpoints, Expression/Typing and Expression/RoundTrip.
--   Redeploy puts planner and executor together: the keys under which resources are stored and found,
--     with the proofs of what the executor keeps in Redeploy/Keeps, Redeploy/Changes, Redeploy/Runs and
--     Redeploy/Twice.
--   Samples holds small concrete graphs, plans and runs.
--
-- Text, Dict and Value model Go's strings (lists of bytes), maps with string keys (association lists
-- in the order in which a loop meets the entries, which Go leaves open) and `interface{}` values with
-- their `%v` format. A function's state is passed in and returned. Errors are values of `GraphError`
-- and `ExecError`; a Go error's text is kept where the program stores it.
--
-- Bounds and fuel: Kahn's loop runs on fuel, the number of nodes, which is enough since a node of a
-- linked graph is queued once at most. The digits of a number n are printed with fuel n + 1.
-- The passes of `findAndLaunchReady` run on fuel, one more than there are pending nodes: each pass but
-- the last fails one. `splitPath` runs on fuel, the length of the path and one more: each turn of its
-- loop drops a piece of the path. Hashes are Go's 64-bit `int` with its wrap-around; the counters of a
-- run are natural numbers.
--
-- Not modelled: times, progress callbacks, logs and debug output; floats; the locks of the sequential
-- executor. The datacenter's hooks, the IaC plugins and the resolution of expressions in inputs and
-- outputs are parameters, the record `Outside`; where a theorem needs them to work, `IsSound` says so.
-- What `encoding/json` does is a parameter, `Codec`, and so are the calls of `os`, `io` and
-- `path/filepath`, the record `Os`: `IsSparing` and `IsRemoving` say what the theorems need of them.
-- Whether the state manager fails to delete the state at the end of a destroy is a parameter of it. The backends of the clouds, the
-- regular expression that finds expressions in a string, the builder of the graph, the schemas, the
-- registries and the command line are left out.
pub mod Prelude
pub mod Text
pub mod Dict
pub mod Value
pub mod Graph
pub mod Types
pub mod Planner
pub mod State
pub mod Expression
pub mod Redeploy
pub mod Executor
pub mod Engine
pub mod Samples
