-- ===== src/Executor/Parallel/Steps.antt =====
-- pkg/engine/executor/executor.go, `ExecuteParallel`: the goroutines, as steps on what they share.
-- `parallelism` is the capacity of the semaphore. What `executeChange` returns is left open, and so is
-- what it does to the graph and the state while it runs.
use cldctl.Dict.{Dict, get}
use cldctl.Types.{EnvironmentState}
use cldctl.Graph.{Graph}
use cldctl.Prelude.{
  List, Option, length, suc, true, ℕ, ◌++◌, ◌+◌, ◌<◌, ◌∷◌, ◌≡◌, [], false, none, some,
}
use cldctl.Executor.{NodeResult, Options, Outside, World, ExecutionResult}
use cldctl.Planner.{Plan, ResourceChange, is_empty}
use cldctl.Executor.Parallel.{
  Shared, complete, find_and_launch_ready, kept_result, start_parallel, turn_away,
}
use cldctl.Text.{Text}
use cldctl.Executor.Run.{empty_result}
use cldctl.Executor.Parallel.Finish.{finish_parallel}

-- Two maps with the same entries: a `range` loop may meet them in another order each time.
pub record IsReordered (m m' : Dict ResourceChange) : Type 0 where
  pub same_entries : (k : Text) → get m' k ≡ get m k
  pub same_length : length m' ≡ length m

-- No goroutine is left, as far as the wait group knows.
pub record HasStopped (s : Shared) : Type 0 where
  pub no_waiting : s.waiting ≡ []
  pub no_running : s.running ≡ []

module _ (options : Options) (outside : Outside) (parallelism : ℕ) where
  pub data Step (s : Shared) : Shared → Type 0 where
    -- A goroutine takes the semaphore.
    acquire :
        (xs ys : List ResourceChange) (c : ResourceChange)
        → s.waiting ≡ xs ++ c ∷ ys
        → length s.running + s.leaving < parallelism
        → Step s (record s { waiting = xs ++ ys; running = c ∷ s.running })
    -- A goroutine meets a done context in front of the semaphore: `wg.Done()`,
    meet_done :
        (xs ys : List ResourceChange) (c : ResourceChange)
        → s.waiting ≡ xs ++ c ∷ ys
        → s.is_done ≡ true
        → Step s (record s { waiting = xs ++ ys; turned = c ∷ s.turned })
    -- and later its block under the mutex.
    turned_away :
        (xs ys : List ResourceChange) (c : ResourceChange)
        → s.turned ≡ xs ++ c ∷ ys
        → Step s (record (turn_away c s) { turned = xs ++ ys })
    -- A change that is executed does something to the graph and the state.
    work : (w : World) → Step s (record s { world = w })
    -- A change is through, with some result.
    finish :
        (xs ys : List ResourceChange) (c : ResourceChange) (r : NodeResult)
        → s.running ≡ xs ++ c ∷ ys
        → Step s (
            find_and_launch_ready options outside (
              complete options outside c
                (kept_result s r)
                (record s { running = xs ++ ys; leaving = s.leaving + 1 })))
    -- A goroutine gives the semaphore back.
    release : (n : ℕ) → s.leaving ≡ suc n → Step s (record s { leaving = n })
    -- The caller's context is done.
    interrupt : Step s (record s { is_done = true; interrupted = true })
    reorder :
        (pending : Dict ResourceChange)
        → IsReordered s.pending pending
        → Step s (record s { pending = pending })

  -- The states of a run of `ExecuteParallel`.
  pub data Reachable (p : Plan) (g : Graph) (stored : Option EnvironmentState)
      : Shared → Type 0 where
    start : Reachable p g stored (start_parallel options outside p g stored)
    next : (s s' : Shared) → Reachable p g stored s → Step s s' → Reachable p g stored s'

  -- What `ExecuteParallel` returns, and the graph and the state that it leaves: an empty plan leaves
  -- them alone. `save_error` is the error of the last save.
  pub data Executed (p : Plan) (g : Graph) (stored : Option EnvironmentState)
      (save_error : Option Text) : ExecutionResult → Option World → Type 0 where
    nothing_to_do : is_empty p ≡ true → Executed p g stored save_error empty_result none
    ended :
        (s : Shared)
        → is_empty p ≡ false
        → Reachable p g stored s
        → HasStopped s
        → Executed p g stored save_error
            (finish_parallel options outside save_error s).result
            (some (finish_parallel options outside save_error s).world)
