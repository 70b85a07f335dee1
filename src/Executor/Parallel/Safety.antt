-- ===== src/Executor/Parallel/Safety.antt =====
-- pkg/engine/executor/executor.go, `ExecuteParallel`: what holds in every state of a run.
use cldctl.Prelude.{All, List, Option, [], arith, some, true, ℕ, ◌++◌, ◌+◌, ◌∷◌, ◌≡◌, ◌≤◌}
use cldctl.Executor.Parallel.Invariant.{All-at, DependsOnly, IsSane}
use cldctl.Dict.{Dict, get, put}
use cldctl.Types.{EnvironmentState}
use cldctl.Graph.{Graph}
use cldctl.Executor.{Options, Outside}
use cldctl.Planner.{Plan, ResourceChange}
use cldctl.Executor.Parallel.Steps.{Reachable, next}
use cldctl.Executor.Parallel.{Shared, all_pending, start_parallel, initial_shared}
use cldctl.Text.{Text, same_iff}
use cldctl.Executor.Run.{are_dependencies_satisfied, start_run}
use cldctl.Executor.Run.Order.{change_ids}
use cldctl.Dict.Laws.{get-put}
use cldctl.Executor.Parallel.Sane.{launch_all-IsSane, Step-IsSane}
use cldctl.Text.Sort.{occ}
use mathlib.Core.Path.{subst}
use cldctl.Executor.Run.Success.{all_succeeded}

named_after :
    (cs : List ResourceChange) (m : Dict ResourceChange)
    → ((k : Text) (c : ResourceChange) → get m k ≡ some c → c.node.id ≡ k)
    → (k : Text) (c : ResourceChange) → get (all_pending cs m) k ≡ some c
    → c.node.id ≡ k
unfolding all_pending
named_after [] m h = h
named_after (d ∷ cs) m h =
    named_after cs (put m d.node.id d)
      (λ k c e. ground (arith, get-put m d.node.id k d, same_iff d.node.id k, h k c, e))

-- No entry is an entry of the empty map.
nothing_there :
    (k : Text) (c : ResourceChange) → get {V = ResourceChange} [] k ≡ some c → c.node.id ≡ k
unfolding get
nothing_there k c e = absurd (ground (arith, e))

module _ (options : Options) (outside : Outside) where
  pub initial-IsSane :
      (p : Plan) (g : Graph) (stored : Option EnvironmentState)
      → IsSane (initial_shared options outside p g stored)
  unfolding initial_shared start_run occ
  initial-IsSane p g stored = record {
    named = named_after p.changes [] nothing_there;
    once = λ k. ground arith;
    single = λ k. ground arith;
    held = λ k h. absurd (ground (arith, h));
    gone = λ k h. absurd (ground (arith, h));
    good = λ k h. absurd (ground (arith, h));
    waiting_ready = tt;
    running_ready = tt;
  }

module _ (options : Options) (outside : Outside) (parallelism : ℕ) where
  pub Reachable-IsSane :
      (p : Plan) (g : Graph) (stored : Option EnvironmentState) (s : Shared)
      → Reachable options outside parallelism p g stored s
      → IsSane s
  unfolding start_parallel
  Reachable-IsSane p g stored _ Reachable.start =
      launch_all-IsSane options outside parallelism _ (initial-IsSane options outside p g stored)
  Reachable-IsSane p g stored _ (next s s' r step) =
      Step-IsSane options outside parallelism s s' (Reachable-IsSane p g stored s r) step

  -- While a change is executed, everything that its node depends on has a successful result.
  pub running_is_ready :
      (p : Plan) (g : Graph) (stored : Option EnvironmentState) (s : Shared)
      (xs ys : List ResourceChange) (c : ResourceChange)
      → Reachable options outside parallelism p g stored s
      → s.running ≡ xs ++ c ∷ ys
      → are_dependencies_satisfied c.node s.result.node_results ≡ true
  unfolding are_dependencies_satisfied
  running_is_ready p g stored s xs ys c reached e =
      let h = Reachable-IsSane p g stored s reached in
      let fit : DependsOnly s.completed c =
        All-at (DependsOnly s.completed) xs ys c
          (subst (All (DependsOnly s.completed)) e h.running_ready) in
      all_succeeded s.result.node_results c.node.depends_on (λ d p. h.good d (fit d p))

  -- No node is executed twice at the same time, nor once more after its change was a success.
  pub running_is_new :
      (p : Plan) (g : Graph) (stored : Option EnvironmentState) (s : Shared) (k : Text)
      → Reachable options outside parallelism p g stored s
      → (occ k (change_ids s.waiting) + occ k (change_ids s.running) ≤ 1)
        × (1 ≤ occ k s.completed → occ k (change_ids s.waiting) + occ k (change_ids s.running) ≡ 0)
  running_is_new p g stored s k reached =
      let h = Reachable-IsSane p g stored s reached in
      (ground (arith, h.once k, h.single k), λ p. ground (arith, h.once k, h.held k, h.gone k p))
