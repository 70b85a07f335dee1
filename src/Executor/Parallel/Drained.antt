-- ===== src/Executor/Parallel/Drained.antt =====
-- pkg/engine/executor/executor.go, `ExecuteParallel`: a plan in order is worked off.
-- Each change is the entry of its node in `pending`.
use cldctl.Prelude.{
  All, List, Option, Option-cases, [], arith, false, inl, inr, none, some, ℕ, ◌++◌, ◌+◌, ◌∷◌, ◌≡◌,
  ◌≤◌,
}
use cldctl.Dict.{Dict, get, has, put}
use cldctl.Types.{EnvironmentState}
use cldctl.Graph.{Graph}
use cldctl.Executor.Parallel.Success.{idle_at_end}
use cldctl.Executor.Run.Success.{IsFollowing}
use cldctl.Executor.Parallel.Progress.{
  IsKnown, Reachable-IsKnown, all_pending-absent, first_failed-none, missing_of_not_all,
  Step-IsSettled,
}
use cldctl.Executor.Parallel.Launched.{IsSettled, launch_all-IsSettled}
use cldctl.Executor.{Options, Outside}
use cldctl.Planner.{Plan, ResourceChange}
use cldctl.Executor.Parallel.Steps.{Reachable, next, HasStopped}
use cldctl.Executor.Parallel.Totals.{Reachable-IsCounted}
use cldctl.Executor.Parallel.Safety.{Reachable-IsSane, initial-IsSane}
use cldctl.Executor.Parallel.{Shared, all_pending, start_parallel}
use cldctl.Text.{Text, same_iff, same_refl}
use cldctl.Text.Sort.{before, occ, occ-append, one_if}
use cldctl.Executor.Run.Order.{change_ids}
use cldctl.Dict.Laws.{get-put}

owned :
    (cs : List ResourceChange) (m : Dict ResourceChange)
    → ((k : Text) → occ k (change_ids cs) ≤ 1)
    → All (λ c. get (all_pending cs m) c.node.id ≡ some c) cs
unfolding all_pending occ
owned [] m once = tt
owned (c ∷ cs) m once = (
  ground (
    arith,
    all_pending-absent cs (put m c.node.id c) c.node.id
        (ground (arith, once c.node.id, same_refl c.node.id)),
    get-put m c.node.id c.node.id c,
    same_refl c.node.id,
  ),
  owned cs (put m c.node.id c) (λ k. ground (arith, once k)),
)

-- Where nothing is in flight, a node that is pending waits for one that is neither completed nor
-- failed.
waits :
    (s : Shared)
    → IsSettled s
    → s.is_done ≡ false
    → ((k : Text) → occ k s.in_flight ≡ 0)
    → (k : Text) (c : ResourceChange) → get s.pending k ≡ some c
    → (d : Text) × (1 ≤ occ d c.node.depends_on) × (occ d s.completed + occ d s.failed ≡ 0)
waits s h open_ idle k c there =
    let (d, p, q) =
      missing_of_not_all s.completed c.node.depends_on (h.launched open_ k c there (idle k)) in
    let clean =
      first_failed-none s.failed c.node.depends_on (h.quiet open_ k c there (idle k)) d p in
    (d, p, omega (arith, q, clean))

drained :
    (s : Shared) (m : Dict ResourceChange) (cs : List ResourceChange) (seen : List Text)
    → IsSettled s
    → s.is_done ≡ false
    → ((k : Text) → occ k s.in_flight ≡ 0)
    → IsKnown m s
    → All (λ c. get m c.node.id ≡ some c) cs
    → ((k : Text)
        → 1 ≤ occ k (change_ids cs)
        → 1 ≤ one_if (has s.pending k) + (occ k s.completed + occ k s.failed))
    → IsFollowing seen cs
    → ((k : Text) → 1 ≤ occ k seen → 1 ≤ occ k s.completed + occ k s.failed)
    → All (λ c. get s.pending c.node.id ≡ none) cs
unfolding occ IsKnown
drained s m [] seen h open_ idle known own covered follow before = tt
drained s m (c ∷ cs) seen h open_ idle known own covered follow before =
    let id = c.node.id in
    let absent : get s.pending id ≡ none = elim (Option-cases (get s.pending id)) [
      | inl gone ↦ gone
      | inr (d, there) ↦
          let mine : d ≡ c = ground (arith, known id d there, own.0) in
          let (e, p, q) = waits s h open_ idle id c (ground (arith, there, mine)) in
          absurd (ground (arith, before e (follow.0 e p), q))
    ] in
    (
      absent,
      drained s m cs (seen ++ id ∷ []) h open_ idle known own.1
          (λ k p. covered k (omega (arith, p))) follow.1
          (λ k p.
            ground
              (arith, occ-append k seen (id ∷ []), before k, covered k, same_iff k id, absent, p)),
    )

module _ (options : Options) (outside : Outside) (parallelism : ℕ) where
  -- In every state of a run that nothing has stopped, each pending node that is not in flight
  -- waits for a node that is not completed, and depends on none that failed.
  pub Reachable-IsSettled :
      (p : Plan) (g : Graph) (stored : Option EnvironmentState) (s : Shared)
      → Reachable options outside parallelism p g stored s
      → IsSettled s
  unfolding start_parallel
  Reachable-IsSettled p g stored _ Reachable.start =
      launch_all-IsSettled options outside _ (initial-IsSane options outside p g stored)
  Reachable-IsSettled p g stored _ (next s s' r step) =
      Step-IsSettled options outside parallelism s s'
        (Reachable-IsSane options outside parallelism p g stored s r)
        (Reachable-IsSettled p g stored s r)
        (Reachable-IsCounted options outside parallelism p g stored s r).turned_late step

  -- When the goroutines of a run that nothing stopped have ended, then no node is pending any more,
  -- if the plan has one change for each node and each change's node depends only on nodes of the
  -- changes before it.
  pub no_node_is_stuck :
      (p : Plan) (g : Graph) (stored : Option EnvironmentState) (s : Shared)
      → Reachable options outside parallelism p g stored s
      → HasStopped s
      → s.is_done ≡ false
      → ((k : Text) → occ k (change_ids p.changes) ≤ 1)
      → IsFollowing [] p.changes
      → All (λ c. get s.pending c.node.id ≡ none) p.changes
  unfolding occ
  no_node_is_stuck p g stored s reached stopped open_ once follow =
      drained s (all_pending p.changes []) p.changes [] (Reachable-IsSettled p g stored s reached)
        open_ (idle_at_end options outside parallelism p g stored s reached stopped open_)
        (Reachable-IsKnown options outside parallelism p g stored s reached)
        (owned p.changes [] once)
        (Reachable-IsCounted options outside parallelism p g stored s reached).covered follow
        (λ k h. absurd (omega (arith, h)))
