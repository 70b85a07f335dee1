-- ===== src/Executor/Parallel/Totals.antt =====
-- pkg/engine/executor/executor.go, `ExecuteParallel`: the counts of a whole run, and its end.
use cldctl.Dict.{Dict, has, put}
use cldctl.Types.{EnvironmentState}
use cldctl.Graph.{Graph}
use cldctl.Prelude.{
  List, Option, [], ap, arith, length, not, refl, true, ℕ, ◌==◌, ◌||◌, ◌∷◌, ◌≡◌, ◌≤◌,
}
use cldctl.Executor.{Options, Outside}
use cldctl.Planner.{Plan, ResourceChange}
use cldctl.Executor.Parallel.Steps.{
  Reachable, Step, acquire, finish, interrupt, meet_done, next, release, reorder, turned_away, work,
}
use cldctl.Executor.Parallel.{
  Shared, all_pending, kept_result, record_failure, start_parallel, turn_away, initial_shared,
}
use cldctl.Text.{Text, same_iff}
use cldctl.Executor.Parallel.Counted.{
  IsCounted, aside-IsCounted, complete-IsCounted, done-IsCounted, launch_all-IsCounted, length-at,
}
use cldctl.Executor.Run.Order.{change_ids}
use cldctl.Dict.Laws.{get-put}
use cldctl.Text.Sort.{occ}
use cldctl.Executor.Run.{start_run}

all_pending-has :
    (cs : List ResourceChange) (m : Dict ResourceChange) (k : Text)
    → has (all_pending cs m) k ≡ has m k || not (occ k (change_ids cs) == 0)
unfolding all_pending occ
all_pending-has [] m k = ground arith
all_pending-has (c ∷ cs) m k = ground (
  arith,
  all_pending-has cs (put m c.node.id c) k,
  get-put m c.node.id k c,
  same_iff c.node.id k,
  same_iff k c.node.id,
)

module _ (options : Options) (outside : Outside) (parallelism : ℕ) where
  Step-IsCounted :
      (planned : List Text) (s s' : Shared)
      → IsCounted parallelism planned s
      → Step options outside parallelism s s'
      → IsCounted parallelism planned s'
  unfolding turn_away record_failure occ
  Step-IsCounted planned s _ h (acquire xs ys c e room) = record {
    covered = h.covered;
    honest = h.honest;
    slots = omega (arith, room);
    turned_late = h.turned_late;
  }
  Step-IsCounted planned s _ h (meet_done xs ys c e over) = record {
    covered = h.covered;
    honest = h.honest;
    slots = h.slots;
    turned_late = λ p. over;
  }
  Step-IsCounted planned s _ h (turned_away xs ys c e) = record {
    covered = λ j p. ground (arith, h.covered j p);
    honest = λ g. absurd (ground (arith, g));
    slots = h.slots;
    turned_late = λ p. h.turned_late (ground (arith, ap length e, length-at xs ys c));
  }
  Step-IsCounted planned s _ h (work w) =
      aside-IsCounted options outside parallelism planned s w s.is_cancelled s.interrupted h
  Step-IsCounted planned s _ h (finish xs ys c r e) =
      launch_all-IsCounted options outside parallelism planned _
        (complete-IsCounted options outside parallelism planned s xs ys c (kept_result s r) h e)
  Step-IsCounted planned s _ h (release n e) = record {
    covered = h.covered;
    honest = h.honest;
    slots = ground (arith, h.slots, e);
    turned_late = h.turned_late;
  }
  Step-IsCounted planned s _ h interrupt =
      done-IsCounted options outside parallelism planned s true h
  Step-IsCounted planned s _ h (reorder pending r) = record {
    covered = λ j p. ground (arith, h.covered j p, r.same_entries j);
    honest = h.honest;
    slots = h.slots;
    turned_late = h.turned_late;
  }

  pub Reachable-IsCounted :
      (p : Plan) (g : Graph) (stored : Option EnvironmentState) (s : Shared)
      → Reachable options outside parallelism p g stored s
      → IsCounted parallelism (change_ids p.changes) s
  unfolding start_parallel initial_shared start_run occ
  Reachable-IsCounted p g stored _ Reachable.start =
      launch_all-IsCounted options outside parallelism (change_ids p.changes) _ (record {
        covered = λ k h. ground (arith, all_pending-has p.changes [] k, h);
        honest = λ e k. refl;
        slots = omega arith;
        turned_late = λ h. absurd (ground (arith, h));
      })
  Reachable-IsCounted p g stored _ (next s s' r step) =
      Step-IsCounted (change_ids p.changes) s s' (Reachable-IsCounted p g stored s r) step

  -- At most `parallelism` changes are executed at the same time.
  pub running_fits :
      (p : Plan) (g : Graph) (stored : Option EnvironmentState) (s : Shared)
      → Reachable options outside parallelism p g stored s
      → length s.running ≤ parallelism
  running_fits p g stored s reached =
      omega (arith, (Reachable-IsCounted p g stored s reached).slots)
