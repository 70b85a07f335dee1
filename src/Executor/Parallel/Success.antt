-- ===== src/Executor/Parallel/Success.antt =====
-- pkg/engine/executor/executor.go, `ExecuteParallel`: what its result says of the plan.
use cldctl.Dict.{Dict, get}
use cldctl.Types.{EnvironmentState}
use cldctl.Executor.{ExecutionResult, Options, Outside, node_stuck, World}
use cldctl.Graph.{Graph}
use cldctl.Prelude.{
  Option, [], ap, arith, false, if_ind, refl, true, ℕ, ◌∷◌, ◌≡◌, ◌≤◌, Bool-cases, inl, inr, sym,
  ◌||◌, ◌∙◌,
}
use cldctl.Planner.{Plan, ResourceChange, is_empty}
use cldctl.Executor.Parallel.Steps.{Reachable, Executed, HasStopped, ended, nothing_to_do}
use cldctl.Executor.Parallel.Totals.{Reachable-IsCounted}
use cldctl.Executor.Parallel.Safety.{Reachable-IsSane}
use cldctl.Executor.Parallel.{Shared, member, record_failure}
use cldctl.Text.{Text}
use cldctl.Executor.Run.Order.{change_ids}
use cldctl.Executor.Run.{dependency_succeeded, Run}
use cldctl.Executor.Parallel.Invariant.{member-occ}
use cldctl.Text.Sort.{occ}
use cldctl.Executor.Run.Success.{finish_run-keeps}
use cldctl.Executor.Parallel.Finish.{finish_parallel, mark_stuck}

mark_stuck-false :
    (s : Shared) (left : Dict ResourceChange) (result : ExecutionResult)
    → result.success ≡ false
    → (mark_stuck s left result).success ≡ false
unfolding mark_stuck record_failure
mark_stuck-false s [] result h = h
mark_stuck-false s ((id, c) ∷ rest) result h =
    if_ind (λ (x : ExecutionResult). x.success ≡ false) (member id s.in_flight)
      (mark_stuck-false s rest result h)
      (mark_stuck-false s rest (record_failure result c node_stuck) refl)

mark_stuck-nothing :
    (s : Shared) (left : Dict ResourceChange) (result : ExecutionResult)
    → ((k : Text) → occ k s.in_flight ≡ 0)
    → (mark_stuck s left result).success ≡ true
    → left ≡ []
unfolding mark_stuck record_failure
mark_stuck-nothing s [] result idle h = refl
mark_stuck-nothing s ((id, c) ∷ rest) result idle h =
    let lost : (mark_stuck s rest (record_failure result c node_stuck)).success ≡ false =
      mark_stuck-false s rest (record_failure result c node_stuck) refl in
    absurd (ground (arith, member-occ id s.in_flight, idle id, lost, h))

mark_stuck-empty :
    (s : Shared) (left : Dict ResourceChange) → left ≡ [] → mark_stuck s left s.result ≡ s.result
unfolding mark_stuck get
mark_stuck-empty s left e = ap (λ m. mark_stuck s m s.result) e

-- What is known of a run with a result that is a success.
record IsPlainEnd (s : Shared) (result : ExecutionResult) : Type 0 where
  open_ : s.is_done ≡ false
  unmarked : (mark_stuck s s.pending s.result).success ≡ true
  results : result.node_results ≡ (mark_stuck s s.pending s.result).node_results

module _ (options : Options) (outside : Outside) (parallelism : ℕ) where
  pub idle_at_end :
      (p : Plan) (g : Graph) (stored : Option EnvironmentState) (s : Shared)
      → Reachable options outside parallelism p g stored s
      → HasStopped s
      → s.is_done ≡ false
      → (k : Text) → occ k s.in_flight ≡ 0
  unfolding occ
  idle_at_end p g stored s reached stopped open_ k =
      let sane = Reachable-IsSane options outside parallelism p g stored s reached in
      let counted = Reachable-IsCounted options outside parallelism p g stored s reached in
      let none_turned : s.turned ≡ [] = ground (arith, counted.turned_late, open_) in
      ground (
        arith,
        sane.once k,
        ap (λ l. occ k (change_ids l)) stopped.no_waiting,
        ap (λ l. occ k (change_ids l)) stopped.no_running,
        ap (λ l. occ k (change_ids l)) none_turned,
      )

  -- Where the result is a success, nothing was cancelled and the end of `Execute` was reached.
  finish-IsPlain :
      (s : Shared) (save_error : Option Text)
      → (finish_parallel options outside save_error s).result.success ≡ true
      → IsPlainEnd s (finish_parallel options outside save_error s).result
  unfolding finish_parallel
  finish-IsPlain s save_error good =
      let run : Run = record { world = s.world; result = mark_stuck s s.pending s.result } in
      let kept = finish_run-keeps options outside save_error run in
      elim (Bool-cases (s.is_cancelled || s.is_done)) [
        | inl over ↦
            let lost : (finish_parallel options outside save_error s).result.success ≡ false =
              rw over refl in
            absurd (ground (arith, lost, good))
        | inr plain ↦ record {
          open_ = ground (arith, plain);
          unmarked = sym kept.0 ∙ (rw plain refl ∙ good);
          results = rw plain kept.1;
        }
      ]

  ended_success :
      (p : Plan) (g : Graph) (stored : Option EnvironmentState) (s : Shared)
      (save_error : Option Text)
      → Reachable options outside parallelism p g stored s
      → HasStopped s
      → (finish_parallel options outside save_error s).result.success ≡ true
      → (k : Text) → 1 ≤ occ k (change_ids p.changes)
      → dependency_succeeded (finish_parallel options outside save_error s).result.node_results k
        ≡ true
  unfolding get
  ended_success p g stored s save_error reached stopped good k planned =
      let sane = Reachable-IsSane options outside parallelism p g stored s reached in
      let counted = Reachable-IsCounted options outside parallelism p g stored s reached in
      let plain = finish-IsPlain s save_error good in
      let idle = idle_at_end p g stored s reached stopped plain.open_ in
      let nothing = mark_stuck-nothing s s.pending s.result idle plain.unmarked in
      let marked : mark_stuck s s.pending s.result ≡ s.result =
        mark_stuck-empty s s.pending nothing in
      let won : s.result.success ≡ true =
        ground (arith, ap (λ (r : ExecutionResult). r.success) marked, plain.unmarked) in
      ground (
        arith,
        ap (λ m. dependency_succeeded m k) plain.results,
        ap (λ (r : ExecutionResult). dependency_succeeded r.node_results k) marked,
        ap (λ m. get m k) nothing,
        counted.covered k planned,
        counted.honest won k,
        sane.good k,
      )

  -- A run of a plan that is not empty gave every node of the plan a successful result, if it ends in
  -- success.
  pub parallel_success_means_all :
      (p : Plan) (g : Graph) (stored : Option EnvironmentState) (save_error : Option Text)
      (result : ExecutionResult) (w : Option World)
      → Executed options outside parallelism p g stored save_error result w
      → is_empty p ≡ false
      → result.success ≡ true
      → (k : Text) → 1 ≤ occ k (change_ids p.changes)
      → dependency_succeeded result.node_results k ≡ true
  parallel_success_means_all p g stored save_error _ _ (nothing_to_do empty) full good k planned =
      absurd (ground (arith, empty, full))
  parallel_success_means_all p g stored save_error _ _ (ended s e reached stopped) full good k
        planned =
      ended_success p g stored s save_error reached stopped good k planned
