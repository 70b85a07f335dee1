-- ===== src/Executor/Run/Totals.antt =====
-- pkg/engine/executor/executor.go, `Execute`: what success means, and where the loop stops.
use cldctl.Prelude.{
  Bool, arith, false, true, ◌≡◌, All, List, [], if◌then◌else◌, refl, ℕ, ◌∷◌, Bool-cases, ap, inl,
  inr, ◌+◌, ◌∙◌, ◌≤◌,
}
use cldctl.Dict.{Dict, put}
use cldctl.Executor.{NodeResult, Options, Outside}
use cldctl.Planner.{ResourceChange}
use cldctl.Executor.Run.{
  Run, apply_change, are_dependencies_satisfied, dependency_succeeded, fail_dependency, run_change,
  run_changes,
}
use cldctl.Executor.Change.{execute_change}
use cldctl.Executor.Change.Laws.{execute_change-id}
use cldctl.Text.{Text, same, same_refl}
use cldctl.Dict.Laws.{get-put}

-- The change's node has a result, a success.
abbrev pub IsDone : Dict NodeResult → ResourceChange → Type 0
IsDone results c = dependency_succeeded results c.node.id ≡ true

pub succeeded-put :
    (results : Dict NodeResult) (k j : Text) (r : NodeResult)
    → dependency_succeeded (put results k r) j
      ≡ (if same k j then r.success else dependency_succeeded results j)
unfolding dependency_succeeded
succeeded-put results k j r = ground (arith, get-put results k j r)

-- What a run that ends in success did to the results.
pub record IsGoodRun (cs : List ResourceChange) (run final : Run) : Type 0 where
  pub before : run.result.success ≡ true
  pub failed : final.result.failed ≡ run.result.failed
  pub kept :
      (id : Text)
      → dependency_succeeded run.result.node_results id ≡ true
      → dependency_succeeded final.result.node_results id ≡ true
  pub done : All (IsDone final.result.node_results) cs

module _ (options : Options) (outside : Outside) where
  -- What one round does to the result of the execution.
  abbrev outcome : ResourceChange → Run → NodeResult
  outcome c run = (execute_change options outside c run.world).1.0

  satisfied : ResourceChange → Run → Bool
  satisfied c run = are_dependencies_satisfied c.node run.result.node_results

  -- A round that leaves a success is one that executed a change with success.
  record IsGoodRound (c : ResourceChange) (run run' : Run) (interrupted : Bool) : Type 0 where
    before : run.result.success ≡ true
    calm : interrupted ≡ false
    ready : satisfied c run ≡ true
    good : (outcome c run).success ≡ true
    results : run'.result.node_results ≡ put run.result.node_results c.node.id (outcome c run)
    failed : run'.result.failed ≡ run.result.failed

  apply_change-good :
      (c : ResourceChange) (run : Run)
      → ((apply_change options outside c run).0).result.success ≡ true
      → (run.result.success ≡ true)
        × ((outcome c run).success ≡ true)
        × (((apply_change options outside c run).0).result.node_results
            ≡ put run.result.node_results c.node.id (outcome c run))
        × (((apply_change options outside c run).0).result.failed ≡ run.result.failed)
  unfolding apply_change
  apply_change-good c run h = ground (arith, execute_change-id options outside c run.world)

  run_change-good :
      (b : Bool) (c : ResourceChange) (run : Run)
      → ((run_change options outside b c run).0).result.success ≡ true
      → IsGoodRound c run ((run_change options outside b c run).0) b
  unfolding run_change fail_dependency apply_change
  run_change-good b c run h = unfold satisfied in ground (arith, apply_change-good c run)

  run_change-stop :
      (b : Bool) (c : ResourceChange) (run : Run)
      → (run_change options outside b c run).1 ≡ false
      → ((run_change options outside b c run).0).result.success ≡ false
  unfolding run_change fail_dependency apply_change
  run_change-stop b c run h = ground arith

  good_round-then :
      {c : ResourceChange} {cs : List ResourceChange} {run run' final : Run} {b : Bool}
      → IsGoodRound c run run' b
      → IsGoodRun cs run' final
      → IsGoodRun (c ∷ cs) run final
  good_round-then {c} {cs} {run} {run'} g rest = record {
    before = g.before;
    failed = rest.failed ∙ g.failed;
    kept = λ id k. rest.kept id (
        ground (
          arith,
          ap (λ m. dependency_succeeded m id) g.results,
          succeeded-put run.result.node_results c.node.id id (outcome c run),
          g.good,
        ));
    done = (
      rest.kept c.node.id (
          ground (
            arith,
            ap (λ m. dependency_succeeded m c.node.id) g.results,
            succeeded-put run.result.node_results c.node.id c.node.id (outcome c run),
            same_refl c.node.id,
            g.good,
          )),
      rest.done,
    );
  }

  run_changes-good :
      (interrupts : ℕ → Bool) (n : ℕ) (cs : List ResourceChange) (run : Run)
      → (run_changes options outside interrupts n cs run).result.success ≡ true
      → IsGoodRun cs run (run_changes options outside interrupts n cs run)
  unfolding run_changes
  run_changes-good interrupts n [] run h = record {
    before = h;
    failed = refl;
    kept = λ id k. k;
    done = tt;
  }
  run_changes-good interrupts n (c ∷ cs) run h =
      elim (Bool-cases (run_change options outside (interrupts n) c run).1) [
        | inl more ↦
            rw (more, run_changes)
              (let rest =
                  run_changes-good interrupts (n + 1) cs
                    (run_change options outside (interrupts n) c run).0
                    (rw (more, run_changes) at h) in
                good_round-then (run_change-good (interrupts n) c run rest.before) rest)
        | inr stop ↦ absurd (ground (arith, run_change-stop (interrupts n) c run stop, h))
      ]

-- If an execution of changes ends in success, then it started with none lost, each of its changes
-- has a successful result, the count of failures is the one at the start, and every earlier success
-- is still there.
pub run_changes-success :
    (options : Options) (outside : Outside) (interrupts : ℕ → Bool) (cs : List ResourceChange)
    (run : Run)
    → (run_changes options outside interrupts 0 cs run).result.success ≡ true
    → IsGoodRun cs run (run_changes options outside interrupts 0 cs run)
run_changes-success options outside interrupts cs run h =
    run_changes-good options outside interrupts 0 cs run h

module _ (options : Options) (outside : Outside) where
  round-failed :
      (b : Bool) (c : ResourceChange) (run : Run)
      → ((run_change options outside b c run).0).result.failed ≤ run.result.failed + 1
  unfolding run_change fail_dependency apply_change
  round-failed b c run = ground arith

  round-continues :
      (b : Bool) (c : ResourceChange) (run : Run)
      → options.stop_on_error ≡ true
      → (run_change options outside b c run).1 ≡ true
      → ((run_change options outside b c run).0).result.failed ≡ run.result.failed
  unfolding run_change fail_dependency apply_change
  round-continues b c run stop more = ground arith

  stops :
      (interrupts : ℕ → Bool) (n : ℕ) (cs : List ResourceChange) (run : Run)
      → options.stop_on_error ≡ true
      → (run_changes options outside interrupts n cs run).result.failed ≤ run.result.failed + 1
  unfolding run_changes
  stops interrupts n [] run stop = omega arith
  stops interrupts n (c ∷ cs) run stop =
      elim (Bool-cases (run_change options outside (interrupts n) c run).1) [
        | inl more ↦
            rw (more, run_changes)
              (omega (
                arith,
                round-continues (interrupts n) c run stop more,
                stops interrupts (n + 1) cs (run_change options outside (interrupts n) c run).0
                    stop,
              ))
        | inr halt ↦ rw (halt, run_changes) (round-failed (interrupts n) c run)
      ]

-- With `StopOnError` an execution of changes counts at most one failure.
pub run_changes-failed-le :
    (options : Options) (outside : Outside) (interrupts : ℕ → Bool) (cs : List ResourceChange)
    (run : Run)
    → options.stop_on_error ≡ true
    → (run_changes options outside interrupts 0 cs run).result.failed ≤ run.result.failed + 1
run_changes-failed-le options outside interrupts cs run stop =
    stops options outside interrupts 0 cs run stop
