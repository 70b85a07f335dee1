-- ===== src/Executor/Run/Order.antt =====
-- pkg/engine/executor/executor.go, `Execute`: changes and what their nodes depend on.
use cldctl.Prelude.{
  Bool, List, [], all, arith, false, refl, true, ◌∷◌, ◌≡◌, All, if◌then◌else◌, ℕ, ◌≤◌, Bool-cases,
  inl, inr, sym, ◌+◌, ◌∙◌,
}
use cldctl.Dict.{Dict, put, get}
use cldctl.Executor.{NodeResult, Options, Outside}
use cldctl.Planner.{ResourceChange}
use cldctl.Executor.Run.{
  Run, are_dependencies_satisfied, dependency_succeeded, fail_dependency, run_change, apply_change,
  build_dependency_error, run_changes,
}
use cldctl.Text.{Text, same, same_refl, same_iff}
use cldctl.Executor.Change.{execute_change, failed_with}
use cldctl.Executor.Change.Laws.{execute_change-id}
use cldctl.Text.Sort.{occ}
use cldctl.Executor.Run.Totals.{succeeded-put}

abbrev pub change_ids : List ResourceChange → List Text
change_ids [] = []
change_ids (c ∷ cs) = c.node.id ∷ change_ids cs

-- A success of the change's node comes with a success of each node that it depends on.
abbrev pub IsJustified : Dict NodeResult → ResourceChange → Type 0
IsJustified results c =
    dependency_succeeded results c.node.id ≡ true → are_dependencies_satisfied c.node results ≡ true

-- No result gets lost.
abbrev Grows : Dict NodeResult → Dict NodeResult → Type 0
Grows results more =
    (id : Text) → dependency_succeeded results id ≡ true → dependency_succeeded more id ≡ true

satisfied-Grows :
    (results more : Dict NodeResult) (deps : List Text)
    → Grows results more
    → all (dependency_succeeded results) deps ≡ true
    → all (dependency_succeeded more) deps ≡ true
unfolding all
satisfied-Grows results more [] g h = refl
satisfied-Grows results more (id ∷ deps) g h =
    ground (arith, g id, satisfied-Grows results more deps g)

-- What a round does to the results: nothing, or a result for the change's node, which is a
-- success only if the dependencies are.
record IsRound (c : ResourceChange) (results results' : Dict NodeResult) : Type 0 where
  others :
      (id : Text)
      → same c.node.id id ≡ false
      → dependency_succeeded results' id ≡ dependency_succeeded results id
  justified :
      dependency_succeeded results c.node.id ≡ false
      → dependency_succeeded results' c.node.id ≡ true
      → are_dependencies_satisfied c.node results ≡ true

module _ (options : Options) (outside : Outside) where
  results-run_change :
      (b : Bool) (c : ResourceChange) (run : Run)
      → ((run_change options outside b c run).0).result.node_results ≡ (
          if b
          then run.result.node_results
          else put run.result.node_results c.node.id (
              if are_dependencies_satisfied c.node run.result.node_results
              then (execute_change options outside c run.world).1.0
              else failed_with c.node c.action
                  (build_dependency_error c.node run.result.node_results)))
  unfolding run_change fail_dependency apply_change build_dependency_error
  results-run_change b c run = ground (arith, execute_change-id options outside c run.world)

  run_change-IsRound :
      (b : Bool) (c : ResourceChange) (run : Run)
      → IsRound c run.result.node_results
          ((run_change options outside b c run).0).result.node_results
  run_change-IsRound b c run =
      let r =
        if are_dependencies_satisfied c.node run.result.node_results
        then (execute_change options outside c run.world).1.0
        else failed_with c.node c.action (build_dependency_error c.node run.result.node_results) in
      record {
        others = λ id away. ground (
          arith,
          results-run_change b c run,
          succeeded-put run.result.node_results c.node.id id r,
        );
        justified = λ fresh good. ground (
          arith,
          results-run_change b c run,
          same_refl c.node.id,
          succeeded-put run.result.node_results c.node.id c.node.id r,
        );
      }

-- What the rounds of some changes did to the results.
record IsJustifying (cs : List ResourceChange) (results final : Dict NodeResult) : Type 0 where
  grows : Grows results final
  justified : All (IsJustified final) cs
  others :
      (id : Text)
      → occ id (change_ids cs) ≡ 0
      → dependency_succeeded final id ≡ dependency_succeeded results id

-- The changes are of different nodes that have no success yet.
record IsFresh (cs : List ResourceChange) (results : Dict NodeResult) : Type 0 where
  once : (id : Text) → occ id (change_ids cs) ≤ 1
  new : (id : Text) → 1 ≤ occ id (change_ids cs) → dependency_succeeded results id ≡ false

unjustified :
    (cs : List ResourceChange) (results : Dict NodeResult)
    → ((id : Text) → 1 ≤ occ id (change_ids cs) → dependency_succeeded results id ≡ false)
    → All (IsJustified results) cs
unfolding occ
unjustified [] results h = tt
unjustified (c ∷ cs) results h = (
  λ e. absurd (ground (arith, h c.node.id, same_refl c.node.id)),
  unjustified cs results (λ id p. h id (omega arith)),
)

module _ {c : ResourceChange} {cs : List ResourceChange} {results mid : Dict NodeResult}
    (fresh : IsFresh (c ∷ cs) results) (round : IsRound c results mid) where
  rest-IsFresh : IsFresh cs mid
  unfolding occ
  rest-IsFresh = record {
    once = λ id. omega (arith, fresh.once id);
    new = λ id p. ground (
      arith,
      round.others id,
      fresh.once id,
      fresh.new id,
      same_iff c.node.id id,
      same_iff id c.node.id,
    );
  }

  round-Grows : Grows results mid
  unfolding occ
  round-Grows id h =
      ground (arith, round.others id, fresh.new id, same_iff c.node.id id, same_iff id c.node.id)

  round-IsJustified : IsJustified mid c
  unfolding are_dependencies_satisfied occ
  round-IsJustified e =
      satisfied-Grows results mid c.node.depends_on round-Grows
        (round.justified (ground (arith, fresh.new c.node.id, same_refl c.node.id)) e)

  IsJustifying-stop : IsJustifying (c ∷ cs) results mid
  unfolding occ
  IsJustifying-stop = record {
    grows = round-Grows;
    justified = (round-IsJustified, unjustified cs mid rest-IsFresh.new);
    others = λ id h. ground (arith, round.others id, same_iff c.node.id id, same_iff id c.node.id);
  }

  IsJustifying-next :
      {final : Dict NodeResult} → IsJustifying cs mid final → IsJustifying (c ∷ cs) results final
  unfolding occ are_dependencies_satisfied
  IsJustifying-next {final} rest = record {
    grows = λ id h. rest.grows id (round-Grows id h);
    justified = (
      λ e. satisfied-Grows mid final c.node.depends_on rest.grows (
          round-IsJustified (
            sym (rest.others c.node.id (ground (arith, fresh.once c.node.id, same_refl c.node.id)))
            ∙ e)),
      rest.justified,
    );
    others = λ id h.
        ground
          (arith, rest.others id, round.others id, same_iff c.node.id id, same_iff id c.node.id);
  }

module _ (options : Options) (outside : Outside) where
  justifies :
      (interrupts : ℕ → Bool) (n : ℕ) (cs : List ResourceChange) (run : Run)
      → IsFresh cs run.result.node_results
      → IsJustifying cs run.result.node_results
          (run_changes options outside interrupts n cs run).result.node_results
  unfolding run_changes
  justifies interrupts n [] run fresh = record {
    grows = λ id h. h;
    justified = tt;
    others = λ id h. refl;
  }
  justifies interrupts n (c ∷ cs) run fresh =
      let round = run_change-IsRound options outside (interrupts n) c run in
      elim (Bool-cases (run_change options outside (interrupts n) c run).1) [
        | inl more ↦
            rw (more, run_changes)
              (IsJustifying-next fresh round (
                justifies interrupts (n + 1) cs (run_change options outside (interrupts n) c run).0
                  (rest-IsFresh fresh round)))
        | inr halt ↦ rw (halt, run_changes) (IsJustifying-stop fresh round)
      ]

-- Whatever fails and whenever the run is interrupted: if the changes are of different nodes and
-- there are no results at the start, then the node of a change that ends with a success depends
-- only on nodes that end with one.
pub run_changes-IsJustified :
    (options : Options) (outside : Outside) (interrupts : ℕ → Bool) (cs : List ResourceChange)
    (run : Run)
    → ((id : Text) → occ id (change_ids cs) ≤ 1)
    → run.result.node_results ≡ []
    → All (IsJustified (run_changes options outside interrupts 0 cs run).result.node_results) cs
unfolding dependency_succeeded get
run_changes-IsJustified options outside interrupts cs run once empty =
    (justifies options outside interrupts 0 cs run
      (record { once = once; new = λ id p. rw empty refl })).justified
