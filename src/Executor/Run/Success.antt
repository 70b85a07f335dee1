-- ===== src/Executor/Run/Success.antt =====
-- pkg/engine/executor/executor.go, `Execute`: executions in which hooks and plugins do their work.
use cldctl.Dict.{Dict, put}
use cldctl.Executor.Change.Laws.{IsSound, execute_change-id, execute_change-success}
use cldctl.Prelude.{
  List, [], all, arith, false, refl, true, ◌++◌, ◌∷◌, ◌≡◌, ◌≤◌, All, Bool, Bool-cases, any, inl,
  inr, map, ℕ, ◌+◌, ◌∙◌, Option, none, some, sym,
}
use cldctl.Executor.{NodeResult, Options, Outside}
use cldctl.Planner.{
  ResourceChange, PlanOptions, deletion, plan_node_change, Plan, existing_resources, is_empty, plan,
}
use cldctl.Executor.Run.{
  Run, apply_change, are_dependencies_satisfied, count_result, dependency_succeeded, record_result,
  run_change, run_changes, execute, finish_run, start_run,
}
use cldctl.Text.{Text, same_refl, same, same_iff}
use cldctl.Executor.Change.{execute_change}
use cldctl.Text.Sort.{occ, occ-append}
use cldctl.Executor.Run.Totals.{IsDone, run_changes-success, succeeded-put}
use cldctl.Graph.Kahn.Reached.{IsOrdered}
use cldctl.Graph.{Node, Graph}
use cldctl.Types.{ResourceState, EnvironmentState}
use cldctl.Planner.Counts.{deletions, plan_lem}
use cldctl.Graph.Edges.{IsLinked}
use cldctl.Graph.Topo.{ids, topological_sort}
use cldctl.Prelude.Results.{ok}
use mathlib.Core.Path.{subst}
use cldctl.Graph.Order.{topological_sort-IsSorting}

-- Each change's node depends only on nodes whose change stands before it, or that are in `seen`.
abbrev pub IsFollowing : List Text → List ResourceChange → Type 0
IsFollowing seen [] = Unit
IsFollowing seen (c ∷ cs) =
    ((id : Text) → 1 ≤ occ id c.node.depends_on → 1 ≤ occ id seen)
    × IsFollowing (seen ++ c.node.id ∷ []) cs

abbrev AllSucceeded : List Text → Dict NodeResult → Type 0
AllSucceeded seen results = (id : Text) → 1 ≤ occ id seen → dependency_succeeded results id ≡ true

pub all_succeeded :
    (results : Dict NodeResult) (deps : List Text)
    → AllSucceeded deps results
    → all (dependency_succeeded results) deps ≡ true
unfolding all occ
all_succeeded results [] h = refl
all_succeeded results (d ∷ deps) h =
    ground (arith, h d, same_refl d, all_succeeded results deps (λ id p. h id (omega arith)))

satisfied_of_all :
    (node : Node) (results : Dict NodeResult)
    → AllSucceeded node.depends_on results
    → are_dependencies_satisfied node results ≡ true
unfolding are_dependencies_satisfied
satisfied_of_all node results h = all_succeeded results node.depends_on h

module _ (options : Options) (outside : Outside) (sound : IsSound options outside) where
  abbrev next : Bool → ResourceChange → Run → Run
  next b c run = (run_change options outside b c run).0

  -- A change whose dependencies succeeded succeeds, and the loop goes on.
  ready-eq :
      (b : Bool) (c : ResourceChange) (run : Run)
      → b ≡ false
      → are_dependencies_satisfied c.node run.result.node_results ≡ true
      → ((run_change options outside b c run).1 ≡ true)
        × ((next b c run).result.success ≡ run.result.success)
        × ((next b c run).result.node_results
            ≡ put run.result.node_results c.node.id
                (execute_change options outside c run.world).1.0)
  unfolding run_change apply_change count_result record_result
  ready-eq b c run calm h = ground (
    arith,
    execute_change-id options outside c run.world,
    execute_change-success options outside sound c run.world,
  )

  grown :
      (seen : List Text) (b : Bool) (c : ResourceChange) (run : Run)
      → b ≡ false
      → AllSucceeded seen run.result.node_results
      → are_dependencies_satisfied c.node run.result.node_results ≡ true
      → AllSucceeded (seen ++ c.node.id ∷ []) (next b c run).result.node_results
  unfolding occ
  grown seen b c run calm h satisfied id p = ground (
    arith,
    (ready-eq b c run calm satisfied).2,
    succeeded-put run.result.node_results c.node.id id
        (execute_change options outside c run.world).1.0,
    execute_change-success options outside sound c run.world,
    occ-append id seen (c.node.id ∷ []),
    same_iff id c.node.id,
    same_iff c.node.id id,
    h id,
  )

  succeeds :
      (interrupts : ℕ → Bool) (n : ℕ) (cs : List ResourceChange) (run : Run) (seen : List Text)
      → ((m : ℕ) → interrupts m ≡ false)
      → IsFollowing seen cs
      → AllSucceeded seen run.result.node_results
      → run.result.success ≡ true
      → (run_changes options outside interrupts n cs run).result.success ≡ true
  unfolding run_changes
  succeeds interrupts n [] run seen calm f h s = s
  succeeds interrupts n (c ∷ cs) run seen calm f h s =
      let satisfied : are_dependencies_satisfied c.node run.result.node_results ≡ true =
        satisfied_of_all c.node run.result.node_results (λ id p. h id (f.0 id p)) in
      let now = ready-eq (interrupts n) c run (calm n) satisfied in
      rw (now.0, run_changes)
        (succeeds interrupts (n + 1) cs (next (interrupts n) c run) (seen ++ c.node.id ∷ []) calm
          f.1 (grown seen (interrupts n) c run (calm n) h satisfied) (now.1 ∙ s))

-- If hooks and plugins return without an error, nothing interrupts the run and each change's node
-- depends only on nodes whose change stands before it, then the run that starts well ends in success
-- with a successful result for every change.
pub run_changes-of_sound :
    (options : Options) (outside : Outside) (interrupts : ℕ → Bool) (cs : List ResourceChange)
    (run : Run)
    → IsSound options outside
    → ((m : ℕ) → interrupts m ≡ false)
    → IsFollowing [] cs
    → run.result.success ≡ true
    → ((run_changes options outside interrupts 0 cs run).result.success ≡ true)
      × All (IsDone (run_changes options outside interrupts 0 cs run).result.node_results) cs
unfolding occ
run_changes-of_sound options outside interrupts cs run sound calm f s =
    let good : (run_changes options outside interrupts 0 cs run).result.success ≡ true =
      succeeds options outside sound interrupts 0 cs run [] calm f (λ id p. absurd (omega arith))
        s in
    (good, (run_changes-success options outside interrupts cs run good).done)

IsFollowing-append :
    (seen : List Text) (xs ys : List ResourceChange)
    → IsFollowing seen xs
    → ((more : List Text) → IsFollowing more ys)
    → IsFollowing seen (xs ++ ys)
IsFollowing-append seen [] ys f g = g seen
IsFollowing-append seen (x ∷ xs) ys f g =
    (f.0, IsFollowing-append (seen ++ x.node.id ∷ []) xs ys f.1 g)

deletions-IsFollowing :
    (processed seen : List Text) (existing : Dict ResourceState)
    → IsFollowing seen (deletions processed existing)
unfolding deletions deletion occ
deletions-IsFollowing processed seen [] = tt
deletions-IsFollowing processed seen ((key, res) ∷ existing) =
    elim (Bool-cases (any (same key) processed)) [
      | inl kept ↦ rw kept (deletions-IsFollowing processed seen existing)
      | inr gone ↦ rw gone (
        λ id p. absurd (omega arith),
        deletions-IsFollowing processed (seen ++ key ∷ []) existing,
      )
    ]

node-plan_node_change :
    (options : PlanOptions) (n : Node) (existing : Dict ResourceState)
    → (plan_node_change options n existing).node ≡ n
unfolding plan_node_change
node-plan_node_change options n existing = ground arith

sorted-IsFollowing :
    (options : PlanOptions) (existing : Dict ResourceState) (seen : List Text) (sorted : List Node)
    → IsOrdered seen sorted
    → IsFollowing seen (map (λ n. plan_node_change options n existing) sorted)
sorted-IsFollowing options existing seen [] o = tt
sorted-IsFollowing options existing seen (n ∷ ns) o =
    rw (node-plan_node_change options n existing)
      (o.0, sorted-IsFollowing options existing (seen ++ n.id ∷ []) ns o.1)

pub finish_run-keeps :
    (options : Options) (outside : Outside) (save_error : Option Text) (run : Run)
    → ((finish_run options outside save_error run).result.success ≡ run.result.success)
      × ((finish_run options outside save_error run).result.node_results ≡ run.result.node_results)
unfolding finish_run
finish_run-keeps options outside none run = (refl, refl)
finish_run-keeps options outside (some m) run = (refl, refl)

-- The plan of a linked graph, with hooks and plugins that return without an error and no
-- interruption, is executed with success, whatever the stored state was and in whichever order the
-- planner ranged over it; unless the plan is empty, each of its changes has a successful result then.
pub execute-of_plan :
    (range : Dict ResourceState → Dict ResourceState) (plan_options : PlanOptions)
    (options : Options) (outside : Outside) (interrupts : ℕ → Bool) (save_error : Option Text)
    (g : Graph) (current_state stored : Option EnvironmentState) (sorted : List Node) (p : Plan)
    → IsLinked g.nodes
    → (topological_sort g).1 ≡ ok sorted
    → (plan range plan_options g current_state).1 ≡ ok p
    → IsSound options outside
    → ((m : ℕ) → interrupts m ≡ false)
    → ((execute options outside interrupts save_error p
          (plan range plan_options g current_state).0
          stored).0.success
        ≡ true)
      × (is_empty p ≡ false
          → All
              (IsDone
                (execute options outside interrupts save_error p
                  (plan range plan_options g current_state).0
                  stored).0.node_results)
              p.changes)
unfolding execute
execute-of_plan range plan_options options outside interrupts save_error g current_state stored
      sorted p linked e h sound calm =
    let existing = existing_resources current_state in
    let follow : IsFollowing [] p.changes =
      subst (IsFollowing []) (sym (plan_lem range plan_options g current_state sorted p e h).0) (
        IsFollowing-append [] _ _
          (sorted-IsFollowing plan_options existing [] sorted
            (topological_sort-IsSorting g sorted linked e).ordered)
          (λ more. deletions-IsFollowing (ids sorted) more (range existing))) in
    let start = start_run options outside p (plan range plan_options g current_state).0 stored in
    let last = run_changes options outside interrupts 0 p.changes start in
    let done =
      run_changes-of_sound options outside interrupts p.changes start sound calm follow refl in
    let kept = finish_run-keeps options outside save_error last in
    elim (Bool-cases (is_empty p)) [
      | inl empty ↦ rw empty (refl, λ full. absurd (ground (arith, empty, full)))
      | inr full ↦ rw full (kept.0 ∙ done.0, λ _. rw (kept.1) (done.1))
    ]
