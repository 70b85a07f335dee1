-- ===== src/Executor/Parallel/Counted.antt =====
-- pkg/engine/executor/executor.go, `ExecuteParallel`: no node of the plan is lost, and no more changes
-- are executed at once than the semaphore admits.
-- `parallelism` is the capacity of the semaphore, `planned` are the nodes of the plan.
use cldctl.Planner.{Action, ResourceChange, create, delete, noop, replace, update}
use cldctl.Prelude.{
  Bool, Bool-cases, List, [], all, ap, arith, false, inl, inr, length, refl, some, true, ℕ, ◌++◌,
  ◌+◌, ◌∷◌, ◌≡◌, ◌≤◌,
}
use cldctl.Executor.{ExecError, ExecutionResult, NodeResult, Options, Outside, World}
use cldctl.Executor.Parallel.{
  Shared, complete, fail_node, find_and_launch_ready, member, note_result, record_failure,
}
use cldctl.Text.{Text, same_iff, same}
use cldctl.Executor.Run.{count_result}
use cldctl.Executor.Parallel.Passes.{find_and_launch_ready-keeps}
use cldctl.Dict.{get, has, put, Dict, remove}
use cldctl.Dict.Laws.{get-remove}
use cldctl.Text.Sort.{occ, one_if}
use mathlib.Core.Path.{subst}

pub record IsCounted (parallelism : ℕ) (planned : List Text) (s : Shared) : Type 0 where
  pub covered :
      (k : Text)
      → 1 ≤ occ k planned
      → 1 ≤ one_if (has s.pending k) + (occ k s.completed + occ k s.failed)
  pub honest : s.result.success ≡ true → (k : Text) → occ k s.failed ≡ 0
  pub slots : length s.running + s.leaving ≤ parallelism
  pub turned_late : 1 ≤ length s.turned → s.is_done ≡ true

count-success :
    (result : ExecutionResult) (action : Action) (success : Bool)
    → (count_result result action success).success ≡ result.success
unfolding count_result
count-success result create true = refl
count-success result update true = refl
count-success result replace true = refl
count-success result delete true = refl
count-success result create false = refl
count-success result update false = refl
count-success result replace false = refl
count-success result delete false = refl
count-success result noop success = refl

pub length-at :
    (xs ys : List ResourceChange) (c : ResourceChange)
    → length (xs ++ c ∷ ys) ≡ 1 + length (xs ++ ys)
length-at [] ys c = omega arith
length-at (x ∷ xs) ys c = omega (arith, length-at xs ys c)

-- A node that leaves `pending` stays covered by its entry in another map.
moved :
    (m : Dict ResourceChange) (id j : Text) (n : ℕ)
    → 1 ≤ one_if (has m j) + n
    → 1 ≤ one_if (has (remove m id) j) + (one_if (same j id) + n)
moved m id j n h = ground (arith, h, get-remove m id j, same_iff id j, same_iff j id)

module _ (options : Options) (outside : Outside) (parallelism : ℕ) (planned : List Text) where
  fail_node-IsCounted :
      (s : Shared) (k : Text) (c : ResourceChange) (error : ExecError)
      → IsCounted parallelism planned s
      → get s.pending k ≡ some c
      → occ k s.in_flight ≡ 0
      → IsCounted parallelism planned (fail_node options outside c error s)
  unfolding fail_node record_failure occ
  fail_node-IsCounted s k c error h there idle = record {
    covered = λ j p.
        ground
          (arith, moved s.pending c.node.id j (occ j s.completed + occ j s.failed) (h.covered j p));
    honest = λ e. absurd (ground (arith, e));
    slots = h.slots;
    turned_late = h.turned_late;
  }

  launch-IsCounted :
      (s : Shared) (k : Text) (c : ResourceChange)
      → IsCounted parallelism planned s
      → get s.pending k ≡ some c
      → occ k s.in_flight ≡ 0
      → all (λ d. member d s.completed) c.node.depends_on ≡ true
      → IsCounted parallelism planned
          (record s { in_flight = k ∷ s.in_flight; waiting = s.waiting ++ c ∷ [] })
  launch-IsCounted s k c h there idle fit = record {
    covered = h.covered;
    honest = h.honest;
    slots = h.slots;
    turned_late = h.turned_late;
  }

  -- The fields that are not counted.
  pub aside-IsCounted :
      (s : Shared) (w : World) (b i : Bool)
      → IsCounted parallelism planned s
      → IsCounted parallelism planned (record s { world = w; is_cancelled = b; interrupted = i })
  aside-IsCounted s w b i h = record {
    covered = h.covered;
    honest = h.honest;
    slots = h.slots;
    turned_late = h.turned_late;
  }

  pub done-IsCounted :
      (s : Shared) (i : Bool)
      → IsCounted parallelism planned s
      → IsCounted parallelism planned (record s { is_done = true; interrupted = i })
  done-IsCounted s i h = record {
    covered = h.covered;
    honest = h.honest;
    slots = h.slots;
    turned_late = λ p. refl;
  }

  pub launch_all-IsCounted :
      (s : Shared)
      → IsCounted parallelism planned s
      → IsCounted parallelism planned (find_and_launch_ready options outside s)
  launch_all-IsCounted s h =
      find_and_launch_ready-keeps options outside (IsCounted parallelism planned)
        fail_node-IsCounted launch-IsCounted
        (λ t k. (aside-IsCounted t t.world true t.interrupted k, done-IsCounted t t.interrupted k))
        s h

  pub complete-IsCounted :
      (s : Shared) (xs ys : List ResourceChange) (c : ResourceChange) (r : NodeResult)
      → IsCounted parallelism planned s
      → s.running ≡ xs ++ c ∷ ys
      → IsCounted parallelism planned
          (complete options outside c r (record s { running = xs ++ ys; leaving = s.leaving + 1 }))
  unfolding complete note_result occ
  complete-IsCounted s xs ys c r h e =
      let id = c.node.id in
      let base = record s { running = xs ++ ys; leaving = s.leaving + 1 } in
      let noted = note_result options outside c r base in
      let after = complete options outside c r base in
      let fits : length (xs ++ ys) + (s.leaving + 1) ≤ parallelism =
        ground (arith, ap length e, length-at xs ys c, h.slots) in
      elim (Bool-cases r.success) [
        | inl good ↦
            let q : record noted { completed = id ∷ s.completed } ≡ after = ground (arith, good) in
            subst (IsCounted parallelism planned) q (record {
              covered = λ j p.
                  ground
                    (arith, h.covered j p, get-remove s.pending id j, same_iff id j, same_iff j id);
              honest = λ g. h.honest (
                  ground (
                    arith,
                    count-success
                        (record s.result { node_results = put s.result.node_results id r }) c.action
                        r.success,
                    g,
                  ));
              slots = fits;
              turned_late = h.turned_late;
            })
        | inr bad ↦
            let final = record noted.result {
              success = false;
              errors = noted.result.errors ++ r.error ∷ [];
            } in
            let q : record noted { result = final; failed = id ∷ s.failed } ≡ after =
              ground (arith, bad) in
            subst (IsCounted parallelism planned) q (record {
              covered = λ j p.
                  ground
                    (arith, h.covered j p, get-remove s.pending id j, same_iff id j, same_iff j id);
              honest = λ g. absurd (ground (arith, g));
              slots = fits;
              turned_late = h.turned_late;
            })
      ]
