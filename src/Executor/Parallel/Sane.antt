-- ===== src/Executor/Parallel/Sane.antt =====
-- pkg/engine/executor/executor.go, `ExecuteParallel`: every step of a run keeps the invariant.
-- The fields that the invariant does not speak of.
use cldctl.Planner.{Action, ResourceChange, create, delete, noop, replace, update}
use cldctl.Prelude.{
  All, Bool, List, [], ap, arith, false, refl, true, ℕ, ◌++◌, ◌∷◌, ◌≡◌, Bool-cases, if◌then◌else◌,
  inl, inr, ◌+◌,
}
use cldctl.Executor.Parallel.Invariant.{
  All-at, All-drop, DependsOnly, IsSane, occ-change_ids, occ-without, fail_node-IsSane, land-IsSane,
  launch-IsSane,
}
use cldctl.Dict.{Dict, put}
use cldctl.Executor.{ExecutionResult, World, cancelled, NodeResult, Options, Outside}
use cldctl.Executor.Parallel.Steps.{
  IsReordered, Step, acquire, finish, interrupt, release, reorder, turned_away, work, meet_done,
}
use cldctl.Executor.Parallel.{
  Shared, record_failure, turn_away, complete, find_and_launch_ready, kept_result, note_result,
}
use cldctl.Text.{Text, same_iff, same_refl, same}
use cldctl.Executor.Run.Order.{change_ids}
use cldctl.Executor.Run.{count_result, dependency_succeeded}
use cldctl.Executor.Change.{failed_with}
use cldctl.Text.Sort.{occ}
use mathlib.Core.Path.{subst}
use cldctl.Executor.Run.Totals.{succeeded-put}
use cldctl.Executor.Parallel.Passes.{find_and_launch_ready-keeps}

aside-IsSane :
    (s : Shared) (w : World) (b d i : Bool) (n : ℕ)
    → IsSane s
    → IsSane (record s { world = w; is_cancelled = b; is_done = d; interrupted = i; leaving = n })
aside-IsSane s w b d i n h = record {
  named = h.named;
  once = h.once;
  single = h.single;
  held = h.held;
  gone = h.gone;
  good = h.good;
  waiting_ready = h.waiting_ready;
  running_ready = h.running_ready;
}

count-keeps :
    (result : ExecutionResult) (action : Action) (success : Bool)
    → (count_result result action success).node_results ≡ result.node_results
unfolding count_result
count-keeps result create true = refl
count-keeps result update true = refl
count-keeps result replace true = refl
count-keeps result delete true = refl
count-keeps result create false = refl
count-keeps result update false = refl
count-keeps result replace false = refl
count-keeps result delete false = refl
count-keeps result noop success = refl

acquire-IsSane :
    (s : Shared) (xs ys : List ResourceChange) (c : ResourceChange)
    → IsSane s
    → s.waiting ≡ xs ++ c ∷ ys
    → IsSane (record s { waiting = xs ++ ys; running = c ∷ s.running })
acquire-IsSane s xs ys c h e =
    let ready_all : All (DependsOnly s.completed) (xs ++ c ∷ ys) =
      subst (All (DependsOnly s.completed)) e h.waiting_ready in
    record {
      named = h.named;
      once = λ j. ground (
        arith,
        h.once j,
        ap (λ l. occ j (change_ids l)) e,
        occ-change_ids j xs ys c,
        occ-change_ids j [] s.running c,
      );
      single = h.single;
      held = h.held;
      gone = h.gone;
      good = h.good;
      waiting_ready = All-drop (DependsOnly s.completed) xs ys c ready_all;
      running_ready = (All-at (DependsOnly s.completed) xs ys c ready_all, h.running_ready);
    }

turn_away-IsSane :
    (s : Shared) (xs ys : List ResourceChange) (c : ResourceChange)
    → IsSane s
    → s.turned ≡ xs ++ c ∷ ys
    → IsSane (record (turn_away c s) { turned = xs ++ ys })
unfolding turn_away record_failure
turn_away-IsSane s xs ys c h e =
    let id = c.node.id in
    let split : (j : Text) → occ j (change_ids s.turned) ≡ occ j (change_ids (xs ++ c ∷ ys)) =
      λ j. ap (λ l. occ j (change_ids l)) e in
    record {
      named = h.named;
      once = λ j. ground (
        arith,
        h.once j,
        h.single j,
        split j,
        occ-change_ids j xs ys c,
        occ-without j id s.in_flight,
        same_iff id j,
        same_iff j id,
      );
      single = λ j. ground (arith, h.single j, occ-without j id s.in_flight);
      held = λ j p. ground (arith, h.held j, occ-without j id s.in_flight, p);
      gone = h.gone;
      good = λ j p. ground (
        arith,
        h.once id,
        h.gone j,
        h.held id,
        h.good j,
        split id,
        occ-change_ids id xs ys c,
        same_refl id,
        succeeded-put s.result.node_results id j (failed_with c.node c.action cancelled),
        same_iff id j,
        p,
      );
      waiting_ready = h.waiting_ready;
      running_ready = h.running_ready;
    }

meet_done-IsSane :
    (s : Shared) (xs ys : List ResourceChange) (c : ResourceChange)
    → IsSane s
    → s.waiting ≡ xs ++ c ∷ ys
    → IsSane (record s { waiting = xs ++ ys; turned = c ∷ s.turned })
meet_done-IsSane s xs ys c h e = record {
  named = h.named;
  once = λ j. ground (
    arith,
    h.once j,
    ap (λ l. occ j (change_ids l)) e,
    occ-change_ids j xs ys c,
    occ-change_ids j [] s.turned c,
  );
  single = h.single;
  held = h.held;
  gone = h.gone;
  good = h.good;
  waiting_ready =
      All-drop (DependsOnly s.completed) xs ys c
        (subst (All (DependsOnly s.completed)) e h.waiting_ready);
  running_ready = h.running_ready;
}

reorder-IsSane :
    (s : Shared) (pending : Dict ResourceChange)
    → IsSane s
    → IsReordered s.pending pending
    → IsSane (record s { pending = pending })
reorder-IsSane s pending h r = record {
  named = λ j c e. h.named j c (ground (arith, r.same_entries j, e));
  once = h.once;
  single = h.single;
  held = λ j p. ground (arith, h.held j p, r.same_entries j);
  gone = λ j p. ground (arith, h.gone j p, r.same_entries j);
  good = h.good;
  waiting_ready = h.waiting_ready;
  running_ready = h.running_ready;
}

module _ (options : Options) (outside : Outside) (parallelism : ℕ) where
  note-keeps :
      (c : ResourceChange) (r : NodeResult) (s : Shared) (j : Text)
      → dependency_succeeded (note_result options outside c r s).result.node_results j
        ≡ (if same c.node.id j then r.success else dependency_succeeded s.result.node_results j)
  unfolding note_result
  note-keeps c r s j = ground (
    arith,
    ap (λ m. dependency_succeeded m j)
        (count-keeps (record s.result { node_results = put s.result.node_results c.node.id r })
          c.action r.success),
    succeeded-put s.result.node_results c.node.id j r,
  )

  pub complete-IsSane :
      (s : Shared) (xs ys : List ResourceChange) (c : ResourceChange) (r : NodeResult) (n : ℕ)
      → IsSane s
      → s.running ≡ xs ++ c ∷ ys
      → IsSane (complete options outside c r (record s { running = xs ++ ys; leaving = n }))
  unfolding complete note_result occ
  complete-IsSane s xs ys c r n h e =
      let base = record s { running = xs ++ ys; leaving = n } in
      let noted = note_result options outside c r base in
      let after = complete options outside c r base in
      let results = note-keeps c r base in
      elim (Bool-cases r.success) [
        | inl good ↦
            let q : record noted { completed = c.node.id ∷ s.completed } ≡ after =
              ground (arith, good) in
            subst IsSane q (
              land-IsSane s xs ys c noted.world noted.result (c.node.id ∷ s.completed) s.failed n
                true h e (λ k. ground (arith, results k, good)) (λ k. ground arith))
        | inr bad ↦
            let final = record noted.result {
              success = false;
              errors = noted.result.errors ++ r.error ∷ [];
            } in
            let q : record noted { result = final; failed = c.node.id ∷ s.failed } ≡ after =
              ground (arith, bad) in
            subst IsSane q (
              land-IsSane s xs ys c noted.world final s.completed (c.node.id ∷ s.failed) n false h e
                (λ k. ground (arith, results k, bad)) (λ k. ground arith))
      ]

  pub launch_all-IsSane : (s : Shared) → IsSane s → IsSane (find_and_launch_ready options outside s)
  launch_all-IsSane s h =
      find_and_launch_ready-keeps options outside IsSane (fail_node-IsSane options outside)
        launch-IsSane
        (λ t k. (
          aside-IsSane t t.world true t.is_done t.interrupted t.leaving k,
          aside-IsSane t t.world t.is_cancelled true t.interrupted t.leaving k,
        ))
        s h

  pub Step-IsSane : (s s' : Shared) → IsSane s → Step options outside parallelism s s' → IsSane s'
  Step-IsSane s _ h (acquire xs ys c e room) = acquire-IsSane s xs ys c h e
  Step-IsSane s _ h (meet_done xs ys c e over) = meet_done-IsSane s xs ys c h e
  Step-IsSane s _ h (turned_away xs ys c e) = turn_away-IsSane s xs ys c h e
  Step-IsSane s _ h (work w) = aside-IsSane s w s.is_cancelled s.is_done s.interrupted s.leaving h
  Step-IsSane s _ h (finish xs ys c r e) =
      launch_all-IsSane
        (complete options outside c (kept_result s r)
          (record s { running = xs ++ ys; leaving = s.leaving + 1 }))
        (complete-IsSane s xs ys c (kept_result s r) (s.leaving + 1) h e)
  Step-IsSane s _ h (release n e) =
      aside-IsSane s s.world s.is_cancelled s.is_done s.interrupted n h
  Step-IsSane s _ h interrupt = aside-IsSane s s.world s.is_cancelled true true s.leaving h
  Step-IsSane s _ h (reorder pending r) = reorder-IsSane s pending h r
