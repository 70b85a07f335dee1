-- ===== src/Executor/Parallel/Progress.antt =====
-- pkg/engine/executor/executor.go, `ExecuteParallel`: no node is left behind by a run.
-- What is pending is a change of the plan.
use cldctl.Prelude.{
  Bool-cases, List, Option, [], all, ap, arith, false, if_ind, inl, inr, length, none, refl, some,
  sym, true, ℕ, ◌++◌, ◌+◌, ◌∙◌, ◌∷◌, ◌≡◌, ◌≤◌,
}
use cldctl.Dict.{Dict, get, put}
use cldctl.Types.{EnvironmentState}
use cldctl.Graph.{Graph}
use cldctl.Executor.Parallel.Invariant.{IsSane, member-occ}
use cldctl.Executor.Parallel.Launched.{IsSettled, launch_all-IsSettled, over-IsSettled}
use cldctl.Executor.{NodeResult, Options, Outside}
use cldctl.Planner.{Plan, ResourceChange}
use cldctl.Executor.Parallel.Steps.{
  Reachable, Step, acquire, finish, interrupt, meet_done, next, release, reorder, turned_away, work,
}
use cldctl.Executor.Parallel.{
  Shared, all_pending, complete, fail_node, find_and_launch_ready, first_failed, kept_result,
  member, note_result, start_parallel, turn_away, initial_shared,
}
use cldctl.Text.{Text, same_iff, same_refl}
use cldctl.Executor.Run.Order.{change_ids}
use cldctl.Executor.Parallel.Sane.{complete-IsSane}
use cldctl.Executor.Parallel.Passes.{find_and_launch_ready-keeps}
use cldctl.Dict.Laws.{get-put, get-remove}
use cldctl.Graph.Topo.{ids}
use cldctl.Executor.Parallel.Counted.{length-at}
use cldctl.Text.Sort.{occ}

unfoldable pub IsKnown : Dict ResourceChange → Shared → Type 0
IsKnown planned s =
    (k : Text) (c : ResourceChange) → get s.pending k ≡ some c → get planned k ≡ some c

pub missing_of_not_all :
    (ids deps : List Text)
    → all (λ d. member d ids) deps ≡ false
    → (d : Text) × (1 ≤ occ d deps) × (occ d ids ≡ 0)
unfolding all occ
missing_of_not_all ids [] h = absurd (ground (arith, h))
missing_of_not_all ids (d ∷ deps) h = elim (Bool-cases (member d ids)) [
  | inl there ↦
      let (e, p, q) = missing_of_not_all ids deps (ground (arith, there, h)) in
      (e, omega (arith, p), q)
  | inr gone ↦ (d, ground (arith, same_refl d), ground (arith, member-occ d ids, gone))
]

pub first_failed-none :
    (failed deps : List Text)
    → first_failed failed deps ≡ none
    → (d : Text) → 1 ≤ occ d deps
    → occ d failed ≡ 0
unfolding first_failed occ
first_failed-none failed [] h d p = absurd (omega (arith, p))
first_failed-none failed (e ∷ deps) h d p = ground (
  arith,
  member-occ e failed,
  same_iff d e,
  first_failed-none failed deps (ground (arith, h)) d,
  h,
  p,
)

pub all_pending-absent :
    (cs : List ResourceChange) (m : Dict ResourceChange) (k : Text)
    → occ k (change_ids cs) ≡ 0
    → get (all_pending cs m) k ≡ get m k
unfolding all_pending occ
all_pending-absent [] m k h = refl
all_pending-absent (c ∷ cs) m k h = ground (
  arith,
  all_pending-absent cs (put m c.node.id c) k (omega (arith, h)),
  get-put m c.node.id k c,
  same_iff c.node.id k,
  same_iff k c.node.id,
  h,
)

module _ (options : Options) (outside : Outside) (parallelism : ℕ) where
  find_and_launch_ready-IsKnown :
      (planned : Dict ResourceChange) (s : Shared)
      → IsKnown planned s
      → IsKnown planned (find_and_launch_ready options outside s)
  unfolding fail_node IsKnown
  find_and_launch_ready-IsKnown planned s h =
      find_and_launch_ready-keeps options outside (IsKnown planned)
        (λ t k c error known there idle j d e.
          known j d (ground (arith, get-remove t.pending c.node.id j, e)))
        (λ t k c known there idle fit. known) (λ t known. (known, known)) s h

  complete-IsKnown :
      (planned : Dict ResourceChange) (s : Shared) (c : ResourceChange) (r : NodeResult)
      → IsKnown planned s
      → IsKnown planned (complete options outside c r s)
  unfolding complete note_result IsKnown
  complete-IsKnown planned s c r h =
      if_ind (IsKnown planned) r.success
        (λ j d e. h j d (ground (arith, get-remove s.pending c.node.id j, e)))
        (λ j d e. h j d (ground (arith, get-remove s.pending c.node.id j, e)))

  Step-IsKnown :
      (planned : Dict ResourceChange) (s s' : Shared)
      → IsKnown planned s
      → Step options outside parallelism s s'
      → IsKnown planned s'
  unfolding turn_away IsKnown
  Step-IsKnown planned s _ h (acquire xs ys c e room) = h
  Step-IsKnown planned s _ h (meet_done xs ys c e over) = h
  Step-IsKnown planned s _ h (turned_away xs ys c e) = h
  Step-IsKnown planned s _ h (work w) = h
  Step-IsKnown planned s _ h (finish xs ys c r e) = find_and_launch_ready-IsKnown planned _ (
      complete-IsKnown planned (record s { running = xs ++ ys; leaving = s.leaving + 1 }) c
        (kept_result s r) h)
  Step-IsKnown planned s _ h (release n e) = h
  Step-IsKnown planned s _ h interrupt = h
  Step-IsKnown planned s _ h (reorder pending r) = λ k c e. h k c (sym (r.same_entries k) ∙ e)

  pub Reachable-IsKnown :
      (p : Plan) (g : Graph) (stored : Option EnvironmentState) (s : Shared)
      → Reachable options outside parallelism p g stored s
      → IsKnown (all_pending p.changes []) s
  unfolding start_parallel initial_shared IsKnown
  Reachable-IsKnown p g stored _ Reachable.start =
      find_and_launch_ready-IsKnown (all_pending p.changes []) _ (λ k c e. e)
  Reachable-IsKnown p g stored _ (next s s' r step) =
      Step-IsKnown (all_pending p.changes []) s s' (Reachable-IsKnown p g stored s r) step

  pub Step-IsSettled :
      (s s' : Shared)
      → IsSane s
      → IsSettled s
      → (1 ≤ length s.turned → s.is_done ≡ true)
      → Step options outside parallelism s s'
      → IsSettled s'
  unfolding turn_away
  Step-IsSettled s _ sane h late (acquire xs ys c e room) = record {
    quiet = h.quiet;
    launched = h.launched;
  }
  Step-IsSettled s _ sane h late (meet_done xs ys c e over) = over-IsSettled _ over
  Step-IsSettled s _ sane h late (turned_away xs ys c e) =
      over-IsSettled _ (late (ground (arith, ap length e, length-at xs ys c)))
  Step-IsSettled s _ sane h late (work w) = record { quiet = h.quiet; launched = h.launched }
  Step-IsSettled s _ sane h late (finish xs ys c r e) = launch_all-IsSettled options outside _ (
      complete-IsSane options outside parallelism s xs ys c (kept_result s r) (s.leaving + 1) sane
        e)
  Step-IsSettled s _ sane h late (release n e) = record { quiet = h.quiet; launched = h.launched }
  Step-IsSettled s _ sane h late interrupt = over-IsSettled _ refl
  Step-IsSettled s _ sane h late (reorder pending r) = record {
    quiet = λ open_ k c e. h.quiet open_ k c (sym (r.same_entries k) ∙ e);
    launched = λ open_ k c e. h.launched open_ k c (sym (r.same_entries k) ∙ e);
  }
