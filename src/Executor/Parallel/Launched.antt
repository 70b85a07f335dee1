-- ===== src/Executor/Parallel/Launched.antt =====
-- pkg/engine/executor/executor.go, `findAndLaunchReady`: no node is left that could be launched.
-- All that can change in the pass that launches.
use cldctl.Prelude.{
  List, [], all, ap, arith, false, if_ind, inl, inr, length, none, not, refl, some, sym, true, ◌&&◌,
  ◌+◌, ◌∙◌, ◌∷◌, ◌≡◌, ◌≤◌, Bool-cases, if_cases,
}
use cldctl.Executor.Parallel.Settled.{IsQuiet, cascade-IsQuiet}
use cldctl.Executor.Parallel.Invariant.{IsSane, member-occ}
use cldctl.Executor.{Options, Outside}
use cldctl.Planner.{ResourceChange}
use cldctl.Executor.Parallel.{
  Shared, cascade, find_and_launch_ready, first_failed, give_up, is_empty_list, launch_one,
  launch_pass, member, stop_pass,
}
use cldctl.Text.{Text, same, same_iff, same_refl}
use cldctl.Dict.{get, keys}
use cldctl.Graph.Topo.{ids}
use cldctl.Text.Sort.{occ}
use cldctl.Dict.Laws.{occ-keys_of_get}
use mathlib.Core.Path.{subst}

record IsLaunch (s t : Shared) : Type 0 where
  pending : t.pending ≡ s.pending
  failed : t.failed ≡ s.failed
  completed : t.completed ≡ s.completed
  more : (k : Text) → occ k t.in_flight ≡ 0 → occ k s.in_flight ≡ 0

-- A node that is pending and not in flight waits for some other node.
abbrev pub IsLaunched : Shared → Text → Type 0
IsLaunched s k =
    (c : ResourceChange)
    → get s.pending k ≡ some c
    → occ k s.in_flight ≡ 0
    → all (λ d. member d s.completed) c.node.depends_on ≡ false

launch_one-IsLaunch :
    (id : Text) (s : Shared) → IsLaunch s (launch_one id s) × IsLaunched (launch_one id s) id
unfolding launch_one occ
launch_one-IsLaunch id s = (
  record {
    pending = ground arith;
    failed = ground arith;
    completed = ground arith;
    more = λ k h. ground (arith, h);
  },
  λ c there idle. ground (arith, there, idle, same_refl id, member-occ id s.in_flight),
)

launch_pass-IsLaunch : (ids : List Text) (s : Shared) → IsLaunch s (launch_pass ids s)
unfolding launch_pass
launch_pass-IsLaunch [] s = record {
  pending = refl;
  failed = refl;
  completed = refl;
  more = λ k h. h;
}
launch_pass-IsLaunch (id ∷ ids) s =
    let first = (launch_one-IsLaunch id s).0 in
    let rest = launch_pass-IsLaunch ids (launch_one id s) in
    record {
      pending = rest.pending ∙ first.pending;
      failed = rest.failed ∙ first.failed;
      completed = rest.completed ∙ first.completed;
      more = λ k h. first.more k (rest.more k h);
    }

launched_on : (s t : Shared) (k : Text) → IsLaunch s t → IsLaunched s k → IsLaunched t k
launched_on s t k l h c there idle =
    subst (λ done. all (λ d. member d done) c.node.depends_on ≡ false) (sym l.completed)
      (h c (ap (λ m. get m k) (sym l.pending) ∙ there) (l.more k idle))

launch_pass-IsLaunched :
    (ids : List Text) (s : Shared) (k : Text) → 1 ≤ occ k ids → IsLaunched (launch_pass ids s) k
unfolding launch_pass occ
launch_pass-IsLaunched [] s k p = absurd (omega (arith, p))
launch_pass-IsLaunched (id ∷ ids) s k p = elim (Bool-cases (same k id)) [
  | inl here ↦
      let e : id ≡ k = ground (arith, same_iff k id, here) in
      launched_on (launch_one id s) (launch_pass ids (launch_one id s)) k
        (launch_pass-IsLaunch ids (launch_one id s))
        (subst (IsLaunched (launch_one id s)) e (launch_one-IsLaunch id s).1)
  | inr there ↦ launch_pass-IsLaunched ids (launch_one id s) k (ground (arith, there, p))
]

-- As long as nothing is cancelled, each pending node that is not in flight waits for a node that is
-- not completed, and for none that failed.
pub record IsSettled (s : Shared) : Type 0 where
  pub quiet : s.is_done ≡ false → (k : Text) → IsQuiet s k
  pub launched : s.is_done ≡ false → (k : Text) → IsLaunched s k

launch_pass-IsSettled :
    (s : Shared) → ((k : Text) → IsQuiet s k) → IsSettled (launch_pass (keys s.pending) s)
launch_pass-IsSettled s h =
    let l = launch_pass-IsLaunch (keys s.pending) s in
    record {
      quiet = λ open_ k c there idle.
          subst (λ failed. first_failed failed c.node.depends_on ≡ none) (sym l.failed)
            (h k c (ap (λ m. get m k) (sym l.pending) ∙ there) (l.more k idle));
      launched = λ open_ k c there idle.
          launch_pass-IsLaunched (keys s.pending) s k
            (occ-keys_of_get s.pending k (ground (arith, ap (λ m. get m k) l.pending, there))) c
            there idle;
    }

pub over-IsSettled : (s : Shared) → s.is_done ≡ true → IsSettled s
over-IsSettled s over = record {
  quiet = λ open_. absurd (ground (arith, over, open_));
  launched = λ open_. absurd (ground (arith, over, open_));
}

pub launch_all-IsSettled :
    (options : Options) (outside : Outside) (s : Shared)
    → IsSane s
    → IsSettled (find_and_launch_ready options outside s)
unfolding find_and_launch_ready give_up
launch_all-IsSettled options outside s h =
    let s' = cascade options outside (length s.pending + 1) s in
    if_cases IsSettled s.is_done (λ over. over-IsSettled _ over)
      (λ open_.
        if_ind IsSettled (options.stop_on_error && not (is_empty_list s'.failed))
          (over-IsSettled
            (record (stop_pass options outside (keys s'.pending) s') { is_done = true }) refl)
          (launch_pass-IsSettled s'
            (cascade-IsQuiet options outside (length s.pending + 1) s h (omega arith))))
