-- ===== src/Executor/Parallel/Invariant.antt =====
-- pkg/engine/executor/executor.go, `ExecuteParallel`: the invariant of what the goroutines share, and
-- the blocks that run under the mutex.
use cldctl.Prelude.{
  All, List, [], any, ap, arith, if◌then◌else◌, keep, none, not, refl, some, true, ◌++◌, ◌+◌, ◌==◌,
  ◌∷◌, ◌≡◌, ◌≤◌, All-append, all, Bool, ℕ, ◌&&◌,
}
use cldctl.Executor.{ExecError, Options, Outside, ExecutionResult, World}
use cldctl.Planner.{ResourceChange}
use cldctl.Executor.Parallel.{Shared, fail_node, member, record_failure, without}
use cldctl.Text.{Text, same, same_iff, same_refl}
use cldctl.Executor.Run.Order.{change_ids}
use cldctl.Executor.Run.{dependency_succeeded}
use cldctl.Executor.Change.{failed_with}
use cldctl.Dict.{get, has, remove}
use cldctl.Dict.Laws.{get-remove}
use cldctl.Graph.Topo.{ids}
use cldctl.Text.Sort.{occ, occ-append, one_if}
use cldctl.Executor.Run.Totals.{succeeded-put}
use mathlib.Core.Path.{subst}

-- All that a change's node depends on is among these nodes.
abbrev pub DependsOnly : List Text → ResourceChange → Type 0
DependsOnly finished c = (d : Text) → 1 ≤ occ d c.node.depends_on → 1 ≤ occ d finished

pub record IsSane (s : Shared) : Type 0 where
  pub named : (k : Text) (c : ResourceChange) → get s.pending k ≡ some c → c.node.id ≡ k
  pub once :
      (k : Text)
      → occ k (change_ids s.waiting) + (occ k (change_ids s.running) + occ k (change_ids s.turned))
        ≡ occ k s.in_flight
  pub single : (k : Text) → occ k s.in_flight ≤ 1
  pub held : (k : Text) → 1 ≤ occ k s.in_flight → has s.pending k ≡ true
  pub gone : (k : Text) → 1 ≤ occ k s.completed → get s.pending k ≡ none
  pub good :
      (k : Text) → 1 ≤ occ k s.completed → dependency_succeeded s.result.node_results k ≡ true
  pub waiting_ready : All (DependsOnly s.completed) s.waiting
  pub running_ready : All (DependsOnly s.completed) s.running

pub member-occ : (id : Text) (ids : List Text) → member id ids ≡ not (occ id ids == 0)
unfolding member any occ
member-occ id [] = refl
member-occ id (x ∷ xs) = ground (arith, member-occ id xs)

pub occ-without :
    (k id : Text) (ids : List Text) → occ k (without id ids) ≡ (if same id k then 0 else occ k ids)
unfolding without keep occ
occ-without k id [] = ground arith
occ-without k id (x ∷ xs) =
    ground (arith, occ-without k id xs, same_iff id x, same_iff k x, same_iff id k, same_iff k id)

pub change_ids-append :
    (xs ys : List ResourceChange) → change_ids (xs ++ ys) ≡ change_ids xs ++ change_ids ys
change_ids-append [] ys = refl
change_ids-append (x ∷ xs) ys = ap (λ (l : List Text). x.node.id ∷ l) (change_ids-append xs ys)

pub All-mono {ℓ κ μ} :
    {A : Type ℓ} {P : A → Type κ} {Q : A → Type μ}
    → ((x : A) → P x → Q x)
    → (xs : List A) → All P xs
    → All Q xs
All-mono f [] h = tt
All-mono f (x ∷ xs) h = (f x h.0, All-mono f xs h.1)

pub All-drop {ℓ κ} :
    {A : Type ℓ} (P : A → Type κ) (xs ys : List A) (c : A) → All P (xs ++ c ∷ ys) → All P (xs ++ ys)
All-drop P [] ys c h = h.1
All-drop P (x ∷ xs) ys c h = (h.0, All-drop P xs ys c h.1)

pub All-at {ℓ κ} :
    {A : Type ℓ} (P : A → Type κ) (xs ys : List A) (c : A) → All P (xs ++ c ∷ ys) → P c
All-at P [] ys c h = h.0
All-at P (x ∷ xs) ys c h = All-at P xs ys c h.1

pub occ-change_ids :
    (k : Text) (xs ys : List ResourceChange) (c : ResourceChange)
    → occ k (change_ids (xs ++ c ∷ ys)) ≡ one_if (same k c.node.id) + occ k (change_ids (xs ++ ys))
unfolding occ
occ-change_ids k [] ys c = refl
occ-change_ids k (x ∷ xs) ys c = omega (arith, occ-change_ids k xs ys c)

later :
    (c : ResourceChange) (ids : List Text) (id : Text)
    → DependsOnly ids c
    → DependsOnly (id ∷ ids) c
unfolding occ
later c ids id h d p = omega (arith, h d p)

ready_of_all :
    (ids deps : List Text)
    → all (λ d. member d ids) deps ≡ true
    → (d : Text) → 1 ≤ occ d deps
    → 1 ≤ occ d ids
unfolding all occ
ready_of_all ids [] h d p = absurd (omega arith)
ready_of_all ids (e ∷ deps) h d p =
    ground (arith, member-occ e ids, same_iff d e, ready_of_all ids deps (ground arith) d)

-- A node is launched that is pending, not in flight and ready.
pub launch-IsSane :
    (s : Shared) (k : Text) (c : ResourceChange)
    → IsSane s
    → get s.pending k ≡ some c
    → occ k s.in_flight ≡ 0
    → all (λ d. member d s.completed) c.node.depends_on ≡ true
    → IsSane (record s { in_flight = k ∷ s.in_flight; waiting = s.waiting ++ c ∷ [] })
unfolding occ
launch-IsSane s k c h there idle fit =
    let id_is : c.node.id ≡ k = h.named k c there in
    record {
      named = h.named;
      once = λ j. ground (
        arith,
        h.once j,
        ap (occ j) (change_ids-append s.waiting (c ∷ [])),
        occ-append j (change_ids s.waiting) (c.node.id ∷ []),
        id_is,
      );
      single = λ j. ground (arith, h.single j, same_iff j k, idle);
      held = λ j p. ground (arith, h.held j, same_iff j k, there, p);
      gone = h.gone;
      good = h.good;
      waiting_ready =
          All-append (DependsOnly s.completed) s.waiting (c ∷ []) h.waiting_ready
            (ready_of_all s.completed c.node.depends_on fit, tt);
      running_ready = h.running_ready;
    }

module _ (options : Options) (outside : Outside) where
  -- A node fails that is pending and not in flight.
  pub fail_node-IsSane :
      (s : Shared) (k : Text) (c : ResourceChange) (error : ExecError)
      → IsSane s
      → get s.pending k ≡ some c
      → occ k s.in_flight ≡ 0
      → IsSane (fail_node options outside c error s)
  unfolding fail_node record_failure
  fail_node-IsSane s k c error h there idle =
      let id_is : c.node.id ≡ k = h.named k c there in
      record {
        named = λ j d e. h.named j d (ground (arith, get-remove s.pending c.node.id j, e));
        once = h.once;
        single = h.single;
        held = λ j p. ground (
          arith,
          get-remove s.pending c.node.id j,
          h.held j,
          same_iff c.node.id j,
          id_is,
          idle,
          p,
        );
        gone = λ j p. ground (arith, get-remove s.pending c.node.id j, h.gone j);
        good = λ j p. ground (
          arith,
          succeeded-put s.result.node_results c.node.id j (failed_with c.node c.action error),
          h.good j,
          h.gone j,
          same_iff c.node.id j,
          id_is,
          there,
          p,
        );
        waiting_ready = h.waiting_ready;
        running_ready = h.running_ready;
      }

in_flight_of_running :
    (s : Shared) (xs ys : List ResourceChange) (c : ResourceChange)
    → IsSane s
    → s.running ≡ xs ++ c ∷ ys
    → 1 ≤ occ c.node.id s.in_flight
in_flight_of_running s xs ys c h e = ground (
  arith,
  h.once c.node.id,
  ap (λ l. occ c.node.id (change_ids l)) e,
  occ-change_ids c.node.id xs ys c,
  same_refl c.node.id,
)

-- A change leaves the goroutine that executed it.
pub land-IsSane :
    (s : Shared) (xs ys : List ResourceChange) (c : ResourceChange) (w : World)
    (result : ExecutionResult) (done failures : List Text) (n : ℕ) (well : Bool)
    → IsSane s
    → s.running ≡ xs ++ c ∷ ys
    → ((k : Text)
        → dependency_succeeded result.node_results k
          ≡ (if same c.node.id k then well else dependency_succeeded s.result.node_results k))
    → ((k : Text) → occ k done ≡ (if well && same k c.node.id then 1 else 0) + occ k s.completed)
    → IsSane (record s {
      world = w;
      result = result;
      pending = remove s.pending c.node.id;
      completed = done;
      failed = failures;
      in_flight = without c.node.id s.in_flight;
      running = xs ++ ys;
      leaving = n;
    })
land-IsSane s xs ys c w result done failures n well h e results grown =
    let id = c.node.id in
    let more : (d : ResourceChange) → DependsOnly s.completed d → DependsOnly done d =
      λ d old j p. ground (arith, old j p, grown j) in
    let split : (j : Text) → occ j (change_ids s.running) ≡ occ j (change_ids (xs ++ c ∷ ys)) =
      λ j. ap (λ l. occ j (change_ids l)) e in
    record {
      named = λ j d p. h.named j d (ground (arith, get-remove s.pending id j, p));
      once = λ j. ground (
        arith,
        h.once j,
        h.single j,
        split j,
        occ-change_ids j xs ys c,
        occ-without j id s.in_flight,
        same_iff id j,
        same_iff j id,
      );
      single = λ j. ground (arith, h.single j, occ-without j id s.in_flight);
      held = λ j p.
          ground (arith, h.held j, get-remove s.pending id j, occ-without j id s.in_flight, p);
      gone = λ j p.
          ground
            (arith, h.gone j, get-remove s.pending id j, grown j, same_iff id j, same_iff j id, p);
      good = λ j p. ground (
        arith,
        h.good j,
        h.gone j,
        h.held j,
        results j,
        grown j,
        same_iff id j,
        same_iff j id,
        in_flight_of_running s xs ys c h e,
        p,
      );
      waiting_ready = All-mono more s.waiting h.waiting_ready;
      running_ready = All-mono more (xs ++ ys) (
          All-drop (DependsOnly s.completed) xs ys c
            (subst (All (DependsOnly s.completed)) e h.running_ready));
    }
