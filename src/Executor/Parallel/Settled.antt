-- ===== src/Executor/Parallel/Settled.antt =====
-- pkg/engine/executor/executor.go, `findAndLaunchReady`: what it leaves behind. Its loops end by
-- themselves: the fuel is enough.
-- A node that is pending and not in flight depends on no node that failed.
use cldctl.Prelude.{
  Bool-cases, List, Option-cases, [], arith, false, inl, inr, length, none, refl, some, suc, sym,
  zero, ℕ, ◌+◌, ◌<◌, ◌∙◌, ◌∷◌, ◌≡◌, ◌≤◌,
}
use cldctl.Executor.Parallel.Invariant.{IsSane, fail_node-IsSane, member-occ}
use cldctl.Executor.{Options, Outside}
use cldctl.Planner.{ResourceChange}
use cldctl.Executor.Parallel.{Shared, cascade, cascade_one, cascade_pass, fail_node, first_failed}
use cldctl.Text.{Text, same, same_iff}
use cldctl.Executor.Parallel.Passes.{cascade_one-keeps, cascade_pass-keeps}
use cldctl.Dict.{get, keys}
use cldctl.Graph.Topo.{ids}
use cldctl.Dict.Laws.{length-remove, occ-keys_of_get}
use cldctl.Text.Sort.{occ, one_if}
use mathlib.Core.Path.{subst}

abbrev pub IsQuiet : Shared → Text → Type 0
IsQuiet s k =
    (c : ResourceChange)
    → get s.pending k ≡ some c
    → occ k s.in_flight ≡ 0
    → first_failed s.failed c.node.depends_on ≡ none

module _ (options : Options) (outside : Outside) where
  cascade_one-IsQuiet :
      (id : Text) (s : Shared)
      → (cascade_one options outside id s).1 ≡ false
      → ((cascade_one options outside id s).0 ≡ s) × IsQuiet s id
  unfolding cascade_one
  cascade_one-IsQuiet id s h =
      (ground (arith, h), λ c there idle. ground (arith, h, there, idle, member-occ id s.in_flight))

  cascade_pass-IsQuiet :
      (ids : List Text) (s : Shared)
      → (cascade_pass options outside ids s).1 ≡ false
      → ((cascade_pass options outside ids s).0 ≡ s) × ((k : Text) → 1 ≤ occ k ids → IsQuiet s k)
  unfolding cascade_pass occ
  cascade_pass-IsQuiet [] s h = (refl, λ k p. absurd (omega (arith, p)))
  cascade_pass-IsQuiet (id ∷ ids) s h =
      let first = cascade_one-IsQuiet id s (ground (arith, h)) in
      let s' = (cascade_one options outside id s).0 in
      let rest = cascade_pass-IsQuiet ids s' (ground (arith, h)) in
      (
        rest.0 ∙ first.0,
        λ k p. elim (Bool-cases (same k id)) [
          | inl here ↦ subst (IsQuiet s) (ground (arith, same_iff k id, here)) (first.1)
          | inr there ↦ subst (λ t. IsQuiet t k) (first.0) (rest.1 k (ground (arith, there, p)))
        ],
      )

  cascade_one-length :
      (id : Text) (s : Shared)
      → IsSane s
      → length (cascade_one options outside id s).0.pending
          + one_if (cascade_one options outside id s).1
        ≤ length s.pending
  unfolding cascade_one fail_node
  cascade_one-length id s h = elim (Option-cases (get s.pending id)) [
    | inl absent ↦ ground (arith, absent)
    | inr (c, there) ↦ ground (arith, there, h.named id c there, length-remove s.pending c.node.id)
  ]

  cascade_pass-length :
      (ids : List Text) (s : Shared)
      → IsSane s
      → length (cascade_pass options outside ids s).0.pending
          + one_if (cascade_pass options outside ids s).1
        ≤ length s.pending
  unfolding cascade_pass
  cascade_pass-length [] s h = ground arith
  cascade_pass-length (id ∷ ids) s h =
      let s' = (cascade_one options outside id s).0 in
      ground (
        arith,
        cascade_one-length id s h,
        cascade_pass-length ids s'
            (cascade_one-keeps options outside IsSane (fail_node-IsSane options outside) id s h),
      )

  pub cascade-IsQuiet :
      (fuel : ℕ) (s : Shared)
      → IsSane s
      → length s.pending < fuel
      → (k : Text) → IsQuiet (cascade options outside fuel s) k
  unfolding cascade
  cascade-IsQuiet zero s h p k = absurd (omega (arith, p))
  cascade-IsQuiet (suc fuel) s h p k =
      let s' = (cascade_pass options outside (keys s.pending) s).0 in
      let kept =
        cascade_pass-keeps options outside IsSane (fail_node-IsSane options outside)
          (keys s.pending) s h in
      elim (Bool-cases (cascade_pass options outside (keys s.pending) s).1) [
        | inl more ↦
            rw (more, cascade)
              (cascade-IsQuiet fuel s' kept
                (ground (arith, cascade_pass-length (keys s.pending) s h, more, p)) k)
        | inr stable ↦
            let quiet = cascade_pass-IsQuiet (keys s.pending) s stable in
            rw (stable, cascade)
              (subst (λ t. IsQuiet t k) (sym (quiet.0))
                (λ c there.
                  quiet.1 k (occ-keys_of_get s.pending k (ground (arith, there))) c there))
      ]
