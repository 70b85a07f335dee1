-- ===== src/Graph/Kahn/Reached.antt =====
-- The invariant of the main loop, and that a round keeps it.
use cldctl.Prelude.{
  sym, append_assoc, All-append, ℕ, zero, suc, ◌+◌, ◌≤◌, ◌≡◌, refl, ap, Bool, true, false, none,
  some, List, [], ◌∷◌, ◌++◌, arith, ◌==◌, ℤ, pos, negsuc, append_assoc, Option-cases, inl, inr, All,
}
use cldctl.Text.{Text, same_refl}
use cldctl.Text.Sort.{occ, occ-append, one_if}
use cldctl.Dict.{Dict, get}
use cldctl.Graph.{Node}
use cldctl.Graph.Edges.{depends, IsLinked}
use cldctl.Graph.Topo.{Frontier, degree, reduce_all, ids}
use mathlib.Core.List.{append-nil}
use mathlib.Core.Path.{subst}
use cldctl.Graph.Kahn.Frontier.{degree-reduce_all, occ-reduce_all}
use cldctl.Graph.Kahn.Missing.{missing, missing-append, occ_of_missing}

abbrev pub is_positive : ℤ → Bool
is_positive (pos zero) = false
is_positive (pos (suc n)) = true
is_positive (negsuc n) = false

-- 1 for a node whose dependencies are all processed, 0 for any other ID.
abbrev pub settled : Dict Node → List Text → Text → ℕ
settled nodes done k = elim (get nodes k) [
  | none ↦ 0
  | some n ↦ one_if (missing done n.depends_on == 0)
]

-- Each node stands behind the nodes that it depends on, or these are in `seen`.
abbrev pub IsOrdered : List Text → List Node → Type 0
IsOrdered seen [] = Unit
IsOrdered seen (n ∷ ns) =
    ((d : Text) → 1 ≤ depends n d → 1 ≤ occ d seen) × IsOrdered (seen ++ n.id ∷ []) ns

IsOrdered-snoc :
    (seen : List Text) (ns : List Node) (n : Node)
    → IsOrdered seen ns
    → ((d : Text) → 1 ≤ depends n d → 1 ≤ occ d (seen ++ ids ns))
    → IsOrdered seen (ns ++ n ∷ [])
IsOrdered-snoc seen [] n h k = (λ d p. rw append-nil at k d p, tt)
IsOrdered-snoc seen (m ∷ ns) n h k =
    (h.0, IsOrdered-snoc (seen ++ m.id ∷ []) ns n h.1 (λ d p. rw append_assoc (k d p)))

pub ids-append : (xs ys : List Node) → ids (xs ++ ys) ≡ ids xs ++ ids ys
ids-append [] ys = refl
ids-append (x ∷ xs) ys = ap (λ (l : List Text). x.id ∷ l) (ids-append xs ys)

pub record Reached (nodes : Dict Node) (result : List Node) (in_degree : Dict ℤ) (queue : List Text)
    : Type 0 where
  pub waiting :
      (k : Text) (n : Node)
      → get nodes k ≡ some n
      → degree in_degree k ≡ pos (missing (ids result) n.depends_on)
  pub outside : (k : Text) → get nodes k ≡ none → is_positive (degree in_degree k) ≡ false
  pub counted : (k : Text) → occ k (ids result) + occ k queue ≡ settled nodes (ids result) k
  pub ordered : IsOrdered [] result
  pub found : All (λ n. get nodes n.id ≡ some n) result

module _ {nodes : Dict Node} (linked : IsLinked nodes) where
  -- The head of the queue is a node whose dependencies are processed, and itself it is not.
  pub head_settled :
      (done queue : List Text) (v : Text)
      → occ v done + occ v (v ∷ queue) ≡ settled nodes done v
      → (n : Node) × (get nodes v ≡ some n) × (missing done n.depends_on ≡ 0) × (occ v done ≡ 0)
  unfolding occ
  head_settled done queue v h = elim (Option-cases (get nodes v)) [
    | inl e ↦ absurd (ground (arith, same_refl v))
    | inr (n, e) ↦ (n, e, ground (arith, same_refl v), ground (arith, same_refl v))
  ]

  module _ {result : List Node} {in_degree : Dict ℤ} {v : Text} {queue : List Text} {n : Node}
      (r : Reached nodes result in_degree (v ∷ queue)) (here : get nodes v ≡ some n)
      (ready : missing (ids result) n.depends_on ≡ 0) (fresh : occ v (ids result) ≡ 0) where
    abbrev before_round : Frontier
    before_round = record { in_degree = in_degree; queue = queue }

    abbrev after_round : Frontier
    after_round = reduce_all n.depended_on_by before_round

    waiting_after :
        (k : Text) (m : Node)
        → get nodes k ≡ some m
        → degree after_round.in_degree k ≡ pos (missing (ids result ++ v ∷ []) m.depends_on)
    waiting_after k m e = ground (
      arith,
      degree-reduce_all n.depended_on_by before_round k (λ j. linked.once_by v j n here),
      missing-append (ids result) m.depends_on v fresh,
      linked.mirrored k v m n e here,
      linked.once k v m e,
      r.waiting k m e,
    )

    outside_after :
        (k : Text) → get nodes k ≡ none → is_positive (degree after_round.in_degree k) ≡ false
    outside_after k e = ground (
      arith,
      degree-reduce_all n.depended_on_by before_round k (λ j. linked.once_by v j n here),
      r.outside k e,
    )

    counted_after :
        (k : Text)
        → occ k (ids result ++ v ∷ []) + occ k after_round.queue
          ≡ settled nodes (ids result ++ v ∷ []) k
    unfolding occ
    counted_after k = elim (Option-cases (get nodes k)) [
      | inl e ↦ ground (
        arith,
        occ-append k (ids result) (v ∷ []),
        occ-reduce_all n.depended_on_by before_round k (λ j. linked.once_by v j n here),
        r.outside k e,
        r.counted k,
      )
      | inr (m, e) ↦ ground (
        arith,
        occ-append k (ids result) (v ∷ []),
        occ-reduce_all n.depended_on_by before_round k (λ j. linked.once_by v j n here),
        missing-append (ids result) m.depends_on v fresh,
        linked.mirrored k v m n e here,
        linked.once k v m e,
        r.waiting k m e,
        r.counted k,
      )
    ]

    -- A round of the main loop keeps the invariant.
    pub Reached-round : Reached nodes (result ++ n ∷ []) after_round.in_degree after_round.queue
    Reached-round =
        let at_end : ids (result ++ n ∷ []) ≡ ids result ++ v ∷ [] =
          rw (ids-append result (n ∷ []), linked.named v n here) in
        record {
          waiting = λ k m e. rw at_end (waiting_after k m e);
          outside = outside_after;
          counted = λ k. rw at_end (counted_after k);
          ordered =
              IsOrdered-snoc [] result n r.ordered
                (λ d p. occ_of_missing (ids result) n.depends_on d ready p);
          found =
              All-append (λ m. get nodes m.id ≡ some m) result (n ∷ []) r.found
                (subst (λ k. get nodes k ≡ some n) (sym (linked.named v n here)) here, tt);
        }
