-- ===== src/Graph/Kahn/Loop.antt =====
-- The main loop from start to end, with nil nodes and fuel.
use cldctl.Prelude.{
  ℕ, zero, suc, ◌+◌, ◌≤◌, ◌≡◌, refl, none, some, List, [], ◌∷◌, ◌++◌, arith, length, length-append,
  ℤ, pos, Option-cases, inl, inr,
}
use cldctl.Prelude.Results.{Result, ok}
use cldctl.Text.{Text, same_iff}
use cldctl.Text.Sort.{occ, occ-append, occ-sort_strings, sort_strings, length-le_of_occ}
use cldctl.Dict.{Dict, get, keys, map_values}
use cldctl.Dict.Laws.{length-keys, occ-keys_of_get, IsKeyed}
use cldctl.Graph.{Node}
use cldctl.Graph.Edges.{IsLinked}
use cldctl.Graph.Topo.{degree, ids, kahn, roots, in_degrees}
use cldctl.Graph.Kahn.Missing.{missing, missing-nil}
use cldctl.Graph.Kahn.Reached.{Reached, Reached-round, head_settled, settled}

pub length-ids : (ns : List Node) → length (ids ns) ≡ length ns
length-ids [] = refl
length-ids (n ∷ ns) = omega (arith, length-ids ns)

occ-roots : (m : Dict Node) (k : Text) → IsKeyed m → occ k (roots (in_degrees m)) ≡ settled m [] k
unfolding roots in_degrees map_values get occ keys
occ-roots [] k h = refl
occ-roots ((j, n) ∷ m) k h = ground (
  arith,
  h k,
  missing-nil n.depends_on,
  same_iff k j,
  same_iff j k,
  occ-keys_of_get m k,
  occ-roots m k (λ i. omega (arith, h i)),
)

degree-in_degrees :
    (m : Dict Node) (k : Text)
    → degree (in_degrees m) k
      ≡ (elim (get m k) [ none ↦ pos 0 | some n ↦ pos (missing [] n.depends_on) ])
unfolding in_degrees map_values get
degree-in_degrees [] k = refl
degree-in_degrees ((j, n) ∷ m) k = ground (arith, missing-nil n.depends_on, degree-in_degrees m k)

module _ (nodes : Dict Node) where
  pub settled-le : (done : List Text) (k : Text) → settled nodes done k ≤ occ k (keys nodes)
  settled-le done k = elim (Option-cases (get nodes k)) [
    | inl e ↦ ground arith
    | inr (n, e) ↦ ground (arith, occ-keys_of_get nodes k)
  ]

  -- No more nodes are processed than there are.
  pub length-le :
      {result : List Node} {in_degree : Dict ℤ} {queue : List Text}
      → Reached nodes result in_degree queue
      → length (ids result ++ queue) ≤ length nodes
  length-le {result} {in_degree} {queue} r = omega (
    arith,
    length-keys nodes,
    length-le_of_occ (ids result ++ queue) (keys nodes) (λ k.
        omega (arith, settled-le (ids result) k, r.counted k, occ-append k (ids result) queue)),
  )

  -- What the loop ends with.
  pub record Finished (out : Result {0, 0} cldctl.Graph.GraphError (List Node)) : Type 0 where
    pub result : List Node
    pub in_degree : Dict ℤ
    pub returned : out ≡ ok result
    pub reached : Reached nodes result in_degree []

  pub kahn-Finished :
      IsLinked nodes
      → (fuel : ℕ) (result : List Node) (in_degree : Dict ℤ) (queue : List Text)
      → Reached nodes result in_degree queue
      → length nodes ≤ fuel + length result
      → Finished (kahn fuel nodes result in_degree queue)
  unfolding kahn
  kahn-Finished linked zero result in_degree [] r h = record {
    result = result;
    in_degree = in_degree;
    returned = refl;
    reached = r;
  }
  kahn-Finished linked (suc fuel) result in_degree [] r h = record {
    result = result;
    in_degree = in_degree;
    returned = refl;
    reached = r;
  }
  kahn-Finished linked zero result in_degree (v ∷ queue) r h =
      absurd (omega (arith, length-le r, length-append (ids result) (v ∷ queue), length-ids result))
  kahn-Finished linked (suc fuel) result in_degree (v ∷ queue) r h =
      let (n, here, ready, fresh) = head_settled linked (ids result) queue v (r.counted v) in
      rw (here, kahn)
        (kahn-Finished linked fuel (result ++ n ∷ []) _ _ (Reached-round linked r here ready fresh)
          (omega (arith, length-append result (n ∷ []))))

  -- The invariant holds before the first round.
  pub Reached-start :
      IsLinked nodes → Reached nodes [] (in_degrees nodes) (sort_strings (roots (in_degrees nodes)))
  unfolding occ
  Reached-start linked = record {
    waiting = λ k n e. rw (degree-in_degrees nodes k, e);
    outside = λ k e. rw (degree-in_degrees nodes k, e);
    counted = λ k.
        omega
          (arith, occ-sort_strings k (roots (in_degrees nodes)), occ-roots nodes k linked.keyed);
    ordered = tt;
    found = tt;
  }
