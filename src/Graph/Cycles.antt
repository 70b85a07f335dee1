-- ===== src/Graph/Cycles.antt =====
-- pkg/graph/graph.go, `TopologicalSort`: graphs with and without cycles.
use cldctl.Prelude.{
  ℕ, zero, suc, ◌+◌, ◌≤◌, ◌<◌, ◌≡◌, ◌≢◌, refl, sym, ap, Bool, true, false, Option, none, some, List,
  [], ◌∷◌, ◌++◌, if◌then◌else◌, arith, ◌==◌, length, is_some, Option-cases, Bool-cases, inl, inr,
  All, ==_iff, ◌∙◌, append-nil, append_assoc, any, not, keep,
}
use cldctl.Prelude.Results.{ok, err}
use cldctl.Text.{Text, same, same_iff}
use cldctl.Text.Sort.{occ, occ-append, length-le_of_occ, occ-sort_strings}
use cldctl.Dict.{Dict, get, has, keys}
use cldctl.Dict.Laws.{length-keys, occ-keys_of_none, IsKeyed, occ-keys_of_get}
use cldctl.Graph.{Node, Graph, dependency_cycle}
use cldctl.Graph.Edges.{depends, IsLinked}
use cldctl.Graph.Topo.{
  ids, drop_unknown, sort_nodes, check_processed, topological_sort, cycle_nodes, cycle_details,
}
use cldctl.Graph.Kahn.Missing.{missing, missing_of_occ}
use cldctl.Graph.Kahn.Reached.{Reached, IsOrdered}
use cldctl.Graph.Kahn.Loop.{settled-le, length-ids}
use cldctl.Graph.Order.{
  get-drop_unknown, get-drop_unknown-some, has-drop_unknown, drop_unknown-IsLinked,
  known_dependency, sort_nodes-Reached, IsSorting-of_length, occ-keep,
}

-- Dependencies on nodes of the graph have a lower rank, so that they form no cycle.
abbrev pub IsRanked : (Text → ℕ) → Dict Node → Type 0
IsRanked rank nodes =
    (k d : Text) (n : Node)
    → get nodes k ≡ some n
    → 1 ≤ depends n d
    → has nodes d ≡ true
    → rank d < rank k

-- Each of these nodes is in the graph and depends on another of them.
abbrev pub IsStuck : Dict Node → List Text → Type 0
IsStuck nodes stuck =
    (k : Text)
    → 1 ≤ occ k stuck
    → (n : Node) × (d : Text) × (get nodes k ≡ some n) × (1 ≤ depends n d) × (1 ≤ occ d stuck)

module _ (nodes : Dict Node) {result : List Node} {in_degree : Dict cldctl.Prelude.ℤ}
    (known : (k d : Text) (n : Node) → get nodes k ≡ some n → 1 ≤ depends n d → has nodes d ≡ true)
    (r : Reached nodes result in_degree []) where
  -- With ranks, every node below a bound is processed when the queue is empty.
  processed :
      (rank : Text → ℕ)
      → IsRanked rank nodes
      → (bound : ℕ) (k : Text) (n : Node) → rank k < bound
      → get nodes k ≡ some n
      → 1 ≤ occ k (ids result)
  unfolding occ
  processed rank ranked zero k n h e = absurd (omega arith)
  processed rank ranked (suc bound) k n h e =
      let all_done : missing (ids result) n.depends_on ≡ 0 =
        missing_of_occ (ids result) n.depends_on (λ d p. elim (Option-cases (get nodes d)) [
          | inl absent ↦ absurd (ground (arith, known k d n e p))
          | inr (m, here) ↦
              processed rank ranked bound d m (omega (arith, ranked k d n e p (known k d n e p)))
                here
        ]) in
      ground (arith, r.counted k)

  length-result :
      (rank : Text → ℕ) → IsKeyed nodes → IsRanked rank nodes → length result ≡ length nodes
  unfolding occ
  length-result rank keyed ranked = omega (
    arith,
    length-ids result,
    length-keys nodes,
    length-le_of_occ (ids result) (keys nodes)
        (λ k. omega (arith, settled-le nodes (ids result) k, r.counted k)),
    length-le_of_occ (keys nodes) (ids result) (λ k. elim (Option-cases (get nodes k)) [
      | inl absent ↦ ground (arith, occ-keys_of_none nodes k)
      | inr (n, here) ↦ ground (arith, keyed k, processed rank ranked (suc (rank k)) k n)
    ]),
  )

-- A node that depends on a later or missing one cannot stand in an order.
unprocessed :
    (nodes : Dict Node) (stuck : List Text) (seen : List Text) (result : List Node)
    → IsStuck nodes stuck
    → IsOrdered seen result
    → All (λ n. get nodes n.id ≡ some n) result
    → ((k : Text) → 1 ≤ occ k stuck → occ k seen ≡ 0)
    → (k : Text) → 1 ≤ occ k stuck
    → occ k (seen ++ ids result) ≡ 0
unprocessed nodes stuck seen [] h o f fresh k p = rw append-nil (fresh k p)
unprocessed nodes stuck seen (n ∷ ns) h o f fresh k p =
    rw append_assoc at (unprocessed nodes stuck (seen ++ n.id ∷ []) ns h o.1 f.1 fresh' k p)
  where
    not_here : occ n.id stuck ≡ 0
    not_here = elim (Bool-cases (occ n.id stuck == 0)) [
      | inl e ↦ (==_iff _ _).0 e
      | inr e ↦
          let (m, d, here, on, in_stuck) = h n.id (ground arith) in
          absurd (ground (arith, f.0, o.0 d, fresh d))
    ]

    fresh' : (j : Text) → 1 ≤ occ j stuck → occ j (seen ++ n.id ∷ []) ≡ 0
    fresh' j q =
        unfold occ in
        ground (arith, occ-append j seen (n.id ∷ []), fresh j, same_iff j n.id, not_here)

any-same : (k : Text) (xs : List Text) → any (same k) xs ≡ not (occ k xs == 0)
unfolding any occ
any-same k [] = refl
any-same k (x ∷ xs) = ground (arith, any-same k xs)

-- The error names the nodes that were not processed, and no other.
occ-cycle_nodes :
    (nodes : Dict Node) (result : List Node) (k : Text)
    → occ k (cycle_nodes nodes result) ≡ (if occ k (ids result) == 0 then occ k (keys nodes) else 0)
unfolding cycle_nodes
occ-cycle_nodes nodes result k = ground (
  arith,
  occ-sort_strings k (keep (λ id. not (any (same id) (ids result))) (keys nodes)),
  occ-keep (λ id. not (any (same id) (ids result))) k (keys nodes),
  any-same k (ids result),
)

module _ (nodes : Dict Node) (linked : IsLinked nodes)
    (known : (k d : Text) (n : Node)
      → get nodes k ≡ some n
      → 1 ≤ depends n d
      → has nodes d ≡ true) where
  sort_nodes_of_ranked :
      (rank : Text → ℕ)
      → IsRanked rank nodes
      → (result : List Node) × (sort_nodes nodes ≡ ok result)
  unfolding check_processed
  sort_nodes_of_ranked rank ranked =
      let (f, out) = sort_nodes-Reached nodes linked in
      (f.result, ground (arith, out, length-result nodes known f.reached rank linked.keyed ranked))

  sort_nodes_of_stuck :
      (stuck : List Text) (k : Text)
      → IsStuck nodes stuck
      → 1 ≤ occ k stuck
      → (cycle : List Text) × (details : List (Text × List Text)) × (sort_nodes nodes
          ≡ err (dependency_cycle cycle details))
        × (1 ≤ occ k cycle)
  unfolding check_processed occ
  sort_nodes_of_stuck stuck k h p =
      let (f, out) = sort_nodes-Reached nodes linked in
      let waits : occ k (ids f.result) ≡ 0 =
        unprocessed nodes stuck [] f.result h f.reached.ordered f.reached.found (λ j q. refl) k p in
      let (n, d, here, on, in_stuck) = h k p in
      let there : 1 ≤ occ k (keys nodes) = ground (arith, occ-keys_of_get nodes k) in
      let cycle = cycle_nodes nodes f.result in
      elim (Bool-cases (length f.result == length nodes)) [
        | inl full ↦
            absurd (
              omega (arith, (IsSorting-of_length nodes f.reached ((==_iff _ _).0 full)).complete k))
        | inr short ↦ (
          cycle,
          cycle_details nodes cycle,
          ground (arith, out),
          ground (arith, occ-cycle_nodes nodes f.result k),
        )
      ]

-- If every dependency on a node of the graph has a lower rank, so that there is no cycle, the sort
-- returns an order.
pub topological_sort-of_acyclic :
    (g : Graph) (rank : Text → ℕ)
    → IsLinked g.nodes
    → IsRanked rank g.nodes
    → (result : List Node) × ((topological_sort g).1 ≡ ok result)
unfolding topological_sort
topological_sort-of_acyclic g rank linked ranked =
    sort_nodes_of_ranked (drop_unknown g.nodes) (drop_unknown-IsLinked g.nodes linked)
      (λ k d n e p. rw has-drop_unknown (known_dependency g.nodes k d n e p)) rank
      (λ k d n e p there.
        let (m, here, same_node) = get-drop_unknown g.nodes k n e in
        ground (
          arith,
          occ-keep (has g.nodes) d m.depends_on,
          has-drop_unknown g.nodes d,
          ranked k d m here,
        ))

drop_unknown-IsStuck :
    (nodes : Dict Node) (stuck : List Text)
    → IsStuck nodes stuck
    → IsStuck (drop_unknown nodes) stuck
drop_unknown-IsStuck nodes stuck h k p =
    let (m, d, here, on, in_stuck) = h k p in
    let (m', d', here', on', in_stuck') = h d in_stuck in
    (
      record m { depends_on = keep (has nodes) m.depends_on },
      d,
      get-drop_unknown-some nodes k m here,
      ground (arith, occ-keep (has nodes) d m.depends_on),
      in_stuck,
    )

-- If each of some nodes depends on another of them, as on a cycle, the sort returns the cycle
-- error, and each of these nodes is named in it.
pub topological_sort-rejects_cycle :
    (g : Graph) (stuck : List Text) (k : Text)
    → IsLinked g.nodes
    → IsStuck g.nodes stuck
    → 1 ≤ occ k stuck
    → (cycle : List Text) × (details : List (Text × List Text)) × ((topological_sort g).1
        ≡ err (dependency_cycle cycle details))
      × (1 ≤ occ k cycle)
unfolding topological_sort drop_unknown
topological_sort-rejects_cycle g stuck k linked h p =
    sort_nodes_of_stuck (drop_unknown g.nodes) (drop_unknown-IsLinked g.nodes linked)
      (λ j d n e q. rw has-drop_unknown (known_dependency g.nodes j d n e q)) stuck k
      (drop_unknown-IsStuck g.nodes stuck h) p
