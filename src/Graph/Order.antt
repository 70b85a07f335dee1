-- ===== src/Graph/Order.antt =====
-- pkg/graph/graph.go, `TopologicalSort` and `ReverseTopologicalSort`: what a returned order is.
use mathlib.Core.List.{reverse, reverse-reverse}
use cldctl.Prelude.{
  ◌≤◌, ◌≡◌, Bool, true, some, List, [], ◌∷◌, if◌then◌else◌, arith, ◌==◌, length, keep, Option-cases,
  Bool-cases, inl, inr, All, ==_iff, refl, ap, sym, ◌∙◌,
}
use cldctl.Prelude.Results.{ok, Result, err}
use cldctl.Text.{Text, same_iff}
use cldctl.Text.Sort.{occ, occ-eq_of_le}
use cldctl.Dict.{Dict, get, has, keys}
use cldctl.Dict.Laws.{get-map_values, keys-map_values, length-keys}
use cldctl.Graph.{Node, Graph, GraphError}
use cldctl.Graph.Edges.{depends, IsLinked}
use cldctl.Graph.Topo.{
  ids, drop_unknown, in_degrees, kahn, sort_nodes, check_processed, topological_sort,
  reverse_topological_sort, reverse_result,
}
use cldctl.Graph.Kahn.Reached.{Reached, IsOrdered}
use cldctl.Graph.Kahn.Loop.{Finished, kahn-Finished, Reached-start, settled-le, length-ids}
use mathlib.Core.Path.{subst}

pub occ-keep :
    (p : Text → Bool) (k : Text) (xs : List Text)
    → occ k (keep p xs) ≡ (if p k then occ k xs else 0)
unfolding occ keep
occ-keep p k [] = ground arith
occ-keep p k (x ∷ xs) = ground (arith, same_iff k x, occ-keep p k xs)

abbrev clean : Dict Node → Text → Node → Node
clean nodes _ n = record n { depends_on = keep (has nodes) n.depends_on }

-- A node of the cleaned graph is a node of the graph that has lost its unknown dependencies.
pub get-drop_unknown :
    (nodes : Dict Node) (k : Text) (n : Node)
    → get (drop_unknown nodes) k ≡ some n
    → (m : Node) × (get nodes k ≡ some m)
      × (n ≡ record m { depends_on = keep (has nodes) m.depends_on })
unfolding drop_unknown
get-drop_unknown nodes k n e = elim (Option-cases (get nodes k)) [
  | inl absent ↦ absurd (ground (arith, get-map_values (clean nodes) nodes k))
  | inr (m, here) ↦ (m, here, ground (arith, get-map_values (clean nodes) nodes k))
]

pub get-drop_unknown-some :
    (nodes : Dict Node) (k : Text) (m : Node)
    → get nodes k ≡ some m
    → get (drop_unknown nodes) k ≡ some (record m { depends_on = keep (has nodes) m.depends_on })
unfolding drop_unknown
get-drop_unknown-some nodes k m e = ground (arith, get-map_values (clean nodes) nodes k)

pub has-drop_unknown : (nodes : Dict Node) (k : Text) → has (drop_unknown nodes) k ≡ has nodes k
unfolding drop_unknown
has-drop_unknown nodes k = ground (arith, get-map_values (clean nodes) nodes k)

pub keys-drop_unknown : (nodes : Dict Node) → keys (drop_unknown nodes) ≡ keys nodes
unfolding drop_unknown
keys-drop_unknown nodes = keys-map_values (clean nodes) nodes

-- The clean-up keeps the graph linked.
pub drop_unknown-IsLinked : (nodes : Dict Node) → IsLinked nodes → IsLinked (drop_unknown nodes)
drop_unknown-IsLinked nodes h = record {
  keyed = λ k. rw keys-drop_unknown (h.keyed k);
  named = λ k n e.
      let (m, here, same_node) = get-drop_unknown nodes k n e in ground (arith, h.named k m here);
  once = λ k j n e.
      let (m, here, same_node) = get-drop_unknown nodes k n e in
      ground (arith, h.once k j m here, occ-keep (has nodes) j m.depends_on);
  once_by = λ k j n e.
      let (m, here, same_node) = get-drop_unknown nodes k n e in
      ground (arith, h.once_by k j m here);
  mirrored = λ k j n n' e e'.
      let (m, here, same_node) = get-drop_unknown nodes k n e in
      let (m', here', same_node') = get-drop_unknown nodes j n' e' in
      ground (arith, h.mirrored k j m m' here here', occ-keep (has nodes) j m.depends_on);
}

-- After it every dependency is a node.
pub known_dependency :
    (nodes : Dict Node) (k d : Text) (n : Node)
    → get (drop_unknown nodes) k ≡ some n
    → 1 ≤ depends n d
    → has nodes d ≡ true
known_dependency nodes k d n e p =
    let (m, here, same_node) = get-drop_unknown nodes k n e in
    ground (arith, occ-keep (has nodes) d m.depends_on)

-- What the main loop leaves, and what the check for cycles makes of it.
pub sort_nodes-Reached :
    (nodes : Dict Node)
    → IsLinked nodes
    → (f : Finished nodes (
        kahn
          (length nodes)
          nodes
          []
          (in_degrees nodes)
          (cldctl.Text.Sort.sort_strings (cldctl.Graph.Topo.roots (in_degrees nodes)))))
      × (sort_nodes nodes ≡ check_processed nodes f.result)
unfolding sort_nodes
sort_nodes-Reached nodes linked =
    let f =
      kahn-Finished nodes linked (length nodes) [] _ _ (Reached-start nodes linked) (omega arith) in
    (f, rw (f.returned, sort_nodes))

-- A topological order of some nodes.
pub record IsSorting (nodes : Dict Node) (result : List Node) : Type 0 where
  -- Every ID of the graph stands in it once, and nothing else does.
  pub complete : (k : Text) → occ k (ids result) ≡ occ k (keys nodes)
  -- What stands there are the nodes of the graph.
  pub found : All (λ n. get nodes n.id ≡ some n) result
  -- A node stands behind each node that it depends on.
  pub ordered : IsOrdered [] result

pub IsSorting-of_length :
    (nodes : Dict Node) {result : List Node} {in_degree : Dict cldctl.Prelude.ℤ}
    → Reached nodes result in_degree []
    → length result ≡ length nodes
    → IsSorting nodes result
unfolding occ
IsSorting-of_length nodes {result} r e = record {
  complete = λ k.
      occ-eq_of_le (ids result) (keys nodes)
        (λ j. omega (arith, settled-le nodes (ids result) j, r.counted j))
        (omega (arith, length-ids result, length-keys nodes)) k;
  found = r.found;
  ordered = r.ordered;
}

pub sort_nodes-IsSorting :
    (nodes : Dict Node) (result : List Node)
    → IsLinked nodes
    → sort_nodes nodes ≡ ok result
    → IsSorting nodes result
unfolding check_processed
sort_nodes-IsSorting nodes result linked e =
    let (f, out) = sort_nodes-Reached nodes linked in
    elim (Bool-cases (length f.result == length nodes)) [
      | inl full ↦
          let e' : f.result ≡ result = ground (arith, out, e) in
          rw (← e') (IsSorting-of_length nodes f.reached ((==_iff _ _).0 full))
      | inr short ↦ absurd (ground (arith, out, e))
    ]

-- On a linked graph, if the sort returns an order then every ID of the graph stands in the order
-- exactly once and nothing else does, its entries are the nodes of the graph without their unknown
-- dependencies, and each node stands behind all of its remaining dependencies.
pub topological_sort-IsSorting :
    (g : Graph) (result : List Node)
    → IsLinked g.nodes
    → (topological_sort g).1 ≡ ok result
    → IsSorting (drop_unknown g.nodes) result
unfolding topological_sort
topological_sort-IsSorting g result linked e =
    sort_nodes-IsSorting (drop_unknown g.nodes) result (drop_unknown-IsLinked g.nodes linked) e

-- On a linked graph, what the reverse sort returns is a topological order read from its end: every
-- ID of the graph stands in it once, and each node stands before all that it depends on.
pub reverse_topological_sort-IsSorting :
    (g : Graph) (result : List Node)
    → IsLinked g.nodes
    → (reverse_topological_sort g).1 ≡ ok result
    → IsSorting (drop_unknown g.nodes) (reverse result)
unfolding reverse_topological_sort reverse_result
reverse_topological_sort-IsSorting g result linked e = from (topological_sort g).1 refl e
  where
    from :
        (r : Result GraphError (List Node))
        → (topological_sort g).1 ≡ r
        → reverse_result r ≡ ok result
        → IsSorting (drop_unknown g.nodes) (reverse result)
    from (ok sorted) was e' =
        let back : reverse sorted ≡ result = ground arith in
        let same_list : sorted ≡ reverse result = sym (reverse-reverse sorted) ∙ ap reverse back in
        subst (IsSorting (drop_unknown g.nodes)) same_list
          (topological_sort-IsSorting g sorted linked was)
    from (err x) was e' = cc
