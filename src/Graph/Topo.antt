-- ===== src/Graph/Topo.antt =====
-- pkg/graph/graph.go, `TopologicalSort` and `ReverseTopologicalSort`: Kahn's algorithm.
use cldctl.Prelude.{
  ℕ, zero, suc, not, none, some, List, [], ◌∷◌, ◌++◌, if◌then◌else◌, keep, any, length, ℤ, pos,
  pred_ℤ, is_zero, ◌==◌,
}
use cldctl.Prelude.Results.{Result, ok, err}
use cldctl.Text.{Text, same}
use cldctl.Text.Sort.{sort_strings}
use cldctl.Dict.{Dict, get, put, has, keys, map_values}
use cldctl.Graph.{Node, Graph, GraphError, dependency_cycle, nil_node, out_of_fuel}
use mathlib.Core.List.{reverse}

-- The first loop: dependencies on nodes that are not there are dropped from every node.
unfoldable pub drop_unknown : Dict Node → Dict Node
drop_unknown nodes =
    map_values {V = Node} (λ _ n. record n { depends_on = keep (has nodes) n.depends_on }) nodes

unfoldable pub in_degrees : Dict Node → Dict ℤ
in_degrees nodes = map_values {V = Node} (λ _ n. pos (length n.depends_on)) nodes

-- The IDs of in-degree 0, in the order of the loop.
unfoldable pub roots : Dict ℤ → List Text
roots [] = []
roots ((id, d) ∷ m) = let rest = roots m in if is_zero d then id ∷ rest else rest

-- `inDegree[id]`, which is 0 for an ID that is not there.
abbrev pub degree : Dict ℤ → Text → ℤ
degree m id = elim (get m id) [ none ↦ pos 0 | some d ↦ d ]

pub record Frontier : Type 0 where
  pub in_degree : Dict ℤ
  pub queue : List Text

-- The body of the loop over the dependents of a node that was taken from the queue.
unfoldable pub reduce : Frontier → Text → Frontier
reduce f id =
    let d = pred_ℤ (degree f.in_degree id) in
    record {
      in_degree = put f.in_degree id d;
      queue = if is_zero d then sort_strings (f.queue ++ id ∷ []) else f.queue;
    }

unfoldable pub reduce_all : List Text → Frontier → Frontier
unfolding reduce
reduce_all [] f = f
reduce_all (id ∷ ids) f = reduce_all ids (reduce f id)

-- The main loop. Its fuel bounds the number of nodes that are taken from the queue.
unfoldable pub kahn : ℕ → Dict Node → List Node → Dict ℤ → List Text → Result GraphError (List Node)
unfolding reduce_all
kahn fuel nodes result in_degree [] = ok result
kahn zero nodes result in_degree (id ∷ queue) = err out_of_fuel
kahn (suc fuel) nodes result in_degree (id ∷ queue) = elim (get nodes id) [
  | none ↦ err (nil_node id)
  | some node ↦
      let f : Frontier =
        reduce_all node.depended_on_by (record { in_degree = in_degree; queue = queue }) in
      kahn fuel nodes (result ++ node ∷ []) f.in_degree f.queue
]

abbrev pub ids : List Node → List Text
ids [] = []
ids (n ∷ ns) = n.id ∷ ids ns

-- The IDs that were not processed, and what each of them depends on, for the error message.
unfoldable pub cycle_nodes : Dict Node → List Node → List Text
cycle_nodes nodes result = sort_strings (keep (λ id. not (any (same id) (ids result))) (keys nodes))

unfoldable pub cycle_details : Dict Node → List Text → List (Text × List Text)
cycle_details nodes [] = []
cycle_details nodes (id ∷ rest) = elim (get nodes id) [
  | none ↦ cycle_details nodes rest
  | some n ↦ elim n.depends_on [
    | [] ↦ cycle_details nodes rest
    | d ∷ ds ↦ (id, d ∷ ds) ∷ cycle_details nodes rest
  ]
]

unfoldable pub check_processed : Dict Node → List Node → Result GraphError (List Node)
unfolding cycle_nodes cycle_details
check_processed nodes result =
    if length result == length nodes
    then ok result
    else let cycle = cycle_nodes nodes result in
      err (dependency_cycle cycle (cycle_details nodes cycle))

-- From the cleaned nodes on.
unfoldable pub sort_nodes : Dict Node → Result GraphError (List Node)
unfolding kahn in_degrees roots check_processed
sort_nodes nodes =
    let degrees = in_degrees nodes in
    elim (kahn (length nodes) nodes [] degrees (sort_strings (roots degrees))) [
      | ok result ↦ check_processed nodes result
      | err e ↦ err e
    ]

-- The graph comes back too: its nodes have lost their unknown dependencies, errors or not.
unfoldable pub topological_sort : Graph → Graph × Result GraphError (List Node)
unfolding drop_unknown sort_nodes
topological_sort g =
    let nodes = drop_unknown g.nodes in (record g { nodes = nodes }, sort_nodes nodes)

unfoldable pub reverse_result : Result GraphError (List Node) → Result GraphError (List Node)
reverse_result (ok sorted) = ok (reverse sorted)
reverse_result (err e) = err e

unfoldable pub reverse_topological_sort : Graph → Graph × Result GraphError (List Node)
unfolding topological_sort reverse_result
reverse_topological_sort g = let (g', sorted) = topological_sort g in (g', reverse_result sorted)
