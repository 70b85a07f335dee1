-- ===== src/Samples/Sorting.antt =====
-- Witnesses on sorting: a deployment behind its database, and a cycle of two.
use cldctl.Graph.Cycles.{
  IsRanked, topological_sort-of_acyclic, IsStuck, topological_sort-rejects_cycle,
}
use cldctl.Graph.Order.{IsSorting, reverse_topological_sort-IsSorting, topological_sort-IsSorting}
use cldctl.Prelude.{
  List, [], any, if◌then◌else◌, keep, refl, ℕ, ◌∷◌, ◌≡◌, arith, false, Bool-cases, inl, inr, ◌≤◌,
}
use cldctl.Graph.{
  Node, add_dependency, add_dependent, append_new, new_graph, new_node, node_id, Graph, add_edge,
  dependency_cycle, get_node, link,
}
use cldctl.Text.{Text, same, same_refl, same_iff}
use cldctl.Samples.{api, main, needs_main, needs_main-IsLinked}
use cldctl.Text.Sort.{before, insert, occ, sort_strings}
use cldctl.Graph.Topo.{
  check_processed, drop_unknown, in_degrees, kahn, reduce, reduce_all, reverse_result,
  reverse_topological_sort, roots, sort_nodes, topological_sort,
}
use cldctl.Dict.{get, map_values, put}
use cldctl.Prelude.Results.{ok, err}
use mathlib.Core.List.{reverse}
use cldctl.Graph.Edges.{IsClosed, IsLinked, add_edge-IsLinked}

abbrev pub main' : Node
main' = add_dependent main api.id

abbrev pub api' : Node
api' = add_dependency api main.id

pub needs_main-sorted : (topological_sort needs_main).1 ≡ ok (main' ∷ api' ∷ [])
unfolding topological_sort drop_unknown map_values sort_nodes kahn in_degrees roots check_processed
    reduce_all reduce new_graph add_dependency add_dependent append_new any new_node node_id put get
    same keep sort_strings insert before
needs_main-sorted = refl

pub needs_main-reversed : (reverse_topological_sort needs_main).1 ≡ ok (api' ∷ main' ∷ [])
unfolding reverse_topological_sort reverse_result
needs_main-reversed = rw needs_main-sorted

topological_sort-IsSorting_example : IsSorting (drop_unknown needs_main.nodes) (main' ∷ api' ∷ [])
topological_sort-IsSorting_example =
    topological_sort-IsSorting needs_main (main' ∷ api' ∷ []) needs_main-IsLinked.0
      needs_main-sorted

reverse_topological_sort-IsSorting_example :
    IsSorting (drop_unknown needs_main.nodes) (reverse (api' ∷ main' ∷ []))
reverse_topological_sort-IsSorting_example =
    reverse_topological_sort-IsSorting needs_main (api' ∷ main' ∷ []) needs_main-IsLinked.0
      needs_main-reversed

abbrev height : Text → ℕ
height k = if same k main.id then 0 else 1

pub apart : same api.id main.id ≡ false
unfolding new_node node_id same
apart = refl

no_dependencies : main'.depends_on ≡ []
unfolding new_node add_dependent
no_dependencies = refl

one_dependency : api'.depends_on ≡ main.id ∷ []
unfolding new_node add_dependency append_new any
one_dependency = refl

needs_main-IsRanked : IsRanked height needs_main.nodes
unfolding occ get
needs_main-IsRanked k d n e p h = ground (
  arith,
  apart,
  no_dependencies,
  one_dependency,
  same_iff main.id k,
  same_iff api.id k,
  same_iff d main.id,
  same_iff main.id d,
  same_refl main.id,
)

topological_sort-of_acyclic_example :
    (result : List Node) × ((topological_sort needs_main).1 ≡ ok result)
topological_sort-of_acyclic_example =
    topological_sort-of_acyclic needs_main height needs_main-IsLinked.0 needs_main-IsRanked

-- The other edge closes a cycle.
abbrev main'' : Node
main'' = add_dependency main' api.id

abbrev api'' : Node
api'' = add_dependent api' main.id

abbrev in_cycle : Graph
in_cycle = record needs_main { nodes = (main.id, main'') ∷ (api.id, api'') ∷ [] }

in_cycle-IsLinked : IsLinked in_cycle.nodes × IsClosed in_cycle.nodes
unfolding new_graph add_edge get_node link add_dependency add_dependent append_new any new_node
    node_id put get same
in_cycle-IsLinked =
    add_edge-IsLinked needs_main in_cycle main.id api.id needs_main-IsLinked.0 needs_main-IsLinked.1
      refl

main_needs_api : main''.depends_on ≡ api.id ∷ []
unfolding new_node add_dependent add_dependency append_new any
main_needs_api = refl

api_needs_main : api''.depends_on ≡ main.id ∷ []
unfolding new_node add_dependency add_dependent append_new any
api_needs_main = refl

in_cycle-IsStuck : IsStuck in_cycle.nodes (main.id ∷ api.id ∷ [])
unfolding occ get
in_cycle-IsStuck k p = elim (Bool-cases (same k main.id)) [
  | inl at_main ↦ (
    main'',
    api.id,
    ground (arith, same_iff k main.id, same_refl main.id),
    ground (arith, main_needs_api, same_refl api.id),
    ground (arith, same_refl api.id),
  )
  | inr away ↦ (
    api'',
    main.id,
    ground (arith, p, apart, same_iff k api.id, same_iff main.id api.id, same_refl api.id),
    ground (arith, api_needs_main, same_refl main.id),
    ground (arith, same_refl main.id),
  )
]

api_in_cycle : 1 ≤ occ api.id (main.id ∷ api.id ∷ [])
unfolding occ
api_in_cycle = ground (arith, same_refl api.id)

topological_sort-rejects_cycle_example :
    (cycle : List Text) × (details : List (Text × List Text)) × ((topological_sort in_cycle).1
      ≡ err (dependency_cycle cycle details))
    × (1 ≤ occ api.id cycle)
topological_sort-rejects_cycle_example =
    topological_sort-rejects_cycle in_cycle (main.id ∷ api.id ∷ []) api.id in_cycle-IsLinked.0
      in_cycle-IsStuck api_in_cycle
