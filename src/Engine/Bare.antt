-- ===== src/Engine/Bare.antt =====
-- pkg/engine/engine.go, `Destroy`: the graph of stored resources, which has no edges, and its plan.
use cldctl.Prelude.{
  All, Bool, Bool-cases, List, [], arith, inl, inr, keep, refl, some, ◌++◌, ◌∷◌, ◌≡◌, false, true,
  Option, sym,
}
use cldctl.Types.{ComponentState, ResourceState, EnvironmentState}
use cldctl.Dict.{Dict, get, has, put}
use cldctl.Graph.{Graph, Node, add_node, new_graph, new_node}
use cldctl.Graph.Edges.{IsClosed, IsLinked, add_node-IsLinked}
use cldctl.Executor.Run.Success.{IsFollowing}
use cldctl.Planner.{ResourceChange, Plan, destroy_nodes, empty_plan, plan_destroy}
use cldctl.Prelude.Results.{ok}
use cldctl.Text.{Text, same}
use cldctl.Engine.{add_component_nodes, add_resource_nodes, resource_node, try_add_node}
use cldctl.Planner.Destroy.{change_nodes, is_destroyed, plan_destroy_lem}
use cldctl.Text.Sort.{occ}
use cldctl.Graph.Topo.{drop_unknown, reverse_result, reverse_topological_sort}
use cldctl.Graph.Order.{get-drop_unknown, topological_sort-IsSorting}
use cldctl.Dict.Laws.{get-put}
use mathlib.Core.List.{reverse, reverse_aux}
use mathlib.Core.Path.{subst}
use cldctl.Graph.Cycles.{topological_sort-of_acyclic}
use cldctl.Graph.Built.{new_graph-IsLinked}

abbrev NoDependencies : Node → Type 0
NoDependencies n = n.depends_on ≡ []

-- A graph with nodes and no edges.
pub record IsBare (nodes : Dict Node) : Type 0 where
  pub linked : IsLinked nodes
  pub closed : IsClosed nodes
  pub bare : (k : Text) (n : Node) → get nodes k ≡ some n → n.depends_on ≡ []

abbrev fresh_graph : Graph → Node → Graph
fresh_graph g n = record g { nodes = put g.nodes n.id n }

add_node-fresh :
    (g : Graph) (n : Node) → has g.nodes n.id ≡ false → add_node g n ≡ ok (fresh_graph g n)
unfolding add_node
add_node-fresh g n fresh = rw fresh

try_add_node-fresh :
    (g : Graph) (n : Node) → has g.nodes n.id ≡ false → try_add_node g n ≡ fresh_graph g n
unfolding try_add_node add_node
try_add_node-fresh g n fresh = ground (arith, fresh)

try_add_node-there : (g : Graph) (n : Node) → has g.nodes n.id ≡ true → try_add_node g n ≡ g
unfolding try_add_node add_node
try_add_node-there g n there = ground (arith, there)

put-bare :
    (nodes : Dict Node) (n : Node)
    → IsBare nodes
    → n.depends_on ≡ []
    → (k : Text) (m : Node) → get (put nodes n.id n) k ≡ some m
    → m.depends_on ≡ []
put-bare nodes n h no_deps k m e = elim (Bool-cases (same n.id k)) [
  | inl here ↦
      let new : n ≡ m = ground (arith, get-put nodes n.id k n, e) in
      subst NoDependencies new no_deps
  | inr away ↦ h.bare k m (ground (arith, get-put nodes n.id k n, e))
]

try_add_node-IsBare :
    (g : Graph) (n : Node)
    → n.depends_on ≡ []
    → n.depended_on_by ≡ []
    → IsBare g.nodes
    → IsBare (try_add_node g n).nodes
try_add_node-IsBare g n no_deps no_users h = elim (Bool-cases (has g.nodes n.id)) [
  | inl there ↦ rw (try_add_node-there g n there) h
  | inr fresh ↦
      let added = fresh_graph g n in
      let (linked, closed) =
        add_node-IsLinked g added n h.linked h.closed no_deps no_users (add_node-fresh g n fresh) in
      rw (try_add_node-fresh g n fresh) (record {
        linked = linked;
        closed = closed;
        bare = λ k m e. put-bare g.nodes n h no_deps k m e;
      })
]

pub add_resource_nodes-IsBare :
    (comp_name : Text) (resources : Dict ResourceState) (g : Graph)
    → IsBare g.nodes
    → IsBare (add_resource_nodes comp_name resources g).nodes
unfolding add_resource_nodes resource_node new_node
add_resource_nodes-IsBare comp_name [] g h = h
add_resource_nodes-IsBare comp_name ((res_name, res) ∷ resources) g h =
    add_resource_nodes-IsBare comp_name resources
      (try_add_node g (resource_node comp_name res_name res))
      (try_add_node-IsBare g (resource_node comp_name res_name res) refl refl h)

pub add_component_nodes-IsBare :
    (components : Dict ComponentState) (g : Graph)
    → IsBare g.nodes
    → IsBare (add_component_nodes components g).nodes
unfolding add_component_nodes
add_component_nodes-IsBare [] g h = h
add_component_nodes-IsBare ((comp_name, comp) ∷ components) g h =
    add_component_nodes-IsBare components (add_resource_nodes comp_name comp.resources g)
      (add_resource_nodes-IsBare comp_name comp.resources g h)

pub new_graph-IsBare :
    (environment datacenter : Text) → IsBare (new_graph environment datacenter).nodes
unfolding new_graph get
new_graph-IsBare environment datacenter =
    let (linked, closed) = new_graph-IsLinked environment datacenter in
    record { linked = linked; closed = closed; bare = λ k n e. absurd (ground arith) }

-- Nodes with no dependencies stand in a topological order however they stand.
IsFollowing-of_bare :
    (seen : List Text) (cs : List ResourceChange)
    → All NoDependencies (change_nodes cs)
    → IsFollowing seen cs
unfolding occ
IsFollowing-of_bare seen [] h = tt
IsFollowing-of_bare seen (c ∷ cs) h =
    (λ id p. absurd (ground (arith, h.0, p)), IsFollowing-of_bare (seen ++ c.node.id ∷ []) cs h.1)

All-keep : (P : Node → Type 0) (p : Node → Bool) (xs : List Node) → All P xs → All P (keep p xs)
unfolding keep
All-keep P p [] h = tt
All-keep P p (x ∷ xs) h = elim (Bool-cases (p x)) [
  | inl kept ↦ rw kept (h.0, All-keep P p xs h.1)
  | inr gone ↦ rw gone (All-keep P p xs h.1)
]

All-reverse_aux :
    (P : Node → Type 0) (xs acc : List Node) → All P xs → All P acc → All P (reverse_aux xs acc)
All-reverse_aux P [] acc h k = k
All-reverse_aux P (x ∷ xs) acc h k = All-reverse_aux P xs (x ∷ acc) h.1 (h.0, k)

no_dependencies :
    (nodes : Dict Node) (sorted : List Node)
    → IsBare nodes
    → All (λ n. get (drop_unknown nodes) n.id ≡ some n) sorted
    → All NoDependencies sorted
unfolding keep
no_dependencies nodes [] h found = tt
no_dependencies nodes (n ∷ ns) h found =
    let (m, here, same_node) = get-drop_unknown nodes n.id n found.0 in
    (
      subst NoDependencies (sym same_node) (rw (h.bare n.id m here) refl),
      no_dependencies nodes ns h found.1,
    )

-- The nodes of a bare graph in the order of `ReverseTopologicalSort`.
record IsSortedBare (g : Graph) : Type 0 where
  sorted : List Node
  returned : (reverse_topological_sort g).1 ≡ ok sorted
  bare : All NoDependencies sorted

sort_bare : (g : Graph) → IsBare g.nodes → IsSortedBare g
unfolding reverse_topological_sort reverse_result occ
sort_bare g h =
    let (sorted, returned) =
      topological_sort-of_acyclic g (λ _. 0) h.linked
        (λ k d n e p known. absurd (ground (arith, h.bare k n e, p))) in
    record {
      sorted = reverse sorted;
      returned = rw returned;
      bare =
          All-reverse_aux NoDependencies sorted []
            (no_dependencies g.nodes sorted h
              (topological_sort-IsSorting g sorted h.linked returned).found)
            tt;
    }

pub IsFollowing-plan_destroy :
    (g : Graph) (current_state : Option EnvironmentState) (p : Plan)
    → IsBare g.nodes
    → (plan_destroy g current_state).1 ≡ ok p
    → IsFollowing [] p.changes
IsFollowing-plan_destroy g current_state p h e =
    let s = sort_bare g h in
    let planned = plan_destroy_lem g current_state s.sorted p s.returned e in
    IsFollowing-of_bare [] p.changes
      (rw planned.0 (All-keep NoDependencies (is_destroyed current_state) s.sorted s.bare))

pub plan_of_bare :
    (g : Graph) (current_state : Option EnvironmentState)
    → IsBare g.nodes
    → (p : Plan) × ((plan_destroy g current_state).1 ≡ ok p)
unfolding plan_destroy
plan_of_bare g current_state h =
    let s = sort_bare g h in (destroy_nodes current_state s.sorted (empty_plan g), rw s.returned)
