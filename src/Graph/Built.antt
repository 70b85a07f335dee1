-- ===== src/Graph/Built.antt =====
-- pkg/graph/graph.go: the graphs that its operations build.
use cldctl.Graph.{Graph, NodeType, add_edge, add_node, new_graph, new_instance_node, new_node}
use cldctl.Graph.Edges.{IsClosed, IsLinked, add_edge-IsLinked, add_node-IsLinked}
use cldctl.Text.{Text}
use cldctl.Prelude.{arith, refl, ◌≡◌, ℤ}
use cldctl.Dict.{get, keys}
use cldctl.Text.Sort.{occ}
use cldctl.Prelude.Results.{ok}

-- A graph that `NewGraph`, `AddNode` with a new node and `AddEdge` built, step by step.
pub data Built : Graph → Type 0 where
  start : (environment datacenter : Text) → Built (new_graph environment datacenter)
  with_node :
      (g g' : Graph) (type : NodeType) (component name : Text)
      → Built g
      → add_node g (new_node type component name) ≡ ok g'
      → Built g'
  with_instance_node :
      (g g' : Graph) (type : NodeType) (component instance_name : Text) (weight : ℤ) (name : Text)
      → Built g
      → add_node g (new_instance_node type component instance_name weight name) ≡ ok g'
      → Built g'
  with_edge :
      (g g' : Graph) (dependent dependency : Text)
      → Built g
      → add_edge g dependent dependency ≡ ok g'
      → Built g'

pub new_graph-IsLinked :
    (environment datacenter : Text)
    → IsLinked (new_graph environment datacenter).nodes
      × IsClosed (new_graph environment datacenter).nodes
unfolding new_graph get keys occ
new_graph-IsLinked environment datacenter = (
  record {
    keyed = λ k. omega arith;
    named = λ k n e. absurd (ground arith);
    once = λ k j n e. absurd (ground arith);
    once_by = λ k j n e. absurd (ground arith);
    mirrored = λ k j n m e e'. absurd (ground arith);
  },
  record { at = λ k j n e e'. absurd (ground arith) },
)

-- In every graph that the operations build, nodes stand under their IDs, the two lists of edges
-- mirror each other without repetition, and edges go between nodes of the graph only.
pub Built-IsLinked : (g : Graph) → Built g → IsLinked g.nodes × IsClosed g.nodes
unfolding new_node new_instance_node
Built-IsLinked g (start environment datacenter) = new_graph-IsLinked environment datacenter
Built-IsLinked g (with_node g₀ _ type component name b e) =
    let (linked, closed) = Built-IsLinked g₀ b in
    add_node-IsLinked g₀ g (new_node type component name) linked closed refl refl e
Built-IsLinked g (with_instance_node g₀ _ type component instance_name weight name b e) =
    let (linked, closed) = Built-IsLinked g₀ b in
    add_node-IsLinked g₀ g (new_instance_node type component instance_name weight name) linked
      closed refl refl e
Built-IsLinked g (with_edge g₀ _ dependent dependency b e) =
    let (linked, closed) = Built-IsLinked g₀ b in
    add_edge-IsLinked g₀ g dependent dependency linked closed e
