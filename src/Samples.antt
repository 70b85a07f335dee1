-- ===== src/Samples.antt =====
-- Small concrete graphs, plans and runs: a deployment that needs a database, and a cycle of two.
pub mod Memory
pub mod Sorting
pub mod Plans
pub mod Runs
pub mod Parallels
pub mod States
pub mod Expressions
pub mod Destroys
pub mod Redeploys
use cldctl.Prelude.{[], ◌∷◌, any, refl}
use cldctl.Text.{Text, codes, same}
use cldctl.Graph.{
  Graph, Node, new_graph, new_node, add_dependency, add_dependent, database, deployment, add_edge,
  add_node, append_new, get_node, link, node_id,
}
use cldctl.Graph.Edges.{IsLinked, IsClosed, add_edge-IsLinked, add_node-IsLinked}
use cldctl.Dict.{get, put}
use cldctl.Graph.Built.{Built, Built-IsLinked, new_graph-IsLinked, start, with_edge, with_node}

abbrev pub web : Text
web = codes "web"

abbrev pub main : Node
main = new_node database web (codes "main")

abbrev pub api : Node
api = new_node deployment web (codes "api")

abbrev none_yet : Graph
none_yet = new_graph (codes "dev") (codes "dc")

abbrev one : Graph
one = record none_yet { nodes = (main.id, main) ∷ [] }

abbrev two : Graph
two = record none_yet { nodes = (main.id, main) ∷ (api.id, api) ∷ [] }

-- `api` depends on `main`.
abbrev pub needs_main : Graph
needs_main = record none_yet {
  nodes = (main.id, add_dependent main api.id) ∷ (api.id, add_dependency api main.id) ∷ [];
}

none_yet-IsLinked : IsLinked none_yet.nodes × IsClosed none_yet.nodes
none_yet-IsLinked = new_graph-IsLinked (codes "dev") (codes "dc")

one-IsLinked : IsLinked one.nodes × IsClosed one.nodes
unfolding new_graph add_node new_node node_id put get
one-IsLinked =
    add_node-IsLinked none_yet one main none_yet-IsLinked.0 none_yet-IsLinked.1 refl refl refl

add_node-IsLinked_example : IsLinked two.nodes × IsClosed two.nodes
unfolding new_graph add_node new_node node_id put get same
add_node-IsLinked_example =
    add_node-IsLinked one two api one-IsLinked.0 one-IsLinked.1 refl refl refl

two-IsLinked : IsLinked two.nodes × IsClosed two.nodes
unfolding new_graph add_node new_node node_id put get same
two-IsLinked = add_node-IsLinked one two api one-IsLinked.0 one-IsLinked.1 refl refl refl

pub needs_main-IsLinked : IsLinked needs_main.nodes × IsClosed needs_main.nodes
unfolding new_graph add_edge get_node link add_dependency add_dependent append_new any new_node
    node_id put get same
needs_main-IsLinked =
    add_edge-IsLinked two needs_main api.id main.id two-IsLinked.0 two-IsLinked.1 refl

add_edge-IsLinked_example : IsLinked needs_main.nodes × IsClosed needs_main.nodes
unfolding new_graph add_edge get_node link add_dependency add_dependent append_new any new_node
    node_id put get same
add_edge-IsLinked_example =
    add_edge-IsLinked two needs_main api.id main.id two-IsLinked.0 two-IsLinked.1 refl

one-Built : Built one
unfolding new_graph add_node new_node node_id put get
one-Built =
    with_node none_yet one database web (codes "main") (start (codes "dev") (codes "dc")) refl

two-Built : Built two
unfolding new_graph add_node new_node node_id put get same
two-Built = with_node one two deployment web (codes "api") one-Built refl

needs_main-Built : Built needs_main
unfolding new_graph add_edge get_node link add_dependency add_dependent append_new any new_node
    node_id put get same
needs_main-Built = with_edge two needs_main api.id main.id two-Built refl

Built-IsLinked_example : IsLinked needs_main.nodes × IsClosed needs_main.nodes
Built-IsLinked_example = Built-IsLinked needs_main needs_main-Built
