-- ===== src/Graph.antt =====
-- pkg/graph/node.go and pkg/graph/graph.go: the nodes of the dependency graph, its edges and the
-- queries on node states. A Go pointer to a node is the entry of the node in `nodes`, by its ID.
pub mod Topo
pub mod Edges
pub mod Built
pub mod Kahn
pub mod Order
pub mod Cycles
use cldctl.Prelude.{
  Bool, true, false, not, ◌&&◌, ◌||◌, Option, none, some, List, [], ◌∷◌, ◌++◌, if◌then◌else◌, all,
  any, keep, ℤ,
}
use cldctl.Prelude.Results.{Result, ok, err}
use cldctl.Text.{Text, codes, same}
use cldctl.Dict.{Dict, get, put, has}
use cldctl.Value.{Value}

-- `NodeType` is a string; these are its constants.
abbrev pub NodeType : Type 0
NodeType = Text

abbrev pub database : NodeType
database = codes "database"

abbrev pub bucket : NodeType
bucket = codes "bucket"

abbrev pub encryption_key : NodeType
encryption_key = codes "encryptionKey"

abbrev pub smtp : NodeType
smtp = codes "smtp"

abbrev pub deployment : NodeType
deployment = codes "deployment"

abbrev pub function : NodeType
function = codes "function"

abbrev pub service : NodeType
service = codes "service"

abbrev pub route : NodeType
route = codes "route"

abbrev pub cronjob : NodeType
cronjob = codes "cronjob"

abbrev pub secret : NodeType
secret = codes "secret"

abbrev pub docker_build : NodeType
docker_build = codes "dockerBuild"

abbrev pub task : NodeType
task = codes "task"

abbrev pub observability : NodeType
observability = codes "observability"

abbrev pub port : NodeType
port = codes "port"

abbrev pub database_user : NodeType
database_user = codes "databaseUser"

abbrev pub network_policy : NodeType
network_policy = codes "networkPolicy"

pub record NodeInstance : Type 0 where
  pub name : Text
  pub weight : ℤ

pub data NodeState : Type 0 where
  -- `unset` is the zero value, the empty string.
  unset pending running completed failed skipped : NodeState

pub record Node : Type 0 where
  pub id : Text
  pub type : NodeType
  pub component : Text
  pub name : Text
  pub inputs : Dict Value
  pub outputs : Dict Value
  pub depends_on : List Text
  pub depended_on_by : List Text
  pub state : NodeState
  pub node_instance : Option NodeInstance
  pub instances : List NodeInstance

-- `fmt.Sprintf("%s/%s/%s", component, nodeType, name)`
unfoldable pub node_id : Text → NodeType → Text → Text
node_id component type name = component ++ b'/' ∷ (type ++ b'/' ∷ name)

unfoldable pub new_node : NodeType → Text → Text → Node
new_node type component name = record {
  id = node_id component type name;
  type = type;
  component = component;
  name = name;
  inputs = [];
  outputs = [];
  depends_on = [];
  depended_on_by = [];
  state = pending;
  node_instance = none;
  instances = [];
}

unfoldable pub new_instance_node : NodeType → Text → Text → ℤ → Text → Node
new_instance_node type component instance_name weight name = record {
  id = component ++ b'/' ∷ node_id instance_name type name;
  type = type;
  component = component;
  name = name;
  inputs = [];
  outputs = [];
  depends_on = [];
  depended_on_by = [];
  state = pending;
  node_instance = some (record { name = instance_name; weight = weight });
  instances = [];
}

unfoldable pub is_per_instance_type : NodeType → Bool
is_per_instance_type t =
    any (same t) (deployment ∷ function ∷ service ∷ cronjob ∷ docker_build ∷ port ∷ [])

unfoldable pub is_workload_type : NodeType → Bool
is_workload_type t = any (same t) (deployment ∷ function ∷ cronjob ∷ task ∷ [])

unfoldable pub is_shared_type : NodeType → Bool
is_shared_type t = not (is_per_instance_type t)

-- The loop of `AddDependency` and `AddDependent`: append unless it is there.
unfoldable pub append_new : Text → List Text → List Text
append_new id ids = if any (same id) ids then ids else ids ++ id ∷ []

unfoldable pub add_dependency : Node → Text → Node
add_dependency n id = record n { depends_on = append_new id n.depends_on }

unfoldable pub add_dependent : Node → Text → Node
add_dependent n id = record n { depended_on_by = append_new id n.depended_on_by }

unfoldable pub set_input : Node → Text → Value → Node
set_input n key value = record n { inputs = put n.inputs key value }

unfoldable pub set_output : Node → Text → Value → Node
set_output n key value = record n { outputs = put n.outputs key value }

pub record Graph : Type 0 where
  pub nodes : Dict Node
  pub environment : Text
  pub datacenter : Text
  pub component_dependencies : Dict (List Text)
  pub optional_dependencies : Dict (Dict Bool)
  pub component_output_exprs : Dict (Dict Text)
  pub dependency_targets : Dict (Dict Text)

unfoldable pub new_graph : Text → Text → Graph
new_graph environment datacenter = record {
  nodes = [];
  environment = environment;
  datacenter = datacenter;
  component_dependencies = [];
  optional_dependencies = [];
  component_output_exprs = [];
  dependency_targets = [];
}

-- The errors of this package. `nil_node` stands for the panic on a nil node, and `out_of_fuel`
-- for a loop that does not end.
pub data GraphError : Type 0 where
  node_exists : Text → GraphError
  dependent_not_found : Text → GraphError
  dependency_not_found : Text → GraphError
  dependency_cycle : List Text → List (Text × List Text) → GraphError
  nil_node : Text → GraphError
  out_of_fuel : GraphError

unfoldable pub add_node : Graph → Node → Result GraphError Graph
add_node g node =
    if has g.nodes node.id
    then err (node_exists node.id)
    else ok (record g { nodes = put g.nodes node.id node })

unfoldable pub get_node : Graph → Text → Option Node
get_node g id = get g.nodes id

-- What the two calls on pointers in `AddEdge` do to the map of nodes.
unfoldable pub link : Dict Node → Text → Text → Node → Node → Dict Node
link nodes dependent_id dependency_id dependent dependency =
    if same dependent_id dependency_id
    then put nodes dependent_id
        (add_dependent (add_dependency dependent dependency_id) dependent_id)
    else put (put nodes dependent_id (add_dependency dependent dependency_id)) dependency_id
        (add_dependent dependency dependent_id)

unfoldable pub add_edge : Graph → Text → Text → Result GraphError Graph
unfolding get_node link
add_edge g dependent_id dependency_id = elim (get_node g dependent_id) [
  | none ↦ err (dependent_not_found dependent_id)
  | some dependent ↦ elim (get_node g dependency_id) [
    | none ↦ err (dependency_not_found dependency_id)
    | some dependency ↦
        ok (record g { nodes = link g.nodes dependent_id dependency_id dependent dependency })
  ]
]

is_pending : NodeState → Bool
is_pending pending = true
is_pending _ = false

unfoldable pub is_completed : NodeState → Bool
is_completed completed = true
is_completed _ = false

is_failed : NodeState → Bool
is_failed failed = true
is_failed _ = false

is_skipped : NodeState → Bool
is_skipped skipped = true
is_skipped _ = false

dependency_completed : Graph → Text → Bool
unfolding is_completed
dependency_completed g id = elim (get_node g id) [
  | none ↦ false
  | some dep ↦ is_completed dep.state
]

unfoldable pub is_ready : Node → Graph → Bool
unfolding is_pending dependency_completed
is_ready n g = is_pending n.state && all (dependency_completed g) n.depends_on

-- The nodes in the order of a `range` loop.
unfoldable pub values : Dict Node → List Node
values [] = []
values ((id, n) ∷ m) = n ∷ values m

unfoldable pub get_ready_nodes : Graph → List Node
get_ready_nodes g = keep (λ n. is_ready n g) (values g.nodes)

unfoldable pub get_nodes_by_type : Graph → NodeType → List Node
get_nodes_by_type g t = keep (λ n. same n.type t) (values g.nodes)

unfoldable pub get_nodes_by_component : Graph → Text → List Node
get_nodes_by_component g c = keep (λ n. same n.component c) (values g.nodes)

unfoldable pub all_completed : Graph → Bool
unfolding is_completed is_skipped
all_completed g = all (λ n. is_completed n.state || is_skipped n.state) (values g.nodes)

unfoldable pub has_failed : Graph → Bool
unfolding is_failed
has_failed g = any (λ n. is_failed n.state) (values g.nodes)
