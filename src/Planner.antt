-- ===== src/Planner.antt =====
-- pkg/engine/planner/planner.go: the plan that takes the stored state of an environment to the graph.
pub mod Inputs
pub mod Counts
pub mod Range
pub mod Destroy
use cldctl.Prelude.{
  Bool, List, Option, [], any, false, if◌then◌else◌, none, some, true, ℕ, ◌&&◌, ◌++◌, ◌+◌, ◌==◌,
  ◌∷◌, ◌||◌,
}
use cldctl.Types.{ComponentState, EnvironmentState, ResourceState}
use cldctl.Dict.{Dict, get, has, put}
use cldctl.Graph.{Graph, GraphError, Node, node_id, task, unset}
use cldctl.Prelude.Results.{Result, ok, ◌>>=◌}
use cldctl.Text.{Text, codes, same}
use cldctl.Value.{Value, null, sprint}
use cldctl.Graph.Topo.{ids, reverse_topological_sort, topological_sort}

pub data Action : Type 0 where
  create update replace delete noop : Action

pub record PropertyChange : Type 0 where
  pub path : Text
  pub old_value : Value
  pub new_value : Value

pub record ResourceChange : Type 0 where
  pub node : Node
  pub action : Action
  pub current_state : Option ResourceState
  pub reason : Text
  pub property_changes : List PropertyChange

pub record Plan : Type 0 where
  pub environment : Text
  pub datacenter : Text
  pub changes : List ResourceChange
  pub to_create : ℕ
  pub to_update : ℕ
  pub to_delete : ℕ
  pub no_change : ℕ

unfoldable pub is_empty : Plan → Bool
is_empty p = p.to_create == 0 && p.to_update == 0 && p.to_delete == 0

pub record PlanOptions : Type 0 where
  pub force_update : Bool

-- `v == nil`
is_nil : Value → Bool
is_nil null = true
is_nil _ = false

-- Two values are compared as they are printed, but for nil.
unfoldable pub deep_equal : Value → Value → Bool
unfolding is_nil
deep_equal a b =
    if is_nil a && is_nil b
    then true
    else (if is_nil a || is_nil b then false else same (sprint a) (sprint b))

-- The first loop of `CompareInputs`: new and changed values.
unfoldable pub new_or_changed : Dict Value → Dict Value → List PropertyChange
new_or_changed [] current = []
new_or_changed ((key, desired_val) ∷ desired) current =
    let rest = new_or_changed desired current in
    elim (get current key) [
      | none ↦ record { path = key; old_value = null; new_value = desired_val } ∷ rest
      | some current_val ↦
          if deep_equal desired_val current_val
          then rest
          else record { path = key; old_value = current_val; new_value = desired_val } ∷ rest
    ]

-- The second loop: removed values.
unfoldable pub removed_values : Dict Value → Dict Value → List PropertyChange
removed_values desired [] = []
removed_values desired ((key, current_val) ∷ current) =
    let rest = removed_values desired current in
    if has desired key
    then rest
    else record { path = key; old_value = current_val; new_value = null } ∷ rest

unfoldable pub compare_inputs : Dict Value → Dict Value → List PropertyChange
unfolding new_or_changed removed_values deep_equal
compare_inputs desired current = new_or_changed desired current ++ removed_values desired current

-- `compName + "/" + resName`
abbrev pub state_key : Text → Text → Text
state_key component resource = component ++ b'/' ∷ resource

unfoldable pub add_resources : Text → Dict ResourceState → Dict ResourceState → Dict ResourceState
add_resources component [] existing = existing
add_resources component ((name, res) ∷ resources) existing =
    add_resources component resources (put existing (state_key component name) res)

unfoldable pub add_components : Dict ComponentState → Dict ResourceState → Dict ResourceState
unfolding add_resources
add_components [] existing = existing
add_components ((name, comp) ∷ components) existing =
    add_components components (add_resources name comp.resources existing)

-- A nil state has no resources.
unfoldable pub existing_resources : Option EnvironmentState → Dict ResourceState
unfolding add_components
existing_resources none = []
existing_resources (some env) = add_components env.components []

unfoldable pub first_some {ℓ} : {A : Type ℓ} → Option A → Option A → Option A
first_some none b = b
first_some (some a) b = some a

-- `component/type/name`, and then the node's own ID.
unfoldable pub find_existing : Node → Dict ResourceState → Option ResourceState
unfolding node_id first_some
find_existing node existing =
    first_some (get existing (node_id node.component node.type node.name)) (get existing node.id)

unfoldable pub plan_node_change : PlanOptions → Node → Dict ResourceState → ResourceChange
unfolding find_existing compare_inputs
plan_node_change options node existing = elim (find_existing node existing) [
  | none ↦ record {
    node = node;
    action = create;
    current_state = none;
    reason = codes "resource does not exist";
    property_changes = [];
  }
  | some res ↦ elim (compare_inputs node.inputs res.inputs) [
    | c ∷ cs ↦ record {
      node = node;
      action = update;
      current_state = some res;
      reason = codes "resource configuration changed";
      property_changes = c ∷ cs;
    }
    | [] ↦
        if options.force_update
        then record {
          node = node;
          action = update;
          current_state = some res;
          reason = codes "force update (datacenter configuration changed)";
          property_changes = [];
        }
        else record {
          node = node;
          action = noop;
          current_state = some res;
          reason = codes "resource is up to date";
          property_changes = [];
        }
  ]
]

-- One change is appended, and counted by its action.
unfoldable pub count_change : Plan → ResourceChange → Plan
count_change p c = elim c.action [
  | create ↦ record p { changes = p.changes ++ c ∷ []; to_create = p.to_create + 1 }
  | update ↦ record p { changes = p.changes ++ c ∷ []; to_update = p.to_update + 1 }
  | replace ↦ record p { changes = p.changes ++ c ∷ []; to_update = p.to_update + 1 }
  | delete ↦ record p { changes = p.changes ++ c ∷ []; to_delete = p.to_delete + 1 }
  | noop ↦ record p { changes = p.changes ++ c ∷ []; no_change = p.no_change + 1 }
]

unfoldable pub plan_nodes : PlanOptions → Dict ResourceState → List Node → Plan → Plan
unfolding plan_node_change count_change
plan_nodes options existing [] p = p
plan_nodes options existing (node ∷ nodes) p =
    plan_nodes options existing nodes (count_change p (plan_node_change options node existing))

-- A resource that is stored and is not in the graph.
unfoldable pub deletion : Text → ResourceState → ResourceChange
deletion key res = record {
  node = record {
    id = key;
    type = [];
    component = res.component;
    name = res.name;
    inputs = [];
    outputs = [];
    depends_on = [];
    depended_on_by = [];
    state = unset;
    node_instance = none;
    instances = [];
  };
  action = delete;
  current_state = some res;
  reason = codes "resource no longer defined";
  property_changes = [];
}

unfoldable pub plan_deletions : List Text → Dict ResourceState → Plan → Plan
unfolding deletion count_change
plan_deletions processed [] p = p
plan_deletions processed ((key, res) ∷ existing) p =
    plan_deletions processed existing
      (if any (same key) processed then p else count_change p (deletion key res))

abbrev pub empty_plan : Graph → Plan
empty_plan g = record {
  environment = g.environment;
  datacenter = g.datacenter;
  changes = [];
  to_create = 0;
  to_update = 0;
  to_delete = 0;
  no_change = 0;
}

-- `range` puts the entries of a map in the order in which a Go loop ranges over it.
module _ (range : Dict ResourceState → Dict ResourceState) (options : PlanOptions) (g : Graph)
    (current_state : Option EnvironmentState) where
  -- `Plan`, from the sorted nodes on.
  unfoldable pub plan_sorted : List Node → Plan
  unfolding existing_resources plan_nodes plan_deletions
  plan_sorted sorted =
      let existing = existing_resources current_state in
      plan_deletions (ids sorted) (range existing)
        (plan_nodes options existing sorted (empty_plan g))

  unfoldable pub plan : Graph × Result GraphError Plan
  unfolding topological_sort plan_sorted
  plan = let (g', sorted) = topological_sort g in (g', sorted >>= λ nodes. ok (plan_sorted nodes))

unfoldable pub stored_resource : Option EnvironmentState → Node → Option ResourceState
stored_resource none node = none
stored_resource (some env) node = elim (get env.components node.component) [
  | none ↦ none
  | some comp ↦ get comp.resources node.name
]

abbrev pub destruction : Node → ResourceState → ResourceChange
destruction node res = record {
  node = node;
  action = delete;
  current_state = some res;
  reason = codes "destroying environment";
  property_changes = [];
}

unfoldable pub destroy_node : Option EnvironmentState → Plan → Node → Plan
unfolding stored_resource count_change
destroy_node current_state p node =
    if same node.type task then p else elim (stored_resource current_state node) [
      | none ↦ p
      | some res ↦ count_change p (destruction node res)
    ]

unfoldable pub destroy_nodes : Option EnvironmentState → List Node → Plan → Plan
unfolding destroy_node
destroy_nodes current_state [] p = p
destroy_nodes current_state (node ∷ nodes) p =
    destroy_nodes current_state nodes (destroy_node current_state p node)

unfoldable pub plan_destroy : Graph → Option EnvironmentState → Graph × Result GraphError Plan
unfolding reverse_topological_sort destroy_nodes
plan_destroy g current_state =
    let (g', sorted) = reverse_topological_sort g in
    (g', sorted >>= λ nodes. ok (destroy_nodes current_state nodes (empty_plan g)))

format_lines : List PropertyChange → Text
format_lines [] = []
format_lines (c ∷ cs) =
    codes "  "
    ++ (c.path
        ++ (codes ": "
            ++ (sprint c.old_value
                ++ (codes " -> " ++ (sprint c.new_value ++ 10 ∷ format_lines cs)))))

unfoldable pub format_changes : List PropertyChange → Text
unfolding format_lines sprint
format_changes [] = codes "no changes"
format_changes (c ∷ cs) = format_lines (c ∷ cs)
