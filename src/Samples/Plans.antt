-- ===== src/Samples/Plans.antt =====
-- Witnesses on plans: the deployment and its database against no state and against a stored one.
use cldctl.Types.{
  ComponentState, EnvironmentState, ResourceState, ResourceStatus, EnvironmentStatus,
}
use cldctl.Graph.{
  Graph, Node, database, add_dependency, add_dependent, deployment, new_node, node_id,
}
use cldctl.Prelude.{
  List, Option, [], false, pos, ◌∷◌, ◌≡◌, All, arith, keep, length, map, refl, some, ◌++◌,
}
use cldctl.Planner.{
  PlanOptions, plan, plan_sorted, Plan, destroy_nodes, empty_plan, existing_resources, plan_destroy,
  plan_node_change,
}
use cldctl.Samples.Sorting.{api', main', needs_main-reversed, needs_main-sorted}
use cldctl.Text.{codes, Text}
use cldctl.Value.{int, Value, str}
use cldctl.Samples.{main, web, api, needs_main}
use cldctl.Prelude.Results.{ok}
use cldctl.Graph.Topo.{topological_sort, ids}
use cldctl.Dict.{Dict, keys}
use cldctl.Redeploy.{HasNoSlash, IsNodeKey, IsPlain, IsPlanned, IsRecorded, redeploy-recreates}
use cldctl.Planner.Counts.{IsCounted, deletions, plan_lem}
use cldctl.Planner.Destroy.{IsDestruction, change_nodes, is_destroyed, plan_destroy_lem}
use cldctl.Planner.Range.{IsRange}

abbrev pub options : PlanOptions
options = record { force_update = false }

abbrev pub stored_order : Dict ResourceState → Dict ResourceState
stored_order d = d

pub stored_order-IsRange : IsRange stored_order
stored_order-IsRange = record { as_long = λ d. refl; same_keys = λ d k. refl }

abbrev pub sorted : List Node
sorted = main' ∷ api' ∷ []

pub plan_of_sort :
    (range : Dict ResourceState → Dict ResourceState) (options : PlanOptions) (g : Graph)
    (current_state : Option EnvironmentState) (sorted : List Node)
    → (topological_sort g).1 ≡ ok sorted
    → (plan range options g current_state).1 ≡ ok (plan_sorted range options g current_state sorted)
unfolding plan
plan_of_sort range options g current_state sorted e = rw e

-- `main` is stored as the executor stores it.
abbrev stored_main : ResourceState
stored_main = record {
  name = codes "main";
  type = database;
  component = web;
  hook = [];
  module_name = [];
  inputs = [];
  outputs = [];
  iac_state = [];
  module_states = [];
  status = ResourceStatus.ready;
  status_reason = [];
}

abbrev pub stored_web : ComponentState
stored_web = record {
  name = web;
  version = [];
  source = [];
  status = ResourceStatus.ready;
  status_reason = [];
  variables = [];
  dependencies = [];
  outputs = [];
  resources = (codes "database.main", stored_main) ∷ [];
  instances = [];
}

abbrev pub stored_env : EnvironmentState
stored_env = record {
  name = codes "dev";
  datacenter = codes "dc";
  status = EnvironmentStatus.ready;
  status_reason = [];
  variables = [];
  components = (web, stored_web) ∷ [];
  modules = [];
}

plan_lem_example :
    ((plan_sorted stored_order options needs_main (some stored_env) sorted).changes
      ≡ map (λ n. plan_node_change options n (existing_resources (some stored_env))) sorted
        ++ deletions (ids sorted) (stored_order (existing_resources (some stored_env))))
    × IsCounted (plan_sorted stored_order options needs_main (some stored_env) sorted)
plan_lem_example =
    plan_lem stored_order options needs_main (some stored_env) sorted
      (plan_sorted stored_order options needs_main (some stored_env) sorted) needs_main-sorted
      (plan_of_sort stored_order options needs_main (some stored_env) sorted needs_main-sorted)

abbrev destroy_plan : Plan
destroy_plan = destroy_nodes (some stored_env) (api' ∷ main' ∷ []) (empty_plan needs_main)

planned_destroy : (plan_destroy needs_main (some stored_env)).1 ≡ ok destroy_plan
unfolding plan_destroy
planned_destroy = rw needs_main-reversed

plan_destroy_lem_example :
    (change_nodes destroy_plan.changes ≡ keep (is_destroyed (some stored_env)) (api' ∷ main' ∷ []))
    × All (IsDestruction (some stored_env)) destroy_plan.changes
    × (destroy_plan.to_delete ≡ length destroy_plan.changes)
    × (destroy_plan.to_create ≡ 0)
    × (destroy_plan.to_update ≡ 0)
    × (destroy_plan.no_change ≡ 0)
plan_destroy_lem_example =
    plan_destroy_lem needs_main (some stored_env) (api' ∷ main' ∷ []) destroy_plan
      needs_main-reversed planned_destroy

pub web-HasNoSlash : HasNoSlash web
web-HasNoSlash = ground arith

pub database-IsPlain : IsPlain database
database-IsPlain = ground arith

stored_env-IsRecorded : IsRecorded stored_env.components
unfolding keys
stored_env-IsRecorded = (web-HasNoSlash, ((database, codes "main", database-IsPlain, refl), tt), tt)

main-IsNodeKey : IsNodeKey main.id
unfolding new_node node_id
main-IsNodeKey = record {
  component = web;
  first = database;
  rest = codes "main";
  no_slash = web-HasNoSlash;
  plain = database-IsPlain;
  shape = refl;
}

api-IsNodeKey : IsNodeKey api.id
unfolding new_node node_id
api-IsNodeKey = record {
  component = web;
  first = deployment;
  rest = codes "api";
  no_slash = web-HasNoSlash;
  plain = ground arith;
  shape = refl;
}

pub sorted-IsPlanned : All IsPlanned sorted
unfolding new_node add_dependency add_dependent
sorted-IsPlanned = (
  record { long = main-IsNodeKey; own = main-IsNodeKey },
  (record { long = api-IsNodeKey; own = api-IsNodeKey }, tt),
)

redeploy-recreates_example :
    ((plan_sorted stored_order options needs_main (some stored_env) sorted).to_create
      ≡ length sorted)
    × ((plan_sorted stored_order options needs_main (some stored_env) sorted).to_delete
        ≡ length (existing_resources (some stored_env)))
    × ((plan_sorted stored_order options needs_main (some stored_env) sorted).to_update ≡ 0)
    × ((plan_sorted stored_order options needs_main (some stored_env) sorted).no_change ≡ 0)
redeploy-recreates_example =
    redeploy-recreates stored_order options needs_main stored_env sorted
      (plan_sorted stored_order options needs_main (some stored_env) sorted) stored_order-IsRange
      needs_main-sorted
      (plan_of_sort stored_order options needs_main (some stored_env) sorted needs_main-sorted)
      stored_env-IsRecorded sorted-IsPlanned

-- A port as a number and as a text: they print alike.
abbrev desired : Dict Value
desired = (codes "port", int (pos 80)) ∷ []

abbrev current : Dict Value
current = (codes "port", str (codes "80")) ∷ []
