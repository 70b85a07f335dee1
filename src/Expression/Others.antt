-- ===== src/Expression/Others.antt =====
-- pkg/engine/expression/evaluator.go: the values of dependencies and dependents.
use cldctl.Expression.{
  missing, Datum, DependencyOutputs, DependentOutputs, EvalError, Item, RouteOutputs,
  ServiceOutputs, collected, invalid_reference, item, missing_in, no_outputs, route_of, service_of,
  unknown_property, value,
}
use cldctl.Dict.{Dict, get}
use cldctl.Prelude.{List, Option, [], if◌then◌else◌, none, some, ◌++◌, ◌∷◌}
use cldctl.Prelude.Results.{Result, err, ok}
use cldctl.Text.{Text, codes, same}
use cldctl.Value.{Value}
use cldctl.Expression.Resolve.{route_property, service_property}

-- A service or a route of another component, or a property of it.
unfoldable pub service_of_component :
    Text → Dict ServiceOutputs → Text → List Text → Result EvalError Datum
unfolding service_property
service_of_component owner services name rest = elim (get services name) [
  | none ↦ err (missing_in (codes "service") name owner)
  | some s ↦ elim rest [ [] ↦ ok (service_of s) | prop ∷ more ↦ service_property s prop ]
]

unfoldable pub route_of_component :
    Text → Dict RouteOutputs → Text → List Text → Result EvalError Datum
unfolding route_property
route_of_component owner routes name rest = elim (get routes name) [
  | none ↦ err (missing_in (codes "route") name owner)
  | some r ↦ elim rest [ [] ↦ ok (route_of r) | prop ∷ more ↦ route_property r prop ]
]

unfoldable pub output_of_dependency : Text → Option (Dict Value) → Text → Result EvalError Datum
output_of_dependency owner none name = err (no_outputs owner)
output_of_dependency owner (some outputs) name = elim (get outputs name) [
  | none ↦ err (missing_in (codes "output") name owner)
  | some v ↦ ok (value v)
]

unfoldable pub dependency_value :
    Text → DependencyOutputs → Text → List Text → Result EvalError Datum
unfolding service_of_component route_of_component output_of_dependency
dependency_value owner dep type rest =
    if same type (codes "services")
    then elim rest [
      | [] ↦ err (invalid_reference (codes "dependency service"))
      | name ∷ more ↦ service_of_component owner dep.services name more
    ]
    else (if same type (codes "routes")
        then elim rest [
          | [] ↦ err (invalid_reference (codes "dependency route"))
          | name ∷ more ↦ route_of_component owner dep.routes name more
        ]
        else (if same type (codes "outputs")
            then elim rest [
              | [] ↦ err (invalid_reference (codes "dependency output"))
              | name ∷ more ↦ output_of_dependency owner dep.outputs name
            ]
            else err (unknown_property (codes "dependency") type)))

unfoldable pub resolve_dependency : List Text → Dict DependencyOutputs → Result EvalError Datum
unfolding dependency_value
resolve_dependency [] m = err (invalid_reference (codes "dependency"))
resolve_dependency (name ∷ []) m = err (invalid_reference (codes "dependency"))
resolve_dependency (name ∷ type ∷ rest) m = elim (get m name) [
  | none ↦ err (missing (codes "dependency") name)
  | some dep ↦ dependency_value name dep type rest
]

-- A property of each entry of a map; entries without it are passed over.
unfoldable pub collect :
    {A : Type 0} → (A → Text → Result EvalError Datum) → Text → Dict A → List Item
collect f prop [] = []
collect f prop ((name, x) ∷ m) = elim (f x prop) [
  | err e ↦ collect f prop m
  | ok d ↦ elim d [
    | item i ↦ i ∷ collect f prop m
    | value v ↦ collect f prop m
    | service_of s ↦ collect f prop m
    | route_of r ↦ collect f prop m
    | collected is ↦ collect f prop m
  ]
]

-- The entries that a name or `*` stands for.
unfoldable pub matching : {A : Type 0} → Text → Dict A → Dict A
matching name m =
    if same name (codes "*") then m else elim (get m name) [ none ↦ [] | some x ↦ (name, x) ∷ [] ]

unfoldable pub collect_dependents : Text → Text → List Text → Dict DependentOutputs → List Item
unfolding collect matching service_property route_property
collect_dependents type name rest [] = []
collect_dependents type name rest ((owner, dep) ∷ m) =
    let others = collect_dependents type name rest m in
    elim rest [
      | [] ↦ others
      | prop ∷ more ↦
          if same type (codes "routes")
          then collect route_property prop (matching name dep.routes) ++ others
          else (if same type (codes "services")
              then collect service_property prop (matching name dep.services) ++ others
              else others)
    ]

unfoldable pub resolve_wildcard_dependents :
    List Text → Dict DependentOutputs → Result EvalError Datum
unfolding collect_dependents
resolve_wildcard_dependents [] m = err (invalid_reference (codes "wildcard"))
resolve_wildcard_dependents (type ∷ []) m = err (invalid_reference (codes "wildcard"))
resolve_wildcard_dependents (type ∷ name ∷ rest) m =
    ok (collected (collect_dependents type name rest m))

unfoldable pub named_dependent : List Text → Dict DependentOutputs → Result EvalError Datum
unfolding service_of_component route_of_component
named_dependent (name ∷ type ∷ resource ∷ rest) m = elim (get m name) [
  | none ↦ err (missing (codes "dependent") name)
  | some dep ↦
      if same type (codes "services")
      then service_of_component name dep.services resource rest
      else (if same type (codes "routes")
          then route_of_component name dep.routes resource rest
          else err (unknown_property (codes "dependent") type))
]
named_dependent path m = err (invalid_reference (codes "dependents"))

unfoldable pub resolve_dependents : List Text → Dict DependentOutputs → Result EvalError Datum
unfolding resolve_wildcard_dependents named_dependent
resolve_dependents [] m = err (invalid_reference (codes "dependents"))
resolve_dependents (name ∷ rest) m =
    if same name (codes "*")
    then resolve_wildcard_dependents rest m
    else named_dependent (name ∷ rest) m
