-- ===== src/Redeploy.antt =====
-- pkg/engine/planner/planner.go against pkg/engine/executor/executor.go: the planner looks stored
-- resources up by `component/type/name`, and the executor stores them by `type.name` in a component.
pub mod Keeps
pub mod Changes
pub mod Runs
pub mod Twice
use cldctl.Prelude.{
  All, Bool-cases, List, Option-cases, [], any, ap, arith, false, inl, inr, length, map, none, refl,
  some, sym, ◌++◌, ◌∙◌, ◌∷◌, ◌≡◌, ◌≢◌, ◌+◌, ◌≤◌, suc,
}
use cldctl.Types.{ComponentState, ResourceState, EnvironmentState}
use cldctl.Dict.{Dict, get, keys, put}
use cldctl.Graph.{Node, node_id, Graph}
use cldctl.Planner.{
  PlanOptions, add_components, add_resources, create, plan_node_change, state_key, ResourceChange,
  deletion, first_some, Plan, existing_resources, plan,
}
use cldctl.Text.{Text, same, same_iff}
use cldctl.Graph.Topo.{ids, topological_sort}
use cldctl.Planner.Counts.{
  is_create, tally, deletions, is_delete, is_noop, is_update, plan_lem, tally-append,
}
use mathlib.Core.Path.{subst}
use cldctl.Prelude.Results.{ok}
use cldctl.Planner.Range.{All-range, IsRange}

-- Neither `/` nor `.`, as in every constant of `NodeType`.
abbrev pub IsPlain : Text → Type 0
IsPlain [] = Unit
IsPlain (c ∷ cs) = (c ≢ b'/') × (c ≢ b'.') × IsPlain cs

abbrev pub HasNoSlash : Text → Type 0
HasNoSlash [] = Unit
HasNoSlash (c ∷ cs) = (c ≢ b'/') × HasNoSlash cs

-- A key that the executor writes: the component, and in it a resource key.
pub record IsRecordedKey (key : Text) : Type 0 where
  pub component : Text
  pub type : Text
  pub name : Text
  pub no_slash : HasNoSlash component
  pub plain : IsPlain type
  pub shape : key ≡ state_key component (type ++ b'.' ∷ name)

-- An ID of `NewNode` or `NewInstanceNode`: behind the component stands the type or the instance.
pub record IsNodeKey (key : Text) : Type 0 where
  pub component : Text
  pub first : Text
  pub rest : Text
  pub no_slash : HasNoSlash component
  pub plain : IsPlain first
  pub shape : key ≡ state_key component (first ++ b'/' ∷ rest)

cut_slash : (c d r s : Text) → HasNoSlash c → HasNoSlash d → state_key c r ≡ state_key d s → r ≡ s
cut_slash [] [] r s hc hd e = ground arith
cut_slash [] (x ∷ d) r s hc hd e = absurd (ground arith)
cut_slash (x ∷ c) [] r s hc hd e = absurd (ground arith)
cut_slash (x ∷ c) (y ∷ d) r s hc hd e = cut_slash c d r s hc.1 hd.1 (ground arith)

slash_ne_dot : (t u r s : Text) → IsPlain t → IsPlain u → t ++ b'/' ∷ r ≢ u ++ b'.' ∷ s
slash_ne_dot [] [] r s ht hu e = ground arith
slash_ne_dot [] (y ∷ u) r s ht hu e = ground arith
slash_ne_dot (x ∷ t) [] r s ht hu e = ground arith
slash_ne_dot (x ∷ t) (y ∷ u) r s ht hu e = slash_ne_dot t u r s ht.2 hu.2 (ground arith)

node_key_ne_recorded : (k j : Text) → IsNodeKey k → IsRecordedKey j → k ≢ j
node_key_ne_recorded k j n r e =
    slash_ne_dot n.first r.type n.rest r.name n.plain r.plain
      (cut_slash n.component r.component _ _ n.no_slash r.no_slash (sym n.shape ∙ e ∙ r.shape))

-- Each component's name has no slash, and its resources stand under resource keys.
abbrev pub IsResourceKey : Text → Type 0
IsResourceKey key = (type : Text) × (name : Text) × IsPlain type × (key ≡ type ++ b'.' ∷ name)

abbrev pub IsRecorded : Dict ComponentState → Type 0
IsRecorded [] = Unit
IsRecorded ((name, comp) ∷ components) =
    HasNoSlash name × All IsResourceKey (keys comp.resources) × IsRecorded components

module _ {ℓ} {V : Type ℓ} (P : Text → Type 0) where
  pub All-keys-put :
      (m : Dict V) (k : Text) (v : V) → P k → All P (keys m) → All P (keys (put m k v))
  unfolding keys put
  All-keys-put [] k v p h = (p, tt)
  All-keys-put ((j, w) ∷ m) k v p h = elim (Bool-cases (same j k)) [
    | inl here ↦ rw here h
    | inr away ↦ rw away (h.0, All-keys-put m k v p h.1)
  ]

  pub All-keys-get : (m : Dict V) (k : Text) (v : V) → get m k ≡ some v → All P (keys m) → P k
  unfolding keys get
  All-keys-get [] k v e h = cc
  All-keys-get ((j, w) ∷ m) k v e h = elim (Bool-cases (same j k)) [
    | inl here ↦ subst P ((same_iff j k).0 here) h.0
    | inr away ↦ All-keys-get m k v (ground (arith, e)) h.1
  ]

add_resources-recorded :
    (component : Text) (resources existing : Dict ResourceState)
    → HasNoSlash component
    → All IsResourceKey (keys resources)
    → All IsRecordedKey (keys existing)
    → All IsRecordedKey (keys (add_resources component resources existing))
unfolding add_resources keys
add_resources-recorded component [] existing c r h = h
add_resources-recorded component ((name, res) ∷ resources) existing c r h =
    let (type, short, plain, shape) = r.0 in
    add_resources-recorded component resources (put existing (state_key component name) res) c r.1 (
      All-keys-put IsRecordedKey existing (state_key component name) res
        (record {
          component = component;
          type = type;
          name = short;
          no_slash = c;
          plain = plain;
          shape = ap (state_key component) shape;
        })
        h)

add_components-recorded :
    (components : Dict ComponentState) (existing : Dict ResourceState)
    → IsRecorded components
    → All IsRecordedKey (keys existing)
    → All IsRecordedKey (keys (add_components components existing))
unfolding add_components
add_components-recorded [] existing r h = h
add_components-recorded ((name, comp) ∷ components) existing r h =
    add_components-recorded components (add_resources name comp.resources existing) r.2
      (add_resources-recorded name comp.resources existing r.0 r.1 h)

get-node_key :
    (existing : Dict ResourceState) (k : Text)
    → All IsRecordedKey (keys existing)
    → IsNodeKey k
    → get existing k ≡ none
get-node_key existing k recorded n = elim (Option-cases (get existing k)) [
  | inl absent ↦ absent
  | inr (res, there) ↦
      absurd
        (node_key_ne_recorded k k n (All-keys-get IsRecordedKey existing k res there recorded) refl)
]

-- The two keys that the planner tries for a node.
pub record IsPlanned (node : Node) : Type 0 where
  pub long : IsNodeKey (node_id node.component node.type node.name)
  pub own : IsNodeKey node.id

plan_node_change-creates :
    (options : PlanOptions) (node : Node) (existing : Dict ResourceState)
    → All IsRecordedKey (keys existing)
    → IsPlanned node
    → (plan_node_change options node existing).action ≡ create
unfolding plan_node_change first_some
plan_node_change-creates options node existing recorded p = ground (
  arith,
  get-node_key existing (node_id node.component node.type node.name) recorded p.long,
  get-node_key existing node.id recorded p.own,
)

tally-creates :
    (options : PlanOptions) (existing : Dict ResourceState) (nodes : List Node)
    → All IsRecordedKey (keys existing)
    → All IsPlanned nodes
    → tally is_create (map (λ n. plan_node_change options n existing) nodes) ≡ length nodes
unfolding tally
tally-creates options existing [] r h = refl
tally-creates options existing (n ∷ nodes) r h = ground (
  arith,
  plan_node_change-creates options n existing r h.0,
  tally-creates options existing nodes r h.1,
)

not_processed :
    (key : Text) (nodes : List Node)
    → IsRecordedKey key
    → All IsPlanned nodes
    → any (same key) (ids nodes) ≡ false
unfolding any
not_processed key [] r h = refl
not_processed key (n ∷ nodes) r h = ground (
  arith,
  node_key_ne_recorded n.id key h.0.own r,
  same_iff key n.id,
  not_processed key nodes r h.1,
)

length-deletions :
    (nodes : List Node) (existing : Dict ResourceState)
    → All IsRecordedKey (keys existing)
    → All IsPlanned nodes
    → tally is_delete (deletions (ids nodes) existing) ≡ length existing
unfolding deletions deletion keys tally
length-deletions nodes [] r h = refl
length-deletions nodes ((key, res) ∷ existing) r h =
    ground (arith, not_processed key nodes r.0 h, length-deletions nodes existing r.1 h)

tally_total :
    (cs : List ResourceChange)
    → tally is_create cs + tally is_update cs + tally is_delete cs + tally is_noop cs ≡ length cs
unfolding tally
tally_total [] = refl
tally_total (c ∷ cs) = ground (arith, tally_total cs)

length-deletions-le :
    (processed : List Text) (existing : Dict ResourceState)
    → length (deletions processed existing) ≤ length existing
unfolding deletions
length-deletions-le processed [] = omega arith
length-deletions-le processed ((key, res) ∷ existing) =
    ground (arith, length-deletions-le processed existing)

length-map {ℓ κ} :
    {A : Type ℓ} {B : Type κ} (f : A → B) (xs : List A) → length (map f xs) ≡ length xs
length-map f [] = refl
length-map f (x ∷ xs) = ap suc (length-map f xs)

-- Where the state holds its shared resources under the keys that the executor writes, in components
-- with no slash in their names, and the graph's node IDs have the form of `NewNode` or
-- `NewInstanceNode` with such names, a plan never finds the resources: it creates every node of the
-- graph, deletes every stored resource, updates nothing and finds nothing up to date. The loop over the
-- stored resources may take any order, but meets each of them once.
pub redeploy-recreates :
    (range : Dict ResourceState → Dict ResourceState) (options : PlanOptions) (g : Graph)
    (env : EnvironmentState) (sorted : List Node) (p : Plan)
    → IsRange range
    → (topological_sort g).1 ≡ ok sorted
    → (plan range options g (some env)).1 ≡ ok p
    → IsRecorded env.components
    → All IsPlanned sorted
    → (p.to_create ≡ length sorted)
      × (p.to_delete ≡ length (existing_resources (some env)))
      × (p.to_update ≡ 0)
      × (p.no_change ≡ 0)
unfolding existing_resources keys
redeploy-recreates range options g env sorted p ranged e h recorded planned =
    let existing = existing_resources (some env) in
    let stored : All IsRecordedKey (keys existing) =
      add_components-recorded env.components [] recorded tt in
    let (changes, counted) = plan_lem range options g (some env) sorted p e h in
    let made = map (λ n. plan_node_change options n existing) sorted in
    let gone = deletions (ids sorted) (range existing) in
    omega (
      arith,
      counted,
      ap (tally is_create) changes,
      ap (tally is_update) changes,
      ap (tally is_delete) changes,
      ap (tally is_noop) changes,
      tally-append is_create made gone,
      tally-append is_update made gone,
      tally-append is_delete made gone,
      tally-append is_noop made gone,
      tally_total made,
      tally_total gone,
      length-map (λ n. plan_node_change options n existing) sorted,
      length-deletions-le (ids sorted) (range existing),
      tally-creates options existing sorted stored planned,
      length-deletions sorted (range existing)
          (All-range IsRecordedKey range existing ranged stored) planned,
      ranged.as_long existing,
    )
