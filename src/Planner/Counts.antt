-- ===== src/Planner/Counts.antt =====
-- pkg/engine/planner/planner.go, `Plan`: the changes, their order and their counts.
use cldctl.Planner.{
  Action, Plan, PlanOptions, ResourceChange, count_change, create, delete, deletion, empty_plan,
  existing_resources, noop, plan, plan_deletions, plan_node_change, plan_nodes, plan_sorted,
  replace, update,
}
use cldctl.Prelude.{
  Bool, Bool-cases, List, Option, [], any, append-nil, append_assoc, arith, false, if◌then◌else◌,
  inl, inr, map, refl, true, ℕ, ◌++◌, ◌+◌, ◌∙◌, ◌∷◌, ◌≡◌,
}
use cldctl.Dict.{Dict}
use cldctl.Types.{EnvironmentState, ResourceState}
use cldctl.Graph.{Graph, Node}
use cldctl.Text.{Text, same}
use cldctl.Graph.Topo.{ids, topological_sort}
use cldctl.Prelude.Results.{ok}
use mathlib.Core.Path.{subst}

-- How many changes have such an action.
unfoldable pub tally : (Action → Bool) → List ResourceChange → ℕ
tally p [] = 0
tally p (c ∷ cs) = (if p c.action then 1 else 0) + tally p cs

abbrev pub is_create : Action → Bool
is_create create = true
is_create _ = false

abbrev pub is_update : Action → Bool
is_update update = true
is_update replace = true
is_update _ = false

abbrev pub is_delete : Action → Bool
is_delete delete = true
is_delete _ = false

abbrev pub is_noop : Action → Bool
is_noop noop = true
is_noop _ = false

-- The summary of a plan is right.
pub record IsCounted (p : Plan) : Type 0 where
  pub creates : p.to_create ≡ tally is_create p.changes
  pub updates : p.to_update ≡ tally is_update p.changes
  pub deletes : p.to_delete ≡ tally is_delete p.changes
  pub noops : p.no_change ≡ tally is_noop p.changes

pub tally-append :
    (p : Action → Bool) (xs ys : List ResourceChange) → tally p (xs ++ ys) ≡ tally p xs + tally p ys
unfolding tally
tally-append p [] ys = omega arith
tally-append p (x ∷ xs) ys = omega (arith, tally-append p xs ys)

changes-count_change :
    (p : Plan) (c : ResourceChange) → (count_change p c).changes ≡ p.changes ++ c ∷ []
unfolding count_change
changes-count_change p c = ground arith

count_change-IsCounted :
    (p : Plan) (c : ResourceChange) → IsCounted p → IsCounted (count_change p c)
unfolding count_change tally
count_change-IsCounted p c h = ground (
  arith,
  tally-append is_create p.changes (c ∷ []),
  tally-append is_update p.changes (c ∷ []),
  tally-append is_delete p.changes (c ∷ []),
  tally-append is_noop p.changes (c ∷ []),
)

-- What stands before, with more changes behind it, and still counted.
record IsExtended (p : Plan) (more : List ResourceChange) (q : Plan) : Type 0 where
  changes : q.changes ≡ p.changes ++ more
  counted : IsCounted p → IsCounted q

module _ (options : PlanOptions) (existing : Dict ResourceState) where
  plan_nodes-IsExtended :
      (nodes : List Node) (p : Plan)
      → IsExtended p
          (map (λ n. plan_node_change options n existing) nodes)
          (plan_nodes options existing nodes p)
  unfolding plan_nodes
  plan_nodes-IsExtended [] p = record { changes = rw append-nil; counted = λ h. h }
  plan_nodes-IsExtended (n ∷ nodes) p =
      let c = plan_node_change options n existing in
      let r = plan_nodes-IsExtended nodes (count_change p c) in
      record {
        changes = r.changes ∙ rw (changes-count_change p c, append_assoc);
        counted = λ h. r.counted (count_change-IsCounted p c h);
      }

-- The deletions that are due: of the stored resources under keys that are no processed ID.
unfoldable pub deletions : List Text → Dict ResourceState → List ResourceChange
deletions processed [] = []
deletions processed ((key, res) ∷ existing) =
    let rest = deletions processed existing in
    if any (same key) processed then rest else deletion key res ∷ rest

plan_deletions-IsExtended :
    (processed : List Text) (existing : Dict ResourceState) (p : Plan)
    → IsExtended p (deletions processed existing) (plan_deletions processed existing p)
unfolding plan_deletions deletions
plan_deletions-IsExtended processed [] p = record { changes = rw append-nil; counted = λ h. h }
plan_deletions-IsExtended processed ((key, res) ∷ existing) p =
    elim (Bool-cases (any (same key) processed)) [
      | inl kept ↦ rw kept (plan_deletions-IsExtended processed existing p)
      | inr gone ↦
          let c = deletion key res in
          let r = plan_deletions-IsExtended processed existing (count_change p c) in
          rw gone (record {
            changes = r.changes ∙ rw (changes-count_change p c, append_assoc);
            counted = λ h. r.counted (count_change-IsCounted p c h);
          })
    ]

-- If the sort and the plan succeed, the plan consists of one change for each node, in topological
-- order, and behind them one deletion for each stored resource whose key is no node's ID, in the order
-- in which the loop ranges over the map of these, whichever it is; its four counts are those of its
-- changes.
pub plan_lem :
    (range : Dict ResourceState → Dict ResourceState) (options : PlanOptions) (g : Graph)
    (current_state : Option EnvironmentState) (sorted : List Node) (p : Plan)
    → (topological_sort g).1 ≡ ok sorted
    → (plan range options g current_state).1 ≡ ok p
    → (p.changes
        ≡ map (λ n. plan_node_change options n (existing_resources current_state)) sorted
          ++ deletions (ids sorted) (range (existing_resources current_state)))
      × IsCounted p
unfolding plan plan_sorted tally
plan_lem range options g current_state sorted p e h =
    let existing = existing_resources current_state in
    let p₁ = plan_nodes options existing sorted (empty_plan g) in
    let r = plan_nodes-IsExtended options existing sorted (empty_plan g) in
    let s = plan_deletions-IsExtended (ids sorted) (range existing) p₁ in
    let e' : plan_deletions (ids sorted) (range existing) p₁ ≡ p = ground (arith, e, h) in
    (
      rw (← e') (s.changes ∙ rw r.changes),
      subst IsCounted e' (
          s.counted
            (r.counted (record { creates = refl; updates = refl; deletes = refl; noops = refl }))),
    )
