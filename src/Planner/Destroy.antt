-- ===== src/Planner/Destroy.antt =====
-- pkg/engine/planner/planner.go, `PlanDestroy`: what a plan to destroy an environment holds.
use cldctl.Prelude.{
  All, Bool, Bool-cases, List, Option, Option-cases, [], append-nil, arith, inl, inr, is_some, keep,
  length, not, refl, ◌&&◌, ◌++◌, ◌+◌, ◌∷◌, ◌≡◌, ap, false, some, sym, true, ◌∙◌, append_assoc,
}
use cldctl.Types.{EnvironmentState, ResourceState}
use cldctl.Graph.{Node, task, Graph}
use cldctl.Planner.{
  Plan, ResourceChange, count_change, delete, destroy_node, destroy_nodes, stored_resource,
  destruction, empty_plan, plan_destroy,
}
use cldctl.Text.{same}
use cldctl.Prelude.Results.{ok}
use cldctl.Graph.Topo.{reverse_topological_sort}

-- The nodes that it destroys: tasks have nothing to tear down.
unfoldable pub is_destroyed : Option EnvironmentState → Node → Bool
is_destroyed current_state node =
    not (same node.type task) && is_some (stored_resource current_state node)

abbrev pub change_nodes : List ResourceChange → List Node
change_nodes [] = []
change_nodes (c ∷ cs) = c.node ∷ change_nodes cs

-- A change that deletes what is stored for its node.
pub record IsDestruction (current_state : Option EnvironmentState) (c : ResourceChange)
    : Type 0 where
  pub deletes : c.action ≡ delete
  pub stored : c.current_state ≡ stored_resource current_state c.node

-- What the loop over the nodes adds to a plan.
record IsDestroying (current_state : Option EnvironmentState) (sorted : List Node) (p q : Plan)
    : Type 0 where
  added : List ResourceChange
  changes : q.changes ≡ p.changes ++ added
  nodes : change_nodes added ≡ keep (is_destroyed current_state) sorted
  sound : All (IsDestruction current_state) added
  deletes : q.to_delete ≡ p.to_delete + length added
  others : (q.to_create ≡ p.to_create) × (q.to_update ≡ p.to_update) × (q.no_change ≡ p.no_change)

skipped :
    (current_state : Option EnvironmentState) (n : Node) (p : Plan)
    → is_destroyed current_state n ≡ false
    → destroy_node current_state p n ≡ p
unfolding destroy_node is_destroyed
skipped current_state n p h = ground (arith, h)

module _ (current_state : Option EnvironmentState) (n : Node) (p : Plan) where
  -- One more change stands at the end of the plan.
  record IsTaken (q : Plan) : Type 0 where
    res : ResourceState
    there : stored_resource current_state n ≡ some res
    now : q ≡ count_change p (destruction n res)

  taken : is_destroyed current_state n ≡ true → IsTaken (destroy_node current_state p n)
  unfolding destroy_node is_destroyed
  taken h = elim (Option-cases (stored_resource current_state n)) [
    | inl absent ↦ absurd (ground (arith, h, absent))
    | inr (res, there) ↦ record { res = res; there = there; now = ground (arith, h, there) }
  ]

destroy_nodes-IsDestroying :
    (current_state : Option EnvironmentState) (sorted : List Node) (p : Plan)
    → IsDestroying current_state sorted p (destroy_nodes current_state sorted p)
unfolding destroy_nodes count_change keep
destroy_nodes-IsDestroying current_state [] p = record {
  added = [];
  changes = rw append-nil;
  nodes = refl;
  sound = tt;
  deletes = omega arith;
  others = (refl, refl, refl);
}
destroy_nodes-IsDestroying current_state (n ∷ ns) p =
    elim (Bool-cases (is_destroyed current_state n)) [
      | inl due ↦
          let t = taken current_state n p due in
          let r =
            destroy_nodes-IsDestroying current_state ns (count_change p (destruction n t.res)) in
          rw t.now (record {
            added = destruction n t.res ∷ r.added;
            changes = r.changes ∙ rw append_assoc;
            nodes = rw due (ap (λ (l : List Node). n ∷ l) r.nodes);
            sound = (record { deletes = refl; stored = sym t.there }, r.sound);
            deletes = omega (arith, r.deletes);
            others = r.others;
          })
      | inr spared ↦
          let r = destroy_nodes-IsDestroying current_state ns p in
          rw (skipped current_state n p spared) (record {
            added = r.added;
            changes = r.changes;
            nodes = rw spared r.nodes;
            sound = r.sound;
            deletes = r.deletes;
            others = r.others;
          })
    ]

-- If the sort and the plan succeed, a plan to destroy holds, in reverse topological order, one
-- deletion for each node that is no task and has a resource stored under its name in its component,
-- each with that resource, and nothing else; it counts them.
pub plan_destroy_lem :
    (g : Graph) (current_state : Option EnvironmentState) (sorted : List Node) (p : Plan)
    → (reverse_topological_sort g).1 ≡ ok sorted
    → (plan_destroy g current_state).1 ≡ ok p
    → (change_nodes p.changes ≡ keep (is_destroyed current_state) sorted)
      × All (IsDestruction current_state) p.changes
      × (p.to_delete ≡ length p.changes)
      × (p.to_create ≡ 0)
      × (p.to_update ≡ 0)
      × (p.no_change ≡ 0)
unfolding plan_destroy
plan_destroy_lem g current_state sorted p e h =
    let r = destroy_nodes-IsDestroying current_state sorted (empty_plan g) in
    let out : destroy_nodes current_state sorted (empty_plan g) ≡ p = ground (arith, e, h) in
    rw (← out) (
      rw r.changes (r.nodes, r.sound, omega (arith, r.deletes), r.others.0, r.others.1, r.others.2))
