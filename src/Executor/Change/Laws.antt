-- ===== src/Executor/Change/Laws.antt =====
-- pkg/engine/executor/executor.go, `executeChange`: whose result it is, and when it is a success.
use cldctl.Planner.{Action, ResourceChange}
use cldctl.Types.{ComponentState}
use cldctl.Graph.{Graph, Node, set_input}
use cldctl.Executor.{HookResult, Options, Outside, World}
use cldctl.Prelude.{List, arith, none, refl, true, ℕ, ◌≡◌, Option-cases, inl, inr}
use cldctl.Prelude.Results.{Result, err, ok}
use cldctl.Text.{Text}
use cldctl.Executor.Change.{
  copy_output, execute_apply, execute_change, execute_database_user_passthrough, execute_destroy,
  execute_hook, execute_network_policy_noop, execute_port_allocation, finish_hook,
  inject_parent_database_outputs, destroyed_resource, stored_iac_state,
}
use cldctl.Dict.{get}

inject-id : (g : Graph) (node : Node) → (inject_parent_database_outputs g node).id ≡ node.id
unfolding inject_parent_database_outputs copy_output set_input
inject-id g node = ground arith

module _ (options : Options) (outside : Outside) where
  -- The hooks and the plugins do their work without an error.
  pub record IsSound : Type 0 where
    pub hooks :
        (node : Node) (env_name : Text) (comp : ComponentState)
        → (r : HookResult) × (outside.execute_hook_modules node env_name comp ≡ ok r)
    pub destroys : (node : Node) (iac : List ℕ) → outside.destroy node iac ≡ none

  finish_hook-id :
      (node : Node) (action : Action) (r : Result Text HookResult) (w : World)
      → ((finish_hook options outside node action r w).0).node_id ≡ node.id
  unfolding finish_hook
  finish_hook-id node action (ok r) w = refl
  finish_hook-id node action (err m) w = refl

  -- The node with its resolved inputs, which `execute_apply` hands on.
  abbrev resolved : Node → World → Node
  resolved node w = record node { inputs = outside.resolve_inputs w.graph w.env node }

  hook-id :
      (node : Node) (action : Action) (w : World)
      → ((execute_hook options outside node action w).0).node_id ≡ node.id
  unfolding execute_hook
  hook-id node action w = finish_hook-id node action _ _

  port-id :
      (node : Node) (action : Action) (w : World)
      → ((execute_port_allocation options outside node action w).0).node_id ≡ node.id
  unfolding execute_port_allocation
  port-id node action w = refl

  passthrough-id :
      (node : Node) (action : Action) (w : World)
      → ((execute_database_user_passthrough options outside node action w).0).node_id ≡ node.id
  unfolding execute_database_user_passthrough
  passthrough-id node action w = refl

  policy-id :
      (node : Node) (action : Action) (w : World)
      → ((execute_network_policy_noop options outside node action w).0).node_id ≡ node.id
  unfolding execute_network_policy_noop
  policy-id node action w = refl

  execute_apply-id :
      (node : Node) (action : Action) (w : World)
      → ((execute_apply options outside node action w).1.0).node_id ≡ node.id
  unfolding execute_apply
  execute_apply-id node action w =
      let n = resolved node w in
      ground (
        arith,
        port-id n action w,
        passthrough-id n action w,
        policy-id n action w,
        hook-id n action w,
        hook-id (inject_parent_database_outputs w.graph n) action w,
        inject-id w.graph n,
      )

  execute_destroy-id :
      (node : Node) (action : Action) (w : World)
      → ((execute_destroy options outside node action w).0).node_id ≡ node.id
  unfolding execute_destroy
  execute_destroy-id node action w = ground arith

  -- A result is the changed node's.
  pub execute_change-id :
      (c : ResourceChange) (w : World)
      → ((execute_change options outside c w).1.0).node_id ≡ c.node.id
  unfolding execute_change
  execute_change-id c w =
      ground (arith, execute_apply-id c.node c.action w, execute_destroy-id c.node c.action w)

  finish_hook-success :
      (node : Node) (action : Action) (r : Result Text HookResult) (w : World)
      → (h : HookResult) × (r ≡ ok h)
      → ((finish_hook options outside node action r w).0).success ≡ true
  unfolding finish_hook
  finish_hook-success node action (ok r) w h = refl
  finish_hook-success node action (err m) w h = let e = h.1 in cc

  hook-success :
      IsSound
      → (node : Node) (action : Action) (w : World)
      → ((execute_hook options outside node action w).0).success ≡ true
  unfolding execute_hook
  hook-success sound node action w = finish_hook-success node action _ _ (sound.hooks _ _ _)

  port-success :
      (node : Node) (action : Action) (w : World)
      → ((execute_port_allocation options outside node action w).0).success ≡ true
  unfolding execute_port_allocation
  port-success node action w = refl

  passthrough-success :
      (node : Node) (action : Action) (w : World)
      → ((execute_database_user_passthrough options outside node action w).0).success ≡ true
  unfolding execute_database_user_passthrough
  passthrough-success node action w = refl

  policy-success :
      (node : Node) (action : Action) (w : World)
      → ((execute_network_policy_noop options outside node action w).0).success ≡ true
  unfolding execute_network_policy_noop
  policy-success node action w = refl

  execute_apply-success :
      IsSound
      → (node : Node) (action : Action) (w : World)
      → ((execute_apply options outside node action w).1.0).success ≡ true
  unfolding execute_apply
  execute_apply-success sound node action w =
      let n = resolved node w in
      ground (
        arith,
        port-success n action w,
        passthrough-success n action w,
        policy-success n action w,
        hook-success sound n action w,
        hook-success sound (inject_parent_database_outputs w.graph n) action w,
      )

  execute_destroy-success :
      IsSound
      → (node : Node) (action : Action) (w : World)
      → ((execute_destroy options outside node action w).0).success ≡ true
  unfolding execute_destroy
  execute_destroy-success sound node action w =
      elim (Option-cases (get w.env.components node.component)) [
        | inl absent ↦ ground arith
        | inr (comp, there) ↦
            ground (arith, sound.destroys node (stored_iac_state (destroyed_resource comp node)))
      ]

  -- With sound hooks and plugins every change succeeds.
  pub execute_change-success :
      IsSound
      → (c : ResourceChange) (w : World) → ((execute_change options outside c w).1.0).success ≡ true
  unfolding execute_change
  execute_change-success sound c w = ground (
    arith,
    execute_apply-success sound c.node c.action w,
    execute_destroy-success sound c.node c.action w,
  )
