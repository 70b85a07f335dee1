-- ===== src/Engine/Destroy.antt =====
-- pkg/engine/engine.go, `Destroy`: what it does where the plugins do their work.
use cldctl.Prelude.{
  Bool, Bool-cases, [], arith, inl, inr, refl, some, ◌≡◌, false, true, Option, sym, not, ℕ, ◌||◌,
  ◌∙◌, ap, none, if◌then◌else◌, ◌&&◌,
}
use cldctl.Types.{EnvironmentState}
use cldctl.Graph.{Graph, new_graph}
use cldctl.Executor.Run.Success.{IsFollowing, finish_run-keeps, run_changes-of_sound}
use cldctl.Planner.{Plan, plan_destroy, is_empty}
use cldctl.Prelude.Results.{ok}
use cldctl.Text.{Text}
use cldctl.Engine.{
  add_component_nodes, DestroyOptions, DestroyResult, destroy, destroy_graph, destroy_options,
  run_destroy, delete_state,
}
use cldctl.Executor.Change.Laws.{IsSound}
use cldctl.Executor.{Outside}
use cldctl.Executor.Run.{execute, run_changes, start_run}
use cldctl.Engine.Bare.{
  IsBare, IsFollowing-plan_destroy, add_component_nodes-IsBare, new_graph-IsBare, plan_of_bare,
}
use mathlib.Core.Path.{subst}

-- The executor's part: with sound plugins it succeeds.
execute-success :
    (outside : Outside) (interrupts : ℕ → Bool) (save_error : Option Text) (p : Plan) (g : Graph)
    (stored : Option EnvironmentState)
    → IsSound destroy_options outside
    → ((m : ℕ) → interrupts m ≡ false)
    → IsFollowing [] p.changes
    → (execute destroy_options outside interrupts save_error p g stored).0.success ≡ true
unfolding execute
execute-success outside interrupts save_error p g stored sound calm follow =
    let start = start_run destroy_options outside p g stored in
    let last = run_changes destroy_options outside interrupts 0 p.changes start in
    let good =
      run_changes-of_sound destroy_options outside interrupts p.changes start sound calm follow
        refl in
    elim (Bool-cases (is_empty p)) [
      | inl empty ↦ rw empty refl
      | inr full ↦ rw full ((finish_run-keeps destroy_options outside save_error last).0 ∙ good.0)
    ]

module _ (outside : Outside) (interrupts : ℕ → Bool) (save_error delete_error : Option Text)
    (dry_run : Bool) (g : Graph) (env : EnvironmentState) (p : Plan)
    (planned : (plan_destroy g (some env)).1 ≡ ok p) where
  abbrev left_alone : DestroyResult
  left_alone = record {
    success = is_empty p || dry_run;
    plan = p;
    execution = none;
    world = none;
    asked = false;
    deleted = false;
    warning = none;
  }

  destroy_graph-skips :
      (dry_run || is_empty p) ≡ true
      → destroy_graph outside interrupts save_error delete_error dry_run g env ≡ ok left_alone
  unfolding destroy_graph
  destroy_graph-skips h = ground (arith, planned, h)

  destroy_graph-runs :
      (dry_run || is_empty p) ≡ false
      → destroy_graph outside interrupts save_error delete_error dry_run g env
        ≡ ok (
            run_destroy outside interrupts save_error delete_error p
              (plan_destroy g (some env)).0
              env)
  unfolding destroy_graph
  destroy_graph-runs h = ground (arith, planned, h)

unfoldable pub is_none : Option Text → Bool
is_none none = true
is_none (some m) = false

-- What a destroy leaves that succeeds: it asked for the deletion of the state if `due`, and the state is
-- deleted, or a warning printed, by what the state manager answered.
pub record IsDestroyed (delete_error : Option Text) (due : Bool) (r : DestroyResult) : Type 0 where
  pub succeeds : r.success ≡ true
  pub asks : r.asked ≡ due
  pub deletes : r.deleted ≡ due && is_none delete_error
  pub warns : r.warning ≡ (if due then delete_error else none)

delete_state-IsDestroyed :
    (delete_error : Option Text) (r : DestroyResult)
    → r.success ≡ true
    → r.deleted ≡ false
    → r.warning ≡ none
    → IsDestroyed delete_error true (delete_state delete_error r)
unfolding delete_state is_none
delete_state-IsDestroyed none r h kept quiet = record {
  succeeds = ground (arith, h);
  asks = ground (arith, h);
  deletes = ground (arith, h);
  warns = ground (arith, h, quiet);
}
delete_state-IsDestroyed (some m) r h kept quiet = record {
  succeeds = ground (arith, h);
  asks = ground (arith, h);
  deletes = ground (arith, h, kept);
  warns = ground (arith, h);
}

module _ (outside : Outside) (interrupts : ℕ → Bool) (save_error delete_error : Option Text) where
  run_destroy-plan :
      (p : Plan) (g : Graph) (env : EnvironmentState)
      → (run_destroy outside interrupts save_error delete_error p g env).plan ≡ p
  unfolding run_destroy delete_state
  run_destroy-plan p g env = ground arith

  destroy_graph-of_sound :
      (dry_run : Bool) (g : Graph) (env : EnvironmentState)
      → IsSound destroy_options outside
      → ((m : ℕ) → interrupts m ≡ false)
      → IsBare g.nodes
      → (r : DestroyResult) × (destroy_graph outside interrupts save_error delete_error dry_run g
            env
          ≡ ok r)
        × IsDestroyed delete_error (not (dry_run || is_empty r.plan)) r
  unfolding run_destroy
  destroy_graph-of_sound dry_run g env sound calm bare =
      let (p, planned) = plan_of_bare g (some env) bare in
      let follow = IsFollowing-plan_destroy g (some env) p bare planned in
      let g' = (plan_destroy g (some env)).0 in
      let run = execute-success outside interrupts save_error p g' (some env) sound calm follow in
      elim (Bool-cases (dry_run || is_empty p)) [
        | inl only ↦ (
          left_alone outside interrupts save_error delete_error dry_run g env p planned,
          destroy_graph-skips outside interrupts save_error delete_error dry_run g env p planned
              only,
          record {
            succeeds = ground (arith, only);
            asks = ground (arith, only);
            deletes = ground (arith, only);
            warns = ground (arith, only);
          },
        )
        | inr full ↦
            let r = run_destroy outside interrupts save_error delete_error p g' env in
            let same_plan = run_destroy-plan p g' env in
            (
              r,
              destroy_graph-runs outside interrupts save_error delete_error dry_run g env p planned
                  full,
              subst (λ due. IsDestroyed delete_error due r)
                  (sym (ap not (ap (λ q. dry_run || is_empty q) same_plan ∙ full)))
                  (delete_state-IsDestroyed delete_error _ run refl refl),
            )
      ]

-- Whatever is stored for an environment, if hooks and plugins return without an error and nothing
-- interrupts the run, then destroying it succeeds. Unless it is a dry run or there is nothing to
-- destroy, the state manager is told to delete the state; the state is deleted if it returns no error,
-- and if it returns one the destroy succeeds all the same, with that error as its warning.
pub destroy-of_sound :
    (outside : Outside) (interrupts : ℕ → Bool) (save_error delete_error : Option Text)
    (opts : DestroyOptions) (env : EnvironmentState)
    → IsSound destroy_options outside
    → ((m : ℕ) → interrupts m ≡ false)
    → (r : DestroyResult) × (destroy outside interrupts save_error delete_error opts (some env)
        ≡ ok r)
      × IsDestroyed delete_error (not (opts.dry_run || is_empty r.plan)) r
unfolding destroy
destroy-of_sound outside interrupts save_error delete_error opts env sound calm =
    destroy_graph-of_sound outside interrupts save_error delete_error opts.dry_run
      (add_component_nodes env.components (new_graph opts.environment opts.datacenter)) env sound
      calm
      (add_component_nodes-IsBare env.components (new_graph opts.environment opts.datacenter)
        (new_graph-IsBare opts.environment opts.datacenter))
