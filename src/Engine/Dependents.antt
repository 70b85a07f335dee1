-- ===== src/Engine/Dependents.antt =====
-- pkg/engine/engine.go, `FindDependents` and the check on it in `DestroyComponent`.
use cldctl.Prelude.{
  Bool, List, [], any, arith, none, not, refl, some, ◌&&◌, ◌==◌, ◌∷◌, ◌≡◌, ◌≢◌, ◌≤◌, Bool-cases,
  Option, Option-cases, false, inl, inr, true, ℕ, ◌↔◌, ◌∙◌,
}
use cldctl.Types.{ComponentState, EnvironmentState}
use cldctl.Dict.{Dict, get, keys, has}
use cldctl.Dict.Laws.{IsKeyed, get-none_of_occ}
use cldctl.Text.{Text, same, same_iff}
use cldctl.Engine.{
  dependents_of, DestroyComponentOptions, check_dependents, destroy_component, find_dependents,
  has_dependents,
}
use cldctl.Text.Sort.{occ, one_if, occ-sort_strings}
use cldctl.Executor.{Outside}
use cldctl.Prelude.Results.{err}

-- The component `k` is another one than the target, and names it among its dependencies.
pub record IsDependent (components : Dict ComponentState) (target k : Text) : Type 0 where
  pub comp : ComponentState
  pub there : get components k ≡ some comp
  pub other : k ≢ target
  pub names : 1 ≤ occ target comp.dependencies

any-occ :
    (target : Text) (deps : List Text)
    → any (λ dep. same dep target) deps ≡ not (occ target deps == 0)
unfolding any occ
any-occ target [] = refl
any-occ target (d ∷ deps) =
    ground (arith, any-occ target deps, same_iff d target, same_iff target d)

-- Whether an entry of the components is a dependent.
abbrev counts : Text → Text → ComponentState → Bool
counts target k comp = not (same k target) && not (occ target comp.dependencies == 0)

abbrev listed : Text → Text → Option ComponentState → ℕ
listed target k none = 0
listed target k (some comp) = one_if (counts target k comp)

occ-dependents_of :
    (target k : Text) (components : Dict ComponentState)
    → IsKeyed components
    → occ k (dependents_of target components) ≡ listed target k (get components k)
unfolding dependents_of occ get keys
occ-dependents_of target k [] keyed = refl
occ-dependents_of target k ((name, comp) ∷ components) keyed =
    let rest = occ-dependents_of target k components (λ j. omega (arith, keyed j)) in
    elim (Bool-cases (same name k)) [
      | inl here ↦
          let gone : get components k ≡ none =
            get-none_of_occ components k
              (ground (arith, keyed k, same_iff name k, same_iff k name)) in
          ground (
            arith,
            rest,
            gone,
            here,
            any-occ target comp.dependencies,
            same_iff name k,
            same_iff k name,
          )
      | inr away ↦
          ground
            (arith, rest, away, any-occ target comp.dependencies, same_iff name k, same_iff k name)
    ]

-- On a map of components, `FindDependents` lists exactly the other components that name the target
-- among their dependencies.
pub find_dependents_iff :
    (env : EnvironmentState) (target k : Text)
    → IsKeyed env.components
    → (1 ≤ occ k (find_dependents env target)) ↔ IsDependent env.components target k
unfolding find_dependents
find_dependents_iff env target k keyed = (only, back)
  where
    count : occ k (find_dependents env target) ≡ listed target k (get env.components k)
    count =
        occ-sort_strings k (dependents_of target env.components)
        ∙ occ-dependents_of target k env.components keyed

    only : 1 ≤ occ k (find_dependents env target) → IsDependent env.components target k
    only p = elim (Option-cases (get env.components k)) [
      | inl absent ↦ absurd (ground (arith, count, absent, p))
      | inr (comp, there) ↦ record {
        comp = comp;
        there = there;
        other = λ e. ground (arith, count, there, p, same_iff k target, e);
        names = ground (arith, count, there, p);
      }
    ]

    back : IsDependent env.components target k → 1 ≤ occ k (find_dependents env target)
    back d = ground (arith, count, d.there, d.names, d.other, same_iff k target)

check_dependents-refuses :
    (opts : DestroyComponentOptions) (env : EnvironmentState) (k : Text)
    → opts.force ≡ false
    → 1 ≤ occ k (find_dependents env opts.component)
    → check_dependents opts env
      ≡ err (has_dependents opts.component (find_dependents env opts.component))
unfolding check_dependents occ
check_dependents-refuses opts env k careful p = go (find_dependents env opts.component) refl
  where
    go :
        (ds : List Text)
        → find_dependents env opts.component ≡ ds
        → check_dependents opts env
          ≡ err (has_dependents opts.component (find_dependents env opts.component))
    go [] was = absurd (ground (arith, was, p))
    go (d ∷ ds) was = rw (careful, was) refl

-- Without `--force`, a stored component that another one names among its dependencies is not
-- destroyed: the operation returns an error with a list of dependents, in which that other
-- component stands.
pub destroy_component_refuses :
    (outside : Outside) (interrupts : ℕ → Bool) (save_error delete_error : Option Text)
    (opts : DestroyComponentOptions) (env : EnvironmentState) (k : Text)
    → IsKeyed env.components
    → opts.force ≡ false
    → has env.components opts.component ≡ true
    → IsDependent env.components opts.component k
    → (dependents : List Text) × (destroy_component outside interrupts save_error delete_error opts
          (some env)
        ≡ err (has_dependents opts.component dependents))
      × (1 ≤ occ k dependents)
unfolding destroy_component
destroy_component_refuses outside interrupts save_error delete_error opts env k keyed careful there
      d =
    let listed = (find_dependents_iff env opts.component k keyed).1 d in
    (
      find_dependents env opts.component,
      elim (Option-cases (get env.components opts.component)) [
        | inl absent ↦ absurd (ground (arith, there, absent))
        | inr (comp, here) ↦
            ground (arith, here, check_dependents-refuses opts env k careful listed)
      ],
      listed,
    )
