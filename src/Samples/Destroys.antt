-- ===== src/Samples/Destroys.antt =====
-- Witnesses on destruction: the stored environment, and one with a component that needs another.
use cldctl.Types.{ComponentState, EnvironmentState}
use cldctl.Engine.{
  DestroyComponentOptions, DestroyOptions, DestroyResult, destroy, destroy_component,
  destroy_options, find_dependents, has_dependents,
}
use cldctl.Engine.Dependents.{IsDependent, destroy_component_refuses, find_dependents_iff}
use cldctl.Dict.Laws.{IsKeyed}
use cldctl.Executor.Change.Laws.{IsSound}
use cldctl.Prelude.{List, [], arith, false, none, not, refl, some, true, ◌||◌, ◌↔◌, ◌∷◌, ◌≡◌, ◌≤◌}
use cldctl.Text.{Text, codes, same, same_iff}
use cldctl.Samples.Runs.{calm, outside}
use cldctl.Engine.Destroy.{destroy-of_sound, IsDestroyed}
use cldctl.Prelude.Results.{err, ok}
use cldctl.Dict.{get, has, keys}
use cldctl.Planner.{is_empty}
use cldctl.Text.Sort.{occ}
use cldctl.Samples.Plans.{stored_env, stored_web}
use cldctl.Samples.{web}

abbrev destroy_opts : DestroyOptions
destroy_opts = record { environment = codes "dev"; datacenter = codes "dc"; dry_run = false }

sound_destroy : IsSound destroy_options outside
sound_destroy = record {
  hooks = λ node env_name comp. (record { outputs = []; module_states = [] }, refl);
  destroys = λ node iac. refl;
}

destroy-of_sound_example :
    (r : DestroyResult) × (destroy outside calm none
        (some (codes "denied"))
        destroy_opts
        (some stored_env)
      ≡ ok r)
    × IsDestroyed (some (codes "denied")) (not (destroy_opts.dry_run || is_empty r.plan)) r
destroy-of_sound_example =
    destroy-of_sound outside calm none (some (codes "denied")) destroy_opts stored_env sound_destroy
      (λ m. refl)

abbrev shop : Text
shop = codes "shop"

abbrev stored_shop : ComponentState
stored_shop = record stored_web { name = shop; dependencies = web ∷ [] }

abbrev two_components : EnvironmentState
two_components = record stored_env { components = (web, stored_web) ∷ (shop, stored_shop) ∷ [] }

two_components-IsKeyed : IsKeyed two_components.components
unfolding keys occ
two_components-IsKeyed k = ground (arith, same_iff k web, same_iff k shop)

shop-IsDependent : IsDependent two_components.components web shop
unfolding get same occ
shop-IsDependent = record {
  comp = stored_shop;
  there = refl;
  other = ground arith;
  names = omega arith;
}

find_dependents_iff_example :
    (1 ≤ occ shop (find_dependents two_components web))
    ↔ IsDependent two_components.components web shop
find_dependents_iff_example = find_dependents_iff two_components web shop two_components-IsKeyed

abbrev destroy_web : DestroyComponentOptions
destroy_web = record {
  environment = codes "dev";
  datacenter = codes "dc";
  component = web;
  dry_run = false;
  force = false;
}

web_there : has two_components.components web ≡ true
unfolding get same
web_there = refl

destroy_component_refuses_example :
    (dependents : List Text) × (destroy_component outside calm none none destroy_web
        (some two_components)
      ≡ err (has_dependents web dependents))
    × (1 ≤ occ shop dependents)
destroy_component_refuses_example =
    destroy_component_refuses outside calm none none destroy_web two_components shop
      two_components-IsKeyed refl web_there shop-IsDependent
