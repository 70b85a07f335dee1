-- ===== src/Executor/Status.antt =====
-- pkg/engine/executor/executor.go, `computeComponentStatuses`.
use cldctl.Prelude.{
  Bool, [], false, if◌then◌else◌, true, ◌∷◌, ◌≡◌, ◌⊎◌, all, any, arith, inl, inr, ◌&&◌, ◌||◌, ◌↔◌,
  ◌≢◌, refl, sym,
}
use cldctl.Types.{ComponentState, EnvironmentState, ResourceState, ResourceStatus}
use cldctl.Dict.{Dict, map_values}
use mathlib.Core.Path.{subst}

-- The loop over the resources, with its two flags.
unfoldable pub scan : Dict ResourceState → Bool → Bool → Bool × Bool
scan [] all_ready any_failed = (all_ready, any_failed)
scan ((key, res) ∷ resources) all_ready any_failed =
    scan resources (elim res.status [ ResourceStatus.ready ↦ all_ready | _ ↦ false ])
      (elim res.status [ ResourceStatus.failed ↦ true | _ ↦ any_failed ])

unfoldable pub status_of : Dict ResourceState → ResourceStatus
unfolding scan
status_of resources =
    let (all_ready, any_failed) = scan resources true false in
    if any_failed
    then ResourceStatus.failed
    else (if all_ready then ResourceStatus.ready else ResourceStatus.provisioning)

-- A component without shared resources is left as it is.
unfoldable pub component_status : ComponentState → ComponentState
unfolding status_of
component_status comp = elim comp.resources [
  | [] ↦ comp
  | r ∷ rs ↦ record comp { status = status_of (r ∷ rs) }
]

unfoldable pub compute_component_statuses : EnvironmentState → EnvironmentState
unfolding component_status
compute_component_statuses env = record env {
  components = map_values {V = ComponentState} (λ _ comp. component_status comp) env.components;
}

pub resources-component_status :
    (comp : ComponentState) → (component_status comp).resources ≡ comp.resources
unfolding component_status
resources-component_status comp = ground arith

abbrev pub HasStatus : ResourceStatus → Dict ResourceState → Type 0
HasStatus status [] = ⊥
HasStatus status ((key, res) ∷ resources) = (res.status ≡ status) ⊎ HasStatus status resources

abbrev pub AllReady : Dict ResourceState → Type 0
AllReady [] = Unit
AllReady ((key, res) ∷ resources) = (res.status ≡ ResourceStatus.ready) × AllReady resources

is_ready : ResourceStatus → Bool
is_ready ResourceStatus.ready = true
is_ready _ = false

is_failed : ResourceStatus → Bool
is_failed ResourceStatus.failed = true
is_failed _ = false

scan_lem :
    (resources : Dict ResourceState) (all_ready any_failed : Bool)
    → scan resources all_ready any_failed ≡ (
      all_ready && all (λ e. is_ready e.1.status) resources,
      any_failed || any (λ e. is_failed e.1.status) resources,
    )
unfolding scan all any is_ready is_failed
scan_lem [] a f = ground arith
scan_lem ((key, res) ∷ resources) a f = ground (
  arith,
  scan_lem resources (elim res.status [ ResourceStatus.ready ↦ a | _ ↦ false ])
      (elim res.status [ ResourceStatus.failed ↦ true | _ ↦ f ]),
)

any-failed_iff :
    (resources : Dict ResourceState)
    → (any (λ e. is_failed e.1.status) resources ≡ true) ↔ HasStatus ResourceStatus.failed resources
unfolding any is_failed
any-failed_iff [] = ground arith
any-failed_iff ((key, res) ∷ resources) = ground (arith, any-failed_iff resources)

all-ready_iff :
    (resources : Dict ResourceState)
    → (all (λ e. is_ready e.1.status) resources ≡ true) ↔ AllReady resources
unfolding all is_ready
all-ready_iff [] = ground arith
all-ready_iff ((key, res) ∷ resources) = ground (arith, all-ready_iff resources)

failed-not_ready :
    (resources : Dict ResourceState)
    → AllReady resources
    → ¬ HasStatus ResourceStatus.failed resources
failed-not_ready [] a h = h
failed-not_ready ((key, res) ∷ resources) a h = elim h [
  | inl f ↦ cc
  | inr f ↦ failed-not_ready resources a.1 f
]

abbrev choose : Bool → Bool → ResourceStatus
choose any_failed all_ready =
    if any_failed
    then ResourceStatus.failed
    else (if all_ready then ResourceStatus.ready else ResourceStatus.provisioning)

-- What a status says, if `F` is that a resource failed and `R` that all are ready.
abbrev Says : ResourceStatus → Type 0 → Type 0 → Type 0
Says status F R =
    ((status ≡ ResourceStatus.failed) ↔ F)
    × ((status ≡ ResourceStatus.ready) ↔ R)
    × ((status ≡ ResourceStatus.provisioning) ↔ ((¬ F) × (¬ R)))

choose_lem :
    {F R : Type 0} (f a : Bool)
    → ((f ≡ true) ↔ F)
    → ((a ≡ true) ↔ R)
    → (R → ¬ F)
    → Says (choose f a) F R
choose_lem true a hf ha apart = (
  (λ _. hf.0 refl, λ _. refl),
  (λ e. cc, λ r. absurd (apart r (hf.0 refl))),
  (λ e. cc, λ n. absurd (n.0 (hf.0 refl))),
)
choose_lem false true hf ha apart = (
  (λ e. cc, λ x. absurd (apart (ha.0 refl) x)),
  (λ _. ha.0 refl, λ _. refl),
  (λ e. cc, λ n. absurd (n.1 (ha.0 refl))),
)
choose_lem false false hf ha apart = (
  (λ e. cc, λ x. let e = hf.1 x in cc),
  (λ e. cc, λ r. let e = ha.1 r in cc),
  (λ _. (λ x. let e = hf.1 x in cc, λ r. let e = ha.1 r in cc), λ _. refl),
)

component_status-eq :
    (comp : ComponentState)
    → comp.resources ≢ []
    → (component_status comp).status
      ≡ choose
          (any (λ e. is_failed e.1.status) comp.resources)
          (all (λ e. is_ready e.1.status) comp.resources)
unfolding component_status status_of
component_status-eq comp h = ground (arith, scan_lem comp.resources true false)

-- A component with shared resources gets the status failed exactly if one of these failed, ready
-- exactly if all of them are ready, and provisioning exactly if neither holds.
pub component_status_lem :
    (comp : ComponentState)
    → comp.resources ≢ []
    → (((component_status comp).status ≡ ResourceStatus.failed)
        ↔ HasStatus ResourceStatus.failed comp.resources)
      × (((component_status comp).status ≡ ResourceStatus.ready) ↔ AllReady comp.resources)
      × (((component_status comp).status ≡ ResourceStatus.provisioning)
          ↔ ((¬ HasStatus ResourceStatus.failed comp.resources) × (¬ AllReady comp.resources)))
component_status_lem comp h =
    subst (λ s. Says s (HasStatus ResourceStatus.failed comp.resources) (AllReady comp.resources))
      (sym (component_status-eq comp h))
      (choose_lem _ _ (any-failed_iff comp.resources) (all-ready_iff comp.resources)
        (failed-not_ready comp.resources))
