-- ===== src/Planner/Range.antt =====
-- pkg/engine/planner/planner.go, the loop over `existingResources`: the order in which Go ranges over a
-- map, of which only is known that each entry is met once.
use cldctl.Prelude.{All, List, [], arith, length, ◌∷◌, ◌≡◌, ◌≤◌, Bool-cases, inl, inr}
use cldctl.Types.{ResourceState}
use cldctl.Dict.{Dict, keys}
use cldctl.Text.{Text, same, same_iff, same_refl}
use cldctl.Text.Sort.{occ}
use mathlib.Core.Path.{subst}

pub record IsRange (range : Dict ResourceState → Dict ResourceState) : Type 0 where
  pub as_long : (d : Dict ResourceState) → length (range d) ≡ length d
  pub same_keys : (d : Dict ResourceState) (k : Text) → occ k (keys (range d)) ≡ occ k (keys d)

All-occ {ℓ} : (P : Text → Type ℓ) (k : Text) (ys : List Text) → All P ys → 1 ≤ occ k ys → P k
unfolding occ
All-occ P k [] h p = absurd (omega (arith, p))
All-occ P k (y ∷ ys) h p = elim (Bool-cases (same k y)) [
  | inl here ↦ subst P (ground (arith, same_iff k y, here)) h.0
  | inr apart ↦ All-occ P k ys h.1 (ground (arith, p, apart))
]

All-of_occ {ℓ} :
    (P : Text → Type ℓ) (xs ys : List Text)
    → All P ys
    → ((k : Text) → 1 ≤ occ k xs → 1 ≤ occ k ys)
    → All P xs
unfolding occ
All-of_occ P [] ys h sub = tt
All-of_occ P (x ∷ xs) ys h sub = (
  All-occ P x ys h (sub x (ground (arith, same_refl x))),
  All-of_occ P xs ys h (λ k p. sub k (ground (arith, p))),
)

pub All-range {ℓ} :
    (P : Text → Type ℓ) (range : Dict ResourceState → Dict ResourceState) (d : Dict ResourceState)
    → IsRange range
    → All P (keys d)
    → All P (keys (range d))
All-range P range d r h =
    All-of_occ P (keys (range d)) (keys d) h (λ k p. ground (arith, r.same_keys d k, p))
