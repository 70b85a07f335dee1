-- ===== src/Dict.antt =====
-- A Go map with string keys, as an association list. The list's order is the order in which a
-- `range` loop meets the entries, which Go leaves open: theorems hold for every list.
pub mod Laws
use cldctl.Prelude.{ℕ, Option, none, some, Bool, List, [], ◌∷◌, if◌then◌else◌, is_some, length}
use cldctl.Text.{Text, same}

abbrev pub Dict {ℓ} : Type ℓ → Type ℓ
Dict V = List (Text × V)

module _ {ℓ} {V : Type ℓ} where
  -- `v, ok := m[k]`
  unfoldable pub get : Dict V → Text → Option V
  get [] k = none
  get ((j, v) ∷ m) k = if same j k then some v else get m k

  -- `m[k] = v`
  unfoldable pub put : Dict V → Text → V → Dict V
  put [] k v = (k, v) ∷ []
  put ((j, w) ∷ m) k v = if same j k then (j, v) ∷ m else (j, w) ∷ put m k v

  -- `delete(m, k)`
  unfoldable pub remove : Dict V → Text → Dict V
  remove [] k = []
  remove ((j, w) ∷ m) k = let rest = remove m k in if same j k then rest else (j, w) ∷ rest

  unfoldable pub keys : Dict V → List Text
  keys [] = []
  keys ((j, v) ∷ m) = j ∷ keys m

  -- `_, ok := m[k]`
  abbrev pub has : Dict V → Text → Bool
  has m k = is_some (get m k)

  -- A change of every entry in place: `for k, v := range m { m[k] = f(k, v) }`.
  unfoldable pub map_values {κ} : {W : Type κ} → (Text → V → W) → Dict V → Dict W
  map_values f [] = []
  map_values f ((j, v) ∷ m) = (j, f j v) ∷ map_values f m
