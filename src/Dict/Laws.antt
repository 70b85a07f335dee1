-- ===== src/Dict/Laws.antt =====
-- The laws of Go maps.
use cldctl.Prelude.{
  ◌+◌, ◌≤◌, ◌≡◌, refl, none, some, true, false, [], ◌∷◌, if◌then◌else◌, length, arith, ◌<◌,
}
use cldctl.Text.{Text, same, same_iff}
use cldctl.Text.Sort.{occ, one_if}
use cldctl.Dict.{Dict, get, put, remove, keys, has, map_values}
use mathlib.Core.Option

module _ {ℓ} {V : Type ℓ} where
  -- No key stands twice, as in every Go map.
  abbrev pub IsKeyed : Dict V → Type 0
  IsKeyed m = (k : Text) → occ k (keys m) ≤ 1

  pub get-put :
      (m : Dict V) (k j : Text) (v : V) → get (put m k v) j ≡ (if same k j then some v else get m j)
  unfolding get put
  get-put [] k j v = refl
  get-put ((i, w) ∷ m) k j v =
      ground (arith, same_iff k j, same_iff i k, same_iff i j, get-put m k j v)

  pub get-remove :
      (m : Dict V) (k j : Text) → get (remove m k) j ≡ (if same k j then none else get m j)
  unfolding get remove
  get-remove [] k j = ground arith
  get-remove ((i, w) ∷ m) k j =
      ground (arith, same_iff k j, same_iff i k, same_iff i j, get-remove m k j)

  pub occ-keys-put :
      (m : Dict V) (k j : Text) (v : V)
      → occ j (keys (put m k v)) ≡ (if has m k then 0 else one_if (same j k)) + occ j (keys m)
  unfolding get put keys occ
  occ-keys-put [] k j v = ground arith
  occ-keys-put ((i, w) ∷ m) k j v = ground (arith, same_iff i k, occ-keys-put m k j v)

  -- A key that a map has stands among its keys, and the other way round.
  pub get-none_of_occ : (m : Dict V) (k : Text) → occ k (keys m) ≡ 0 → get m k ≡ none
  unfolding get keys occ
  get-none_of_occ [] k h = refl
  get-none_of_occ ((i, w) ∷ m) k h = ground (arith, same_iff i k, same_iff k i, get-none_of_occ m k)

  pub occ-keys_of_none : (m : Dict V) (k : Text) → has m k ≡ false → occ k (keys m) ≡ 0
  unfolding get keys occ
  occ-keys_of_none [] k h = refl
  occ-keys_of_none ((i, w) ∷ m) k h =
      ground (arith, same_iff i k, same_iff k i, occ-keys_of_none m k)

  pub occ-keys_of_get : (m : Dict V) (k : Text) → has m k ≡ true → 1 ≤ occ k (keys m)
  unfolding get keys occ
  occ-keys_of_get [] k h = cc
  occ-keys_of_get ((i, w) ∷ m) k h = ground (arith, same_iff i k, same_iff k i, occ-keys_of_get m k)

  pub put-IsKeyed : (m : Dict V) (k : Text) (v : V) → IsKeyed m → IsKeyed (put m k v)
  put-IsKeyed m k v h j =
      ground (arith, h j, occ-keys-put m k j v, same_iff j k, occ-keys_of_none m k)

  pub length-keys : (m : Dict V) → length (keys m) ≡ length m
  unfolding keys
  length-keys [] = refl
  length-keys (e ∷ m) = omega (arith, length-keys m)

  length-remove_le : (m : Dict V) (k : Text) → length (remove m k) ≤ length m
  unfolding remove
  length-remove_le [] k = omega arith
  length-remove_le ((j, v) ∷ m) k = ground (arith, length-remove_le m k)

  pub length-remove : (m : Dict V) (k : Text) → has m k ≡ true → length (remove m k) < length m
  unfolding get remove
  length-remove [] k h = absurd (ground (arith, h))
  length-remove ((j, v) ∷ m) k h = ground (arith, length-remove_le m k, length-remove m k, h)

module _ {ℓ κ} {V : Type ℓ} {W : Type κ} (f : Text → V → W) where
  pub get-map_values : (m : Dict V) (k : Text) → get (map_values f m) k ≡ Option.map (f k) (get m k)
  unfolding get map_values
  get-map_values [] k = refl
  get-map_values ((j, v) ∷ m) k = ground (arith, same_iff j k, get-map_values m k)

  pub keys-map_values : (m : Dict V) → keys (map_values f m) ≡ keys m
  unfolding keys map_values
  keys-map_values [] = refl
  keys-map_values ((j, v) ∷ m) = ground (arith, keys-map_values m)
