-- ===== src/Graph/Kahn/Missing.antt =====
-- How many dependencies of a node are not processed yet.
use cldctl.Prelude.{ℕ, ◌+◌, ◌≤◌, ◌≡◌, refl, List, [], ◌∷◌, ◌++◌, arith, ◌==◌, length}
use cldctl.Text.{Text, same_iff, same_refl}
use cldctl.Text.Sort.{occ, occ-append, one_if}

pub missing : List Text → List Text → ℕ
missing done [] = 0
missing done (d ∷ ds) = one_if (occ d done == 0) + missing done ds

-- At the start every dependency is missing.
pub missing-nil : (ds : List Text) → missing [] ds ≡ length ds
unfolding missing occ
missing-nil [] = refl
missing-nil (d ∷ ds) = omega (arith, missing-nil ds)

-- Processing `v` takes from the count what `v` stands among the dependencies.
pub missing-append :
    (done ds : List Text) (v : Text)
    → occ v done ≡ 0
    → missing (done ++ v ∷ []) ds + occ v ds ≡ missing done ds
unfolding missing occ
missing-append done [] v h = refl
missing-append done (d ∷ ds) v h =
    ground (arith, missing-append done ds v, occ-append d done (v ∷ []), same_iff d v, same_iff v d)

-- Nothing is missing exactly when every dependency is processed.
pub occ_of_missing :
    (done ds : List Text) (d : Text) → missing done ds ≡ 0 → 1 ≤ occ d ds → 1 ≤ occ d done
unfolding missing occ
occ_of_missing done [] d h k = omega arith
occ_of_missing done (e ∷ ds) d h k = ground (arith, occ_of_missing done ds d, same_iff d e)

pub missing_of_occ :
    (done ds : List Text) → ((d : Text) → 1 ≤ occ d ds → 1 ≤ occ d done) → missing done ds ≡ 0
unfolding missing occ
missing_of_occ done [] h = refl
missing_of_occ done (d ∷ ds) h =
    ground (arith, h d, same_refl d, missing_of_occ done ds (λ e k. h e (omega arith)))
