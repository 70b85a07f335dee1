-- ===== src/Text/Sort.antt =====
-- `sort.Strings`: the byte order of Go's strings, and an insertion sort by it. `occ` counts how
-- often a text stands in a list; two lists with the same counts hold the same texts, as often.
use cldctl.Prelude.{
  ℕ, suc, ◌+◌, ◌≤◌, ◌≡◌, refl, Bool, true, false, ◌&&◌, ◌||◌, List, [], ◌∷◌, ◌++◌, arith, ltb, ◌==◌,
  if◌then◌else◌, length,
}
use cldctl.Text.{Text, same, same_iff, same_refl}

-- `a < b`
unfoldable pub before : Text → Text → Bool
before [] [] = false
before [] (y ∷ ys) = true
before (x ∷ xs) [] = false
before (x ∷ xs) (y ∷ ys) = ltb x y || (x == y && before xs ys)

unfoldable pub insert : Text → List Text → List Text
insert x [] = x ∷ []
insert x (y ∷ ys) = if before y x then y ∷ insert x ys else x ∷ y ∷ ys

unfoldable pub sort_strings : List Text → List Text
unfolding insert before
sort_strings [] = []
sort_strings (x ∷ xs) = insert x (sort_strings xs)

abbrev pub one_if : Bool → ℕ
one_if true = 1
one_if false = 0

unfoldable pub occ : Text → List Text → ℕ
occ k [] = 0
occ k (x ∷ xs) = one_if (same k x) + occ k xs

pub occ-append : (k : Text) (xs ys : List Text) → occ k (xs ++ ys) ≡ occ k xs + occ k ys
unfolding occ
occ-append k [] ys = omega arith
occ-append k (x ∷ xs) ys = omega (arith, occ-append k xs ys)

occ-insert : (k x : Text) (xs : List Text) → occ k (insert x xs) ≡ one_if (same k x) + occ k xs
unfolding occ insert
occ-insert k x [] = refl
occ-insert k x (y ∷ ys) = ground (arith, occ-insert k x ys)

pub occ-sort_strings : (k : Text) (xs : List Text) → occ k (sort_strings xs) ≡ occ k xs
unfolding occ sort_strings
occ-sort_strings k [] = refl
occ-sort_strings k (x ∷ xs) = omega (arith, occ-insert k x (sort_strings xs), occ-sort_strings k xs)

length-insert : (x : Text) (xs : List Text) → length (insert x xs) ≡ suc (length xs)
unfolding insert
length-insert x [] = refl
length-insert x (y ∷ ys) = ground (arith, length-insert x ys)

pub length-sort_strings : (xs : List Text) → length (sort_strings xs) ≡ length xs
unfolding sort_strings
length-sort_strings [] = refl
length-sort_strings (x ∷ xs) =
    omega (arith, length-insert x (sort_strings xs), length-sort_strings xs)

-- Removes the first copy.
erase : Text → List Text → List Text
erase k [] = []
erase k (x ∷ xs) = if same k x then xs else x ∷ erase k xs

occ-erase :
    (k j : Text) (xs : List Text) → 1 ≤ occ k xs → occ j (erase k xs) + one_if (same j k) ≡ occ j xs
unfolding occ erase
occ-erase k j [] h = omega arith
occ-erase k j (x ∷ xs) h = ground (arith, same_iff k x, occ-erase k j xs)

length-erase : (k : Text) (xs : List Text) → 1 ≤ occ k xs → suc (length (erase k xs)) ≡ length xs
unfolding occ erase
length-erase k [] h = omega arith
length-erase k (x ∷ xs) h = ground (arith, length-erase k xs)

-- Counts that are nowhere larger give a list that is no longer.
pub length-le_of_occ :
    (xs ys : List Text) → ((k : Text) → occ k xs ≤ occ k ys) → length xs ≤ length ys
unfolding occ
length-le_of_occ [] ys h = omega arith
length-le_of_occ (x ∷ xs) ys h =
    let here : 1 ≤ occ x ys = ground (arith, h x, same_refl x) in
    omega (
      arith,
      length-erase x ys here,
      length-le_of_occ xs (erase x ys) (λ k. omega (arith, h k, occ-erase x k ys here)),
    )

-- If the lists have one length besides, the counts are the same.
pub occ-eq_of_le :
    (xs ys : List Text)
    → ((k : Text) → occ k xs ≤ occ k ys)
    → length xs ≡ length ys
    → (k : Text) → occ k xs ≡ occ k ys
unfolding occ
occ-eq_of_le [] [] h e k = refl
occ-eq_of_le [] (y ∷ ys) h e k = absurd (omega arith)
occ-eq_of_le (x ∷ xs) ys h e k =
    let here : 1 ≤ occ x ys = ground (arith, h x, same_refl x) in
    omega (
      arith,
      occ-erase x k ys here,
      occ-eq_of_le xs (erase x ys) (λ j. omega (arith, h j, occ-erase x j ys here))
          (omega (arith, length-erase x ys here)) k,
    )
