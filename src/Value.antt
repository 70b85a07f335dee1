-- ===== src/Value.antt =====
-- Go's `interface{}` values that come from YAML, JSON and expressions, and `fmt.Sprintf("%v", x)`.
-- Floats are not modelled.
use cldctl.Prelude.{
  ℕ, zero, suc, ◌+◌, ◌/◌, ◌%◌, ◌≡◌, refl, Bool, true, false, List, [], ◌∷◌, ◌++◌, ltb,
  if◌then◌else◌, ℤ, pos, negsuc,
}
use cldctl.Text.{Text, codes}
use cldctl.Text.Sort.{before}

mutual
  pub data Value : Type 0 where
    null : Value
    str : Text → Value
    int : ℤ → Value
    bool : Bool → Value
    arr : Items → Value
    obj : Fields → Value

  pub data Items : Type 0 where
    nil : Items
    cons : Value → Items → Items

  pub data Fields : Type 0 where
    end : Fields
    field : Text → Value → Fields → Fields

-- The decimal digits, least significant first; `fuel` above the number is enough.
digits : ℕ → ℕ → Text → Text
digits zero n acc = acc
digits (suc fuel) n acc =
    let rest = digits fuel (n / 10) ((48 + n % 10) ∷ acc) in
    if ltb n 10 then (48 + n) ∷ acc else rest

unfoldable pub sprint_int : ℤ → Text
unfolding digits
sprint_int (pos n) = digits (suc n) n []
sprint_int (negsuc n) = b'-' ∷ digits (suc (suc n)) (suc n) []

-- A map is printed in the order of its keys.
insert_entry : Text → Text → List (Text × Text) → List (Text × Text)
insert_entry k v [] = (k, v) ∷ []
insert_entry k v ((j, w) ∷ m) =
    if before j k then (j, w) ∷ insert_entry k v m else (k, v) ∷ (j, w) ∷ m

-- `k:v k:v`
join_entries : List (Text × Text) → Text
join_entries [] = []
join_entries ((k, v) ∷ []) = k ++ b':' ∷ v
join_entries ((k, v) ∷ e ∷ m) = k ++ b':' ∷ v ++ b' ' ∷ join_entries (e ∷ m)

unfoldable mutual
  unfolding sprint_int insert_entry before join_entries

  pub sprint : Value → Text
  sprint null = codes "<nil>"
  sprint (str s) = s
  sprint (int n) = sprint_int n
  sprint (bool true) = codes "true"
  sprint (bool false) = codes "false"
  sprint (arr xs) = b'[' ∷ sprint_items xs ++ b']' ∷ []
  sprint (obj fs) = codes "map[" ++ join_entries (sprint_fields fs) ++ b']' ∷ []

  pub sprint_items : Items → Text
  sprint_items nil = []
  sprint_items (cons x nil) = sprint x
  sprint_items (cons x (cons y ys)) = sprint x ++ b' ' ∷ sprint_items (cons y ys)

  pub sprint_fields : Fields → List (Text × Text)
  sprint_fields end = []
  sprint_fields (field k v fs) = insert_entry k (sprint v) (sprint_fields fs)

sprint_sample :
    sprint (
      obj (
        field
          (codes "b")
          (arr (cons (int (pos 120)) (cons null nil)))
          (field (codes "a") (int (negsuc 6)) end)))
    ≡ codes "map[a:-7 b:[120 <nil>]]"
unfolding sprint
sprint_sample = refl
