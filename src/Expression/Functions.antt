-- ===== src/Expression/Functions.antt =====
-- pkg/engine/expression/functions.go, and `fmt.Sprintf("%v", x)` for the values of references. Cases are
-- changed and spaces trimmed as for ASCII text.
use cldctl.Prelude.{
  Bool, List, [], if◌then◌else◌, leb, length, map, pos, suc, ℕ, ◌&&◌, ◌++◌, ◌+◌, ◌-◌, ◌==◌, ◌||◌,
  ◌∷◌,
}
use cldctl.Expression.{
  Datum, Item, collected, item, number, route_of, service_of, text, texts, value,
}
use cldctl.Dict.{Dict}
use cldctl.Value.{Items, Value, arr, cons, nil, null, sprint, sprint_int, str}
use cldctl.Text.{Text, codes, same}

unfoldable pub join_with : Text → List Text → Text
join_with sep [] = []
join_with sep (t ∷ []) = t
join_with sep (t ∷ u ∷ ts) = t ++ (sep ++ join_with sep (u ∷ ts))

unfoldable pub item_texts : Items → List Text
unfolding sprint
item_texts nil = []
item_texts (cons x xs) = sprint x ∷ item_texts xs

-- `%v` of a `[]string`
unfoldable pub sprint_texts : List Text → Text
unfolding join_with
sprint_texts ts = b'[' ∷ join_with (codes " ") ts ++ codes "]"

unfoldable pub sprint_item : Item → Text
unfolding sprint_texts sprint_int
sprint_item (text t) = t
sprint_item (number n) = sprint_int n
sprint_item (texts ts) = sprint_texts ts

unfoldable pub sprint_datum : Datum → Text
unfolding sprint sprint_item sprint_texts sprint_int join_with
sprint_datum (value v) = sprint v
sprint_datum (item i) = sprint_item i
sprint_datum (service_of s) =
    b'{' ∷ join_with (codes " ") (s.url ∷ s.host ∷ sprint_int s.port ∷ s.protocol ∷ []) ++ codes "}"
sprint_datum (route_of r) =
    b'{' ∷ join_with (codes " ") (r.url ∷ sprint_texts r.hosts ∷ []) ++ codes "}"
sprint_datum (collected items) = sprint_texts (map sprint_item items)

-- `args[0]`, if there is one.
unfoldable pub first_arg : Text → List Text → Text
first_arg other_text [] = other_text
first_arg other_text (a ∷ args) = a

unfoldable pub join_func : Datum → List Text → Datum
unfolding join_with first_arg item_texts sprint_item sprint_datum
join_func (value (arr xs)) args =
    item (text (join_with (first_arg (codes ",") args) (item_texts xs)))
join_func (collected items) args =
    item (text (join_with (first_arg (codes ",") args) (map sprint_item items)))
join_func (item (texts ts)) args = item (text (join_with (first_arg (codes ",") args) ts))
join_func x args = item (text (sprint_datum x))

unfoldable pub first_func : Datum → List Text → Datum
first_func (value (arr nil)) args = value null
first_func (value (arr (cons x xs))) args = value x
first_func (collected []) args = value null
first_func (collected (i ∷ items)) args = item i
first_func (item (texts [])) args = item (text [])
first_func (item (texts (t ∷ ts))) args = item (text t)
first_func x args = x

unfoldable pub last_value : Value → Items → Value
last_value x nil = x
last_value x (cons y ys) = last_value y ys

unfoldable pub last_of : {A : Type 0} → A → List A → A
last_of x [] = x
last_of x (y ∷ ys) = last_of y ys

unfoldable pub last_func : Datum → List Text → Datum
unfolding last_value last_of
last_func (value (arr nil)) args = value null
last_func (value (arr (cons x xs))) args = value (last_value x xs)
last_func (collected []) args = value null
last_func (collected (i ∷ items)) args = item (last_of i items)
last_func (item (texts [])) args = item (text [])
last_func (item (texts (t ∷ ts))) args = item (text (last_of t ts))
last_func x args = x

unfoldable pub count_items : Items → ℕ
count_items nil = 0
count_items (cons x xs) = suc (count_items xs)

unfoldable pub length_func : Datum → List Text → Datum
unfolding count_items
length_func (value (arr xs)) args = item (number (pos (count_items xs)))
length_func (value (str t)) args = item (number (pos (length t)))
length_func (collected items) args = item (number (pos (length items)))
length_func (item (texts ts)) args = item (number (pos (length ts)))
length_func (item (text t)) args = item (number (pos (length t)))
length_func x args = item (number (pos 0))

unfoldable pub default_func : Datum → List Text → Datum
default_func x [] = x
default_func (value null) (a ∷ args) = item (text a)
default_func (value (str [])) (a ∷ args) = item (text a)
default_func (item (text [])) (a ∷ args) = item (text a)
default_func (value (arr nil)) (a ∷ args) = item (text a)
default_func (collected []) (a ∷ args) = item (text a)
default_func x (a ∷ args) = x

unfoldable pub upper_byte : ℕ → ℕ
upper_byte c = if leb 97 c && leb c 122 then c - 32 else c

unfoldable pub lower_byte : ℕ → ℕ
lower_byte c = if leb 65 c && leb c 90 then c + 32 else c

unfoldable pub is_space : ℕ → Bool
is_space c = c == 32 || (leb 9 c && leb c 13)

unfoldable pub trim_left : Text → Text
unfolding is_space
trim_left [] = []
trim_left (c ∷ cs) = if is_space c then trim_left cs else c ∷ cs

unfoldable pub trim_right : Text → Text
unfolding is_space
trim_right [] = []
trim_right (c ∷ cs) =
    let rest = trim_right cs in if is_space c && same rest [] then [] else c ∷ rest

-- `strings.TrimSpace`
unfoldable pub trim_space : Text → Text
unfolding trim_left trim_right
trim_space t = trim_right (trim_left t)

unfoldable pub upper_func : Datum → List Text → Datum
unfolding upper_byte sprint_datum
upper_func x args = item (text (map upper_byte (sprint_datum x)))

unfoldable pub lower_func : Datum → List Text → Datum
unfolding lower_byte sprint_datum
lower_func x args = item (text (map lower_byte (sprint_datum x)))

unfoldable pub trim_func : Datum → List Text → Datum
unfolding trim_space sprint_datum
trim_func x args = item (text (trim_space (sprint_datum x)))

-- The functions of an evaluator.
unfoldable pub pipe_functions : Dict (Datum → List Text → Datum)
unfolding join_func first_func last_func length_func default_func upper_func lower_func trim_func
pipe_functions =
    (codes "join", join_func)
    ∷ (codes "first", first_func)
    ∷ (codes "last", last_func)
    ∷ (codes "length", length_func)
    ∷ (codes "default", default_func)
    ∷ (codes "upper", upper_func)
    ∷ (codes "lower", lower_func)
    ∷ (codes "trim", trim_func)
    ∷ []
