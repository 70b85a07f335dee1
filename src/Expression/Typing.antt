-- ===== src/Expression/Typing.antt =====
-- pkg/engine/expression/functions.go: the functions that always give a string.
use cldctl.Prelude.{
  Bool, List, [], any, some, true, ◌++◌, ◌∷◌, ◌≡◌, Bool-cases, List-cases, Option-cases, ap, arith,
  inl, inr, none, refl, sym, ◌∙◌,
}
use cldctl.Expression.{
  Datum, PipeFunc, collected, item, number, route_of, service_of, text, texts, value, EvalContext,
  Reference,
}
use cldctl.Text.{Text, codes, same, same_iff}
use cldctl.Expression.Evaluator.{apply_pipes, evaluate_reference, sources}
use cldctl.Value.{arr, bool, int, null, obj, str}
use cldctl.Dict.{get}
use cldctl.Expression.Functions.{join_func, pipe_functions, lower_func, trim_func, upper_func}
use cldctl.Prelude.Results.{ok, Result-cases}
use mathlib.Core.Path.{subst}

unfoldable pub gives_text : Text → Bool
gives_text name = any (same name) (codes "join" ∷ codes "upper" ∷ codes "lower" ∷ codes "trim" ∷ [])

-- The value is a string.
abbrev pub IsText : Datum → Type 0
IsText (item (text t)) = Unit
IsText x = ⊥

join_func-IsText : (x : Datum) (args : List Text) → IsText (join_func x args)
unfolding join_func
join_func-IsText (value null) args = tt
join_func-IsText (value (str t)) args = tt
join_func-IsText (value (int n)) args = tt
join_func-IsText (value (bool b)) args = tt
join_func-IsText (value (arr xs)) args = tt
join_func-IsText (value (obj fs)) args = tt
join_func-IsText (item (text t)) args = tt
join_func-IsText (item (number n)) args = tt
join_func-IsText (item (texts ts)) args = tt
join_func-IsText (service_of s) args = tt
join_func-IsText (route_of r) args = tt
join_func-IsText (collected is) args = tt

-- A name has one function.
is_function :
    (name n : Text) (f g : Datum → List Text → Datum)
    → same name n ≡ true
    → get pipe_functions n ≡ some g
    → get pipe_functions name ≡ some f
    → g ≡ f
is_function name n f g h there e =
    let named : name ≡ n = ground (arith, same_iff name n, h) in
    ap (λ o. elim o [ none ↦ g | some k ↦ k ]) (sym there ∙ ap (get pipe_functions) (sym named) ∙ e)

joins : get pipe_functions (codes "join") ≡ some join_func
unfolding pipe_functions get same
joins = refl

uppers : get pipe_functions (codes "upper") ≡ some upper_func
unfolding pipe_functions get same
uppers = refl

lowers : get pipe_functions (codes "lower") ≡ some lower_func
unfolding pipe_functions get same
lowers = refl

trims : get pipe_functions (codes "trim") ≡ some trim_func
unfolding pipe_functions get same
trims = refl

-- What a function of this name gives.
function-IsText :
    (name : Text) (f : Datum → List Text → Datum) (x : Datum) (args : List Text)
    → gives_text name ≡ true
    → get pipe_functions name ≡ some f
    → IsText (f x args)
unfolding gives_text any upper_func lower_func trim_func
function-IsText name f x args h e = elim (Bool-cases (same name (codes "join"))) [
  | inl join ↦
      subst (λ g. IsText (g x args)) (is_function name (codes "join") f join_func join joins e)
        (join_func-IsText x args)
  | inr not_join ↦ elim (Bool-cases (same name (codes "upper"))) [
    | inl upper ↦
        subst (λ g. IsText (g x args))
          (is_function name (codes "upper") f upper_func upper uppers e) tt
    | inr not_upper ↦ elim (Bool-cases (same name (codes "lower"))) [
      | inl lower ↦
          subst (λ g. IsText (g x args))
            (is_function name (codes "lower") f lower_func lower lowers e) tt
      | inr not_lower ↦
          let trims_it : same name (codes "trim") ≡ true =
            ground (arith, not_join, not_upper, not_lower, h) in
          subst (λ g. IsText (g x args))
            (is_function name (codes "trim") f trim_func trims_it trims e) tt
    ]
  ]
]

last_pipe :
    (pipes : List PipeFunc) (f : PipeFunc) (x y : Datum)
    → gives_text f.name ≡ true
    → apply_pipes (pipes ++ f ∷ []) x ≡ ok y
    → IsText y
unfolding apply_pipes
last_pipe [] f x y h e = elim (Option-cases (get pipe_functions f.name)) [
  | inl unknown ↦ absurd (ground (arith, unknown, e))
  | inr (g, there) ↦
      let result : g x f.args ≡ y = ground (arith, there, e) in
      subst IsText result (function-IsText f.name g x f.args h there)
]
last_pipe (p ∷ pipes) f x y h e = elim (Option-cases (get pipe_functions p.name)) [
  | inl unknown ↦ absurd (ground (arith, unknown, e))
  | inr (g, there) ↦ last_pipe pipes f (g x p.args) y h (ground (arith, there, e))
]

-- A reference whose last pipe is `join`, `upper`, `lower` or `trim` has a string as its value, if it has
-- a value.
pub evaluate_reference-IsText :
    (ref : Reference) (ctx : EvalContext) (pipes : List PipeFunc) (f : PipeFunc) (y : Datum)
    → ref.pipe ≡ pipes ++ f ∷ []
    → gives_text f.name ≡ true
    → evaluate_reference ref ctx ≡ ok y
    → IsText y
unfolding evaluate_reference
evaluate_reference-IsText ref ctx pipes f y last h e = elim (List-cases ref.path) [
  | inl empty ↦ absurd (ground (arith, empty, e))
  | inr (source, rest, whole) ↦ elim (Option-cases (get (sources rest ctx) source)) [
    | inl unknown ↦ absurd (ground (arith, whole, unknown, e))
    | inr (found, there) ↦ elim (Result-cases found) [
      | inl (d, failed) ↦ absurd (ground (arith, whole, there, failed, e))
      | inr (x, fine) ↦
          let piped : apply_pipes ref.pipe x ≡ ok y = ground (arith, whole, there, fine, e) in
          last_pipe pipes f x y h (ap (λ l. apply_pipes l x) (sym last) ∙ piped)
    ]
  ]
]
