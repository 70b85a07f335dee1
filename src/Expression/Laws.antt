-- ===== src/Expression/Laws.antt =====
-- pkg/engine/expression/evaluator.go: what the evaluation of an expression comes to.
use cldctl.Expression.{EvalContext, EvalError, Segment, literal, reference}
use cldctl.Prelude.{
  List, [], ap, append-nil, append_assoc, arith, inl, inr, refl, sym, ◌++◌, ◌∷◌, ◌≡◌, ◌∙◌,
}
use cldctl.Prelude.Results.{Result, Result-cases, err, ok, ◌>>=◌}
use cldctl.Text.{Text}
use cldctl.Expression.Evaluator.{evaluate, evaluate_reference, evaluate_string, write_segments}
use cldctl.Expression.Functions.{sprint_datum, sprint_item}

-- Each segment by itself, and one behind the other.
unfoldable pub render : EvalContext → Segment → Result EvalError Text
render ctx (literal t) = ok t
render ctx (reference ref) = elim (evaluate_reference ref ctx) [
  | err e ↦ err e
  | ok x ↦ ok (sprint_datum x)
]

unfoldable pub render_all : EvalContext → List Segment → Result EvalError Text
unfolding render
render_all ctx [] = ok []
render_all ctx (s ∷ segments) = render ctx s >>= λ t. render_all ctx segments >>= λ u. ok (t ++ u)

prefixed : Text → Result EvalError Text → Result EvalError Text
prefixed t (ok u) = ok (t ++ u)
prefixed t (err e) = err e

write_segments-render :
    (segments : List Segment) (ctx : EvalContext) (written : Text)
    → write_segments segments ctx written ≡ prefixed written (render_all ctx segments)
unfolding write_segments render_all render prefixed
write_segments-render [] ctx written = ap ok (sym (append-nil written))
write_segments-render (literal t ∷ segments) ctx written =
    let rest = write_segments-render segments ctx (written ++ t) in
    elim (Result-cases (render_all ctx segments)) [
      | inl (e, failed) ↦ ground (arith, rest, failed)
      | inr (u, fine) ↦ ground (arith, rest, fine, append_assoc written t u)
    ]
write_segments-render (reference ref ∷ segments) ctx written =
    elim (Result-cases (evaluate_reference ref ctx)) [
      | inl (e, failed) ↦ ground (arith, failed)
      | inr (x, found) ↦
          let rest = write_segments-render segments ctx (written ++ sprint_datum x) in
          elim (Result-cases (render_all ctx segments)) [
            | inl (e, failed) ↦ ground (arith, found, rest, failed)
            | inr (u, fine) ↦
                ground (arith, found, rest, fine, append_assoc written (sprint_datum x) u)
          ]
    ]

prefixed_nil : (r : Result EvalError Text) → prefixed [] r ≡ r
unfolding prefixed
prefixed_nil (ok u) = refl
prefixed_nil (err e) = refl

-- As a string, an expression is its segments one behind the other, however many there are; the first
-- segment with an error gives the error.
pub evaluate_string-render_all :
    (segments : List Segment) (ctx : EvalContext)
    → evaluate_string segments ctx ≡ render_all ctx segments
unfolding evaluate_string evaluate render_all render sprint_datum sprint_item
evaluate_string-render_all [] ctx = refl
evaluate_string-render_all (literal t ∷ []) ctx = ap ok (sym (append-nil t))
evaluate_string-render_all (reference ref ∷ []) ctx =
    elim (Result-cases (evaluate_reference ref ctx)) [
      | inl (e, failed) ↦ ground (arith, failed)
      | inr (x, found) ↦ ground (arith, found, append-nil (sprint_datum x))
    ]
evaluate_string-render_all (s ∷ t ∷ segments) ctx =
    let whole =
      write_segments-render (s ∷ t ∷ segments) ctx []
      ∙ prefixed_nil (render_all ctx (s ∷ t ∷ segments)) in
    elim (Result-cases (render_all ctx (s ∷ t ∷ segments))) [
      | inl (e, failed) ↦ ground (arith, whole, failed)
      | inr (u, fine) ↦ ground (arith, whole, fine)
    ]
