-- ===== src/Expression/Evaluator.antt =====
-- pkg/engine/expression/evaluator.go: the value of an expression.
use cldctl.Expression.{
  Datum, EvalContext, EvalError, PipeFunc, Reference, Segment, empty_path, item, literal, reference,
  text, unknown_pipe, unknown_reference,
}
use cldctl.Dict.{Dict, get}
use cldctl.Prelude.{List, [], none, some, ◌++◌, ◌∷◌}
use cldctl.Prelude.Results.{Result, err, ok}
use cldctl.Text.{Text, codes}
use cldctl.Expression.Resolve.{
  bucket_property, build_property, database_value, encryption_key_property, function_property,
  port_property, resolve_observability, resolve_variable, route_value, service_value, smtp_property,
  with_property,
}
use cldctl.Expression.Functions.{pipe_functions, sprint_datum}
use cldctl.Expression.Others.{resolve_dependency, resolve_dependents}

unfoldable pub simple :
    {A : Type 0}
    → (A → Text → Result EvalError Datum)
    → A
    → Text
    → List Text
    → Result EvalError Datum
simple f x prop rest = f x prop

-- The `switch` on the first piece of a path.
unfoldable pub sources : List Text → EvalContext → Dict (Result EvalError Datum)
unfolding simple with_property
sources rest ctx =
    (codes "builds", with_property (codes "build") (simple build_property) rest ctx.builds)
    ∷ (codes "databases", with_property (codes "database") database_value rest ctx.databases)
    ∷ (codes "buckets", with_property (codes "bucket") (simple bucket_property) rest ctx.buckets)
    ∷ (
      codes "encryptionKeys",
      with_property (codes "encryption key") (simple encryption_key_property) rest
          ctx.encryption_keys,
    )
    ∷ (codes "smtp", with_property (codes "smtp") (simple smtp_property) rest ctx.smtp)
    ∷ (codes "services", with_property (codes "service") (simple service_value) rest ctx.services)
    ∷ (codes "routes", with_property (codes "route") (simple route_value) rest ctx.routes)
    ∷ (
      codes "functions",
      with_property (codes "function") (simple function_property) rest ctx.functions,
    )
    ∷ (codes "variables", resolve_variable rest ctx.variables)
    ∷ (codes "dependencies", resolve_dependency rest ctx.dependencies)
    ∷ (codes "dependents", resolve_dependents rest ctx.dependents)
    ∷ (codes "ports", with_property (codes "port") (simple port_property) rest ctx.ports)
    ∷ (codes "observability", resolve_observability rest ctx.observability)
    ∷ []

unfoldable pub apply_pipes : List PipeFunc → Datum → Result EvalError Datum
unfolding pipe_functions
apply_pipes [] x = ok x
apply_pipes (f ∷ pipes) x = elim (get pipe_functions f.name) [
  | none ↦ err (unknown_pipe f.name)
  | some apply ↦ apply_pipes pipes (apply x f.args)
]

unfoldable pub evaluate_reference : Reference → EvalContext → Result EvalError Datum
unfolding sources apply_pipes
evaluate_reference ref ctx = elim ref.path [
  | [] ↦ err empty_path
  | source ∷ rest ↦ elim (get (sources rest ctx) source) [
    | none ↦ err (unknown_reference source)
    | some found ↦ elim found [ err e ↦ err e | ok x ↦ apply_pipes ref.pipe x ]
  ]
]

-- The loop that writes several segments into one string.
unfoldable pub write_segments : List Segment → EvalContext → Text → Result EvalError Text
unfolding evaluate_reference
write_segments [] ctx written = ok written
write_segments (literal t ∷ segments) ctx written = write_segments segments ctx (written ++ t)
write_segments (reference ref ∷ segments) ctx written = elim (evaluate_reference ref ctx) [
  | err e ↦ err e
  | ok x ↦ write_segments segments ctx (written ++ sprint_datum x)
]

unfoldable pub evaluate : List Segment → EvalContext → Result EvalError Datum
unfolding write_segments
evaluate [] ctx = ok (item (text []))
evaluate (reference ref ∷ []) ctx = evaluate_reference ref ctx
evaluate (literal t ∷ []) ctx = ok (item (text t))
evaluate (s ∷ t ∷ segments) ctx = elim (write_segments (s ∷ t ∷ segments) ctx []) [
  | err e ↦ err e
  | ok written ↦ ok (item (text written))
]

unfoldable pub evaluate_string : List Segment → EvalContext → Result EvalError Text
unfolding evaluate
evaluate_string segments ctx = elim (evaluate segments ctx) [
  | err e ↦ err e
  | ok x ↦ ok (sprint_datum x)
]
