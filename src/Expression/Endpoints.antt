-- ===== src/Expression/Endpoints.antt =====
-- pkg/engine/expression/evaluator.go, `resolveDatabaseEndpoint`: the endpoints that a database leaves
-- out.
-- The value of a result, whatever the error is.
use cldctl.Expression.{missing, DatabaseOutputs, Datum, EvalContext, EvalError, PipeFunc}
use cldctl.Prelude.{
  List, Option, [], false, if◌then◌else◌, none, some, true, ◌||◌, ◌∷◌, ◌≡◌, ap, arith, refl, sym,
  ◌∙◌,
}
use cldctl.Prelude.Results.{Result, err, ok}
use cldctl.Text.{Text, codes, same}
use cldctl.Expression.Resolve.{
  database_property, fallback_property, pick, database_value, resolve_database_endpoint,
  with_property,
}
use cldctl.Expression.Evaluator.{evaluate_reference, apply_pipes, sources}
use cldctl.Dict.{get}

unfoldable pub value_of : Result EvalError Datum → Option Datum
value_of (ok x) = some x
value_of (err e) = none

fallback-value :
    (direction prop : Text) (db : DatabaseOutputs)
    → same (codes "database") prop ≡ false
    → value_of (fallback_property direction db prop) ≡ value_of (database_property db prop)
unfolding fallback_property database_property pick get value_of
fallback-value direction prop db h = ground (arith, h)

endpoint-value :
    (db : DatabaseOutputs) (direction prop : Text)
    → same direction (codes "read") || same direction (codes "write") ≡ true
    → (if same direction (codes "read") then db.read else db.write) ≡ none
    → database_value db direction (prop ∷ []) ≡ fallback_property direction db prop
unfolding database_value resolve_database_endpoint
endpoint-value db direction prop way absent = ground (arith, way, absent)

plain-value :
    (db : DatabaseOutputs) (prop : Text)
    → same prop (codes "read") || same prop (codes "write") ≡ false
    → database_value db prop [] ≡ database_property db prop
unfolding database_value
plain-value db prop plain = ground (arith, plain)

then_pipes : List PipeFunc → Result EvalError Datum → Result EvalError Datum
then_pipes pipe r = elim r [ err e ↦ err e | ok x ↦ apply_pipes pipe x ]

piped-value :
    (pipe : List PipeFunc) (a b : Result EvalError Datum)
    → value_of a ≡ value_of b
    → value_of (then_pipes pipe a) ≡ value_of (then_pipes pipe b)
unfolding then_pipes value_of
piped-value pipe (ok x) (ok y) h = ap (λ d. value_of (apply_pipes pipe d)) (ground (arith, h))
piped-value pipe (ok x) (err e) h = absurd (ground (arith, h))
piped-value pipe (err e) (ok y) h = absurd (ground (arith, h))
piped-value pipe (err e) (err d) h = refl

database_reference :
    (ctx : EvalContext) (name prop : Text) (rest : List Text) (pipe : List PipeFunc)
    (db : DatabaseOutputs)
    → get ctx.databases name ≡ some db
    → evaluate_reference (record { path = codes "databases" ∷ name ∷ prop ∷ rest; pipe = pipe }) ctx
      ≡ then_pipes pipe (database_value db prop rest)
unfolding evaluate_reference sources with_property then_pipes same get
database_reference ctx name prop rest pipe db there =
    ap
      (λ o. then_pipes pipe (elim o [
        | none ↦ err (missing (codes "database") name)
        | some x ↦ database_value x prop rest
      ]))
      there

-- A reference to the read or write endpoint of a database that does not give one has the value
-- of the reference to the database itself, or neither has a value, with any pipes, for each
-- property but `read`, `write` and `database`.
pub endpoint_falls_back :
    (ctx : EvalContext) (name direction prop : Text) (pipe : List PipeFunc) (db : DatabaseOutputs)
    → get ctx.databases name ≡ some db
    → same direction (codes "read") || same direction (codes "write") ≡ true
    → (if same direction (codes "read") then db.read else db.write) ≡ none
    → same prop (codes "read") || same prop (codes "write") ≡ false
    → same (codes "database") prop ≡ false
    → value_of (
        evaluate_reference
          (record { path = codes "databases" ∷ name ∷ direction ∷ prop ∷ []; pipe = pipe })
          ctx)
      ≡ value_of (
          evaluate_reference
            (record { path = codes "databases" ∷ name ∷ prop ∷ []; pipe = pipe })
            ctx)
endpoint_falls_back ctx name direction prop pipe db there way absent plain other_name =
    let inner = database_reference ctx name direction (prop ∷ []) pipe db there in
    let outer = database_reference ctx name prop [] pipe db there in
    let same_value : value_of (database_value db direction (prop ∷ []))
        ≡ value_of (database_value db prop []) =
      ap value_of (endpoint-value db direction prop way absent)
      ∙ fallback-value direction prop db other_name
      ∙ ap value_of (sym (plain-value db prop plain)) in
    ap value_of inner
    ∙ piped-value pipe (database_value db direction (prop ∷ [])) (database_value db prop [])
        same_value
    ∙ ap value_of (sym outer)
