-- ===== src/Expression/Resolve.antt =====
-- pkg/engine/expression/evaluator.go: the values that a reference can name.
-- A `switch` on a property: the values of the known ones, and an error for others.
use cldctl.Expression.{
  missing, BucketOutputs, BuildOutputs, DatabaseEndpoint, DatabaseOutputs, Datum,
  EncryptionKeyOutputs, EvalError, FunctionOutputs, ObservabilityOutputs, PortOutputs, RouteOutputs,
  ServiceOutputs, SmtpOutputs, invalid_reference, item, no_observability, number, text, texts,
  unknown_property, value,
}
use cldctl.Dict.{Dict, get}
use cldctl.Prelude.{List, Option, [], if◌then◌else◌, none, some, ℤ, ◌++◌, ◌||◌, ◌∷◌}
use cldctl.Prelude.Results.{Result, err, ok}
use cldctl.Text.{Text, codes, same}
use cldctl.Value.{Value}

unfoldable pub pick : Text → Text → Dict Datum → Result EvalError Datum
pick kind prop known = elim (get known prop) [
  | none ↦ err (unknown_property kind prop)
  | some x ↦ ok x
]

-- `name := path[0]; prop := path[1]`, with the lookup of the name.
unfoldable pub with_property :
    {A : Type 0}
    → Text
    → (A → Text → List Text → Result EvalError Datum)
    → List Text
    → Dict A
    → Result EvalError Datum
with_property kind f [] m = err (invalid_reference kind)
with_property kind f (name ∷ []) m = err (invalid_reference kind)
with_property kind f (name ∷ prop ∷ rest) m = elim (get m name) [
  | none ↦ err (missing kind name)
  | some x ↦ f x prop rest
]

abbrev pub as_text : Text → Datum
as_text t = item (text t)

abbrev pub as_number : ℤ → Datum
as_number n = item (number n)

unfoldable pub build_property : BuildOutputs → Text → Result EvalError Datum
unfolding pick
build_property x prop = pick (codes "build") prop ((codes "image", as_text x.image) ∷ [])

unfoldable pub database_property : DatabaseOutputs → Text → Result EvalError Datum
unfolding pick
database_property x prop = pick (codes "database") prop (
    (codes "host", as_text x.host)
    ∷ (codes "port", as_number x.port)
    ∷ (codes "database", as_text x.database)
    ∷ (codes "username", as_text x.username)
    ∷ (codes "password", as_text x.password)
    ∷ (codes "url", as_text x.url)
    ∷ [])

-- `resolveDatabaseEndpoint` for an endpoint of its own.
unfoldable pub endpoint_property : Text → DatabaseEndpoint → Text → Result EvalError Datum
unfolding pick
endpoint_property direction x prop = pick (codes "database " ++ direction) prop (
    (codes "host", as_text x.host)
    ∷ (codes "port", as_number x.port)
    ∷ (codes "username", as_text x.username)
    ∷ (codes "password", as_text x.password)
    ∷ (codes "url", as_text x.url)
    ∷ [])

-- The same with the values of the database.
unfoldable pub fallback_property : Text → DatabaseOutputs → Text → Result EvalError Datum
unfolding pick
fallback_property direction x prop = pick (codes "database " ++ direction) prop (
    (codes "host", as_text x.host)
    ∷ (codes "port", as_number x.port)
    ∷ (codes "username", as_text x.username)
    ∷ (codes "password", as_text x.password)
    ∷ (codes "url", as_text x.url)
    ∷ [])

unfoldable pub resolve_database_endpoint : DatabaseOutputs → Text → Text → Result EvalError Datum
unfolding endpoint_property fallback_property
resolve_database_endpoint db direction prop =
    elim (if same direction (codes "read") then db.read else db.write) [
      | none ↦ fallback_property direction db prop
      | some endpoint ↦ endpoint_property direction endpoint prop
    ]

unfoldable pub database_value : DatabaseOutputs → Text → List Text → Result EvalError Datum
unfolding resolve_database_endpoint database_property
database_value db prop rest =
    if same prop (codes "read") || same prop (codes "write")
    then elim rest [
      | [] ↦ err (invalid_reference (codes "database " ++ prop))
      | sub ∷ more ↦ resolve_database_endpoint db prop sub
    ]
    else database_property db prop

unfoldable pub bucket_property : BucketOutputs → Text → Result EvalError Datum
unfolding pick
bucket_property x prop = pick (codes "bucket") prop (
    (codes "endpoint", as_text x.endpoint)
    ∷ (codes "bucket", as_text x.bucket)
    ∷ (codes "region", as_text x.region)
    ∷ (codes "accessKeyId", as_text x.access_key_id)
    ∷ (codes "secretAccessKey", as_text x.secret_access_key)
    ∷ [])

unfoldable pub encryption_key_property : EncryptionKeyOutputs → Text → Result EvalError Datum
unfolding pick
encryption_key_property x prop = pick (codes "encryption key") prop (
    (codes "privateKey", as_text x.private_key)
    ∷ (codes "publicKey", as_text x.public_key)
    ∷ (codes "privateKeyBase64", as_text x.private_key_base64)
    ∷ (codes "publicKeyBase64", as_text x.public_key_base64)
    ∷ (codes "key", as_text x.key)
    ∷ (codes "keyBase64", as_text x.key_base64)
    ∷ [])

unfoldable pub port_property : PortOutputs → Text → Result EvalError Datum
unfolding pick
port_property x prop = pick (codes "port") prop ((codes "port", as_number x.port) ∷ [])

unfoldable pub smtp_property : SmtpOutputs → Text → Result EvalError Datum
unfolding pick
smtp_property x prop = pick (codes "smtp") prop (
    (codes "host", as_text x.host)
    ∷ (codes "port", as_number x.port)
    ∷ (codes "username", as_text x.username)
    ∷ (codes "password", as_text x.password)
    ∷ [])

unfoldable pub service_value : ServiceOutputs → Text → Result EvalError Datum
unfolding pick
service_value x prop = pick (codes "service") prop (
    (codes "url", as_text x.url)
    ∷ (codes "host", as_text x.host)
    ∷ (codes "port", as_number x.port)
    ∷ (codes "protocol", as_text x.protocol)
    ∷ [])

unfoldable pub route_value : RouteOutputs → Text → Result EvalError Datum
unfolding pick
route_value x prop =
    pick (codes "route") prop
      ((codes "url", as_text x.url) ∷ (codes "hosts", item (texts x.hosts)) ∷ [])

unfoldable pub function_property : FunctionOutputs → Text → Result EvalError Datum
unfolding pick
function_property x prop =
    pick (codes "function") prop ((codes "url", as_text x.url) ∷ (codes "id", as_text x.id) ∷ [])

-- `resolveServiceProperty`, which knows no protocol.
unfoldable pub service_property : ServiceOutputs → Text → Result EvalError Datum
unfolding pick
service_property x prop = pick (codes "service") prop (
    (codes "url", as_text x.url)
    ∷ (codes "host", as_text x.host)
    ∷ (codes "port", as_number x.port)
    ∷ [])

-- `resolveRouteProperty`
unfoldable pub route_property : RouteOutputs → Text → Result EvalError Datum
unfolding pick
route_property x prop =
    pick (codes "route") prop
      ((codes "url", as_text x.url) ∷ (codes "hosts", item (texts x.hosts)) ∷ [])

unfoldable pub resolve_variable : List Text → Dict Value → Result EvalError Datum
resolve_variable [] variables = err (invalid_reference (codes "variable"))
resolve_variable (name ∷ rest) variables = elim (get variables name) [
  | none ↦ err (missing (codes "variable") name)
  | some v ↦ ok (value v)
]

unfoldable pub resolve_observability :
    List Text → Option ObservabilityOutputs → Result EvalError Datum
unfolding pick
resolve_observability path none = err no_observability
resolve_observability [] (some x) = err (invalid_reference (codes "observability"))
resolve_observability (prop ∷ rest) (some x) = pick (codes "observability") prop (
    (codes "endpoint", as_text x.endpoint)
    ∷ (codes "protocol", as_text x.protocol)
    ∷ (codes "attributes", as_text x.attributes)
    ∷ [])
