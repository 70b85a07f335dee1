-- ===== src/Expression.antt =====
-- pkg/engine/expression: the expressions `${{ ... }}` in the inputs of components. Expression/Functions
-- has the pipe functions, Expression/Resolve and Expression/Others the values that references name,
-- Expression/Evaluator the evaluation, and Expression/Parser the parser of references.
pub mod Functions
pub mod Resolve
pub mod Others
pub mod Evaluator
pub mod Laws
pub mod Endpoints
pub mod Typing
pub mod Parser
pub mod Printing
pub mod RoundTrip
use cldctl.Dict.{Dict}
use cldctl.Prelude.{List, Option, ℤ}
use cldctl.Text.{Text}
use cldctl.Value.{Value}

pub record PipeFunc : Type 0 where
  pub name : Text
  pub args : List Text

pub record Reference : Type 0 where
  pub path : List Text
  pub pipe : List PipeFunc

pub data Segment : Type 0 where
  literal : Text → Segment
  reference : Reference → Segment

pub record BuildOutputs : Type 0 where
  pub image : Text

pub record DatabaseEndpoint : Type 0 where
  pub host : Text
  pub port : ℤ
  pub username : Text
  pub password : Text
  pub url : Text

pub record DatabaseOutputs : Type 0 where
  pub host : Text
  pub port : ℤ
  pub database : Text
  pub username : Text
  pub password : Text
  pub url : Text
  pub read : Option DatabaseEndpoint
  pub write : Option DatabaseEndpoint

pub record BucketOutputs : Type 0 where
  pub endpoint : Text
  pub bucket : Text
  pub region : Text
  pub access_key_id : Text
  pub secret_access_key : Text

pub record EncryptionKeyOutputs : Type 0 where
  pub private_key : Text
  pub public_key : Text
  pub private_key_base64 : Text
  pub public_key_base64 : Text
  pub key : Text
  pub key_base64 : Text

pub record SmtpOutputs : Type 0 where
  pub host : Text
  pub port : ℤ
  pub username : Text
  pub password : Text

pub record PortOutputs : Type 0 where
  pub port : ℤ

pub record ServiceOutputs : Type 0 where
  pub url : Text
  pub host : Text
  pub port : ℤ
  pub protocol : Text

pub record RouteOutputs : Type 0 where
  pub url : Text
  pub hosts : List Text

pub record FunctionOutputs : Type 0 where
  pub url : Text
  pub id : Text

pub record ObservabilityOutputs : Type 0 where
  pub endpoint : Text
  pub protocol : Text
  pub attributes : Text

-- `outputs` is `none` for a nil map.
pub record DependencyOutputs : Type 0 where
  pub services : Dict ServiceOutputs
  pub routes : Dict RouteOutputs
  pub outputs : Option (Dict Value)

pub record DependentOutputs : Type 0 where
  pub services : Dict ServiceOutputs
  pub routes : Dict RouteOutputs

pub record EvalContext : Type 0 where
  pub builds : Dict BuildOutputs
  pub databases : Dict DatabaseOutputs
  pub buckets : Dict BucketOutputs
  pub encryption_keys : Dict EncryptionKeyOutputs
  pub smtp : Dict SmtpOutputs
  pub ports : Dict PortOutputs
  pub services : Dict ServiceOutputs
  pub routes : Dict RouteOutputs
  pub functions : Dict FunctionOutputs
  pub observability : Option ObservabilityOutputs
  pub variables : Dict Value
  pub dependencies : Dict DependencyOutputs
  pub dependents : Dict DependentOutputs

-- What a property of a service or a route holds.
pub data Item : Type 0 where
  text : Text → Item
  number : ℤ → Item
  texts : List Text → Item

-- The `interface{}` values that a reference may have. `collected` is the `[]interface{}` of a reference
-- with `*`.
pub data Datum : Type 0 where
  value : Value → Datum
  item : Item → Datum
  service_of : ServiceOutputs → Datum
  route_of : RouteOutputs → Datum
  collected : List Item → Datum

-- The errors, by what their message names.
pub data EvalError : Type 0 where
  empty_path no_observability empty_pipe : EvalError
  unknown_reference unknown_pipe : Text → EvalError
  -- `invalid <kind> reference`
  invalid_reference : Text → EvalError
  -- `<kind> <name> not found`
  missing : Text → Text → EvalError
  -- `<kind> <name> not found in <dependency>`
  missing_in : Text → Text → Text → EvalError
  no_outputs : Text → EvalError
  -- `unknown <kind> property: <property>`
  unknown_property : Text → Text → EvalError
