-- ===== src/Expression/Parser.antt =====
-- pkg/engine/expression/parser.go: the references, with what they use of Go's package `strings`. Spaces
-- are those of ASCII text.
-- `strings.Split` at a byte.
use cldctl.Prelude.{Bool, List, [], if◌then◌else◌, keep, map, not, ℕ, ◌&&◌, ◌++◌, ◌==◌, ◌||◌, ◌∷◌}
use cldctl.Expression.{EvalError, PipeFunc, Reference, empty_path, empty_pipe}
use cldctl.Prelude.Results.{Result, err, ok}
use cldctl.Text.{Text, same}
use cldctl.Expression.Functions.{is_space, trim_space}
use cldctl.Executor.Port.{word}

unfoldable pub split_on : ℕ → Text → List Text
split_on c [] = [] ∷ []
split_on c (d ∷ ds) =
    let rest = split_on c ds in
    if d == c then [] ∷ rest else elim rest [ [] ↦ (d ∷ []) ∷ [] | s ∷ ss ↦ (d ∷ s) ∷ ss ]

-- `strings.Fields`: `word` is the word so far.
unfoldable pub fields_from : Text → Text → List Text
unfolding is_space
fields_from word [] = if same word [] then [] else word ∷ []
fields_from word (c ∷ cs) =
    let skip = fields_from [] cs in
    let more = fields_from (word ++ c ∷ []) cs in
    if is_space c then (if same word [] then skip else word ∷ skip) else more

unfoldable pub is_quote : ℕ → Bool
is_quote c = c == 34 || c == 39

unfoldable pub trim_quotes_left : Text → Text
unfolding is_quote
trim_quotes_left [] = []
trim_quotes_left (c ∷ cs) = if is_quote c then trim_quotes_left cs else c ∷ cs

unfoldable pub trim_quotes_right : Text → Text
unfolding is_quote
trim_quotes_right [] = []
trim_quotes_right (c ∷ cs) =
    let rest = trim_quotes_right cs in if is_quote c && same rest [] then [] else c ∷ rest

-- "strings.Trim(arg, `"'`)"
unfoldable pub trim_quotes : Text → Text
unfolding trim_quotes_left trim_quotes_right
trim_quotes t = trim_quotes_right (trim_quotes_left t)

-- `[` becomes a dot, and `]` nothing.
unfoldable pub dotted : Text → Text
dotted t = keep (λ c. not (c == b']')) (map (λ c. if c == b'[' then b'.' else c) t)

-- `parsePath`
unfoldable pub parse_path : Text → List Text
unfolding dotted split_on
parse_path t = split_on (b'.') (dotted t)

-- `parsePipeFunc`
unfoldable pub parse_pipe_func : Text → Result EvalError PipeFunc
unfolding fields_from trim_quotes
parse_pipe_func t = elim (fields_from [] t) [
  | [] ↦ err empty_pipe
  | name ∷ args ↦ ok (record { name = name; args = map trim_quotes args })
]

-- The loop over the pipes of a reference.
unfoldable pub parse_pipes : List Text → Result EvalError (List PipeFunc)
unfolding parse_pipe_func trim_space
parse_pipes [] = ok []
parse_pipes (t ∷ ts) = elim (parse_pipe_func (trim_space t)) [
  | err e ↦ err e
  | ok f ↦ elim (parse_pipes ts) [ err e ↦ err e | ok fs ↦ ok (f ∷ fs) ]
]

-- `parseReference`
unfoldable pub parse_reference : Text → Result EvalError Reference
unfolding split_on parse_path parse_pipes trim_space
parse_reference content = elim (split_on (b'|') content) [
  | [] ↦ err empty_path
  | path ∷ pipes ↦ elim (parse_pipes pipes) [
    | err e ↦ err e
    | ok fs ↦ ok (record { path = parse_path (trim_space path); pipe = fs })
  ]
]
