-- ===== src/Samples/Expressions.antt =====
-- References to a database, a service and a variable.
use cldctl.Expression.{
  DatabaseOutputs, EvalContext, Reference, Segment, item, literal, reference, text, PipeFunc,
}
use cldctl.Expression.Typing.{IsText, evaluate_reference-IsText, gives_text}
use cldctl.Prelude.{
  List, [], any, false, if◌then◌else◌, none, pos, refl, some, true, ◌||◌, ◌∷◌, ◌≡◌, All, all,
}
use cldctl.Expression.Evaluator.{apply_pipes, evaluate_reference, evaluate_string, simple, sources}
use cldctl.Text.{codes, same, Text}
use cldctl.Expression.Endpoints.{endpoint_falls_back, value_of}
use cldctl.Expression.Laws.{evaluate_string-render_all, render, render_all}
use cldctl.Dict.{get}
use cldctl.Expression.Functions.{
  is_space, pipe_functions, sprint_datum, sprint_item, trim_func, trim_left, trim_right, trim_space,
}
use cldctl.Prelude.Results.{ok}
use cldctl.Expression.Resolve.{resolve_variable, with_property}
use cldctl.Value.{sprint, str}
use cldctl.Expression.Printing.{IsPiece, IsWord, is_path_byte, is_word_byte, print_reference}
use cldctl.Expression.Parser.{is_quote, parse_reference}
use cldctl.Expression.RoundTrip.{parse_reference-print_reference}

abbrev main_db : DatabaseOutputs
main_db = record {
  host = codes "db";
  port = pos 5432;
  database = codes "app";
  username = codes "u";
  password = codes "p";
  url = codes "postgres://db";
  read = none;
  write = none;
}

abbrev context : EvalContext
context = record {
  builds = [];
  databases = (codes "main", main_db) ∷ [];
  buckets = [];
  encryption_keys = [];
  smtp = [];
  ports = [];
  services = [];
  routes = [];
  functions = [];
  observability = none;
  variables = (codes "name", str (codes " app ")) ∷ [];
  dependencies = [];
  dependents = [];
}

abbrev trimmed_name : Reference
trimmed_name = record {
  path = codes "variables" ∷ codes "name" ∷ [];
  pipe = record { name = codes "trim"; args = [] } ∷ [];
}

abbrev segments : List Segment
segments = literal (codes "x-") ∷ reference trimmed_name ∷ []

evaluate_string-render_all_example : evaluate_string segments context ≡ render_all context segments
evaluate_string-render_all_example = evaluate_string-render_all segments context

test_render : render_all context segments ≡ ok (codes "x-app")
unfolding render_all render evaluate_reference sources with_property simple resolve_variable
    apply_pipes pipe_functions trim_func trim_space trim_left trim_right is_space sprint_datum
    sprint_item sprint get same
test_render = refl

main_found : get context.databases (codes "main") ≡ some main_db
unfolding get same
main_found = refl

reads : same (codes "read") (codes "read") || same (codes "read") (codes "write") ≡ true
unfolding same
reads = refl

no_endpoint : (if same (codes "read") (codes "read") then main_db.read else main_db.write) ≡ none
unfolding same
no_endpoint = refl

url_plain : same (codes "url") (codes "read") || same (codes "url") (codes "write") ≡ false
unfolding same
url_plain = refl

url_other : same (codes "database") (codes "url") ≡ false
unfolding same
url_other = refl

endpoint_falls_back_example :
    value_of (
      evaluate_reference
        (record {
          path = codes "databases" ∷ codes "main" ∷ codes "read" ∷ codes "url" ∷ [];
          pipe = [];
        })
        context)
    ≡ value_of (
        evaluate_reference
          (record { path = codes "databases" ∷ codes "main" ∷ codes "url" ∷ []; pipe = [] })
          context)
endpoint_falls_back_example =
    endpoint_falls_back context (codes "main") (codes "read") (codes "url") [] main_db main_found
      reads no_endpoint url_plain url_other

trims_text : gives_text (codes "trim") ≡ true
unfolding gives_text any same
trims_text = refl

name_value : evaluate_reference trimmed_name context ≡ ok (item (text (codes "app")))
unfolding evaluate_reference sources with_property simple resolve_variable apply_pipes
    pipe_functions trim_func trim_space trim_left trim_right is_space sprint_datum sprint_item
    sprint get same
name_value = refl

evaluate_reference-IsText_example : IsText (item (text (codes "app")))
evaluate_reference-IsText_example =
    evaluate_reference-IsText trimmed_name context [] (record { name = codes "trim"; args = [] })
      (item (text (codes "app"))) refl trims_text name_value

abbrev rest_of_path : List Text
rest_of_path = codes "*" ∷ codes "routes" ∷ codes "*" ∷ codes "url" ∷ []

abbrev joined : List PipeFunc
joined = record { name = codes "join"; args = codes ";" ∷ [] } ∷ []

path_pieces : All IsPiece (codes "dependents" ∷ rest_of_path)
unfolding all is_path_byte is_space
path_pieces = (refl, (refl, (refl, (refl, (refl, tt)))))

joined_words : All (λ f. All IsWord (f.name ∷ f.args)) joined
unfolding all is_word_byte is_quote is_space same
joined_words = (((refl, refl), ((refl, refl), tt)), tt)

parse_reference-print_reference_example :
    parse_reference
      (print_reference (record { path = codes "dependents" ∷ rest_of_path; pipe = joined }))
    ≡ ok (record { path = codes "dependents" ∷ rest_of_path; pipe = joined })
parse_reference-print_reference_example =
    parse_reference-print_reference (codes "dependents") rest_of_path joined path_pieces
      joined_words
