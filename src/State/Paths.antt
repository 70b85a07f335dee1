-- ===== src/State/Paths.antt =====
-- pkg/state/manager.go, the path helpers, with what they use of Go's package `path`: `Join`, `Clean` and
-- `Split`.
pub mod Laws
pub mod RoundTrip
pub mod Pieces
pub mod Clean
use cldctl.Prelude.{
  Bool, List, [], false, if◌then◌else◌, keep, length, not, suc, zero, ℕ, ◌++◌, ◌+◌, ◌==◌, ◌||◌, ◌∷◌,
}
use cldctl.Text.{Text, codes, same}

-- The pieces between the slashes, of which there is one more than slashes.
unfoldable pub cons_first : ℕ → List Text → List Text
cons_first c [] = (c ∷ []) ∷ []
cons_first c (s ∷ ss) = (c ∷ s) ∷ ss

unfoldable pub split_slash : Text → List Text
unfolding cons_first
split_slash [] = [] ∷ []
split_slash (c ∷ cs) =
    let rest = split_slash cs in if c == b'/' then [] ∷ rest else cons_first c rest

unfoldable pub join_slash : List Text → Text
join_slash [] = []
join_slash (s ∷ []) = s
join_slash (s ∷ t ∷ ts) = s ++ b'/' ∷ join_slash (t ∷ ts)

-- `..` behind these pieces.
unfoldable pub go_up : Bool → List Text → List Text
go_up rooted [] = if rooted then [] else codes ".." ∷ []
go_up rooted (s ∷ []) = if same s (codes "..") then s ∷ codes ".." ∷ [] else []
go_up rooted (s ∷ t ∷ ts) = s ∷ go_up rooted (t ∷ ts)

unfoldable pub resolve : Bool → List Text → List Text → List Text
unfolding go_up
resolve rooted out [] = out
resolve rooted out (s ∷ ss) =
    let out' =
      if same s [] || same s (codes ".")
      then out
      else (if same s (codes "..") then go_up rooted out else out ++ s ∷ []) in
    resolve rooted out' ss

unfoldable pub is_rooted : Text → Bool
is_rooted [] = false
is_rooted (c ∷ cs) = c == b'/'

-- `path.Clean`
unfoldable pub clean : Text → Text
unfolding split_slash join_slash resolve is_rooted
clean p =
    let cleaned = join_slash (resolve (is_rooted p) [] (split_slash p)) in
    if is_rooted p then b'/' ∷ cleaned else (if same cleaned [] then codes "." else cleaned)

-- `path.Join`
unfoldable pub path_join : List Text → Text
unfolding join_slash clean
path_join elems = elim (keep (λ e. not (same e [])) elems) [
  | [] ↦ []
  | e ∷ es ↦ clean (join_slash (e ∷ es))
]

-- `path.Split`: the directory with its slash, and the file.
unfoldable pub split_file : Text → Text × Text
split_file [] = ([], [])
split_file (c ∷ cs) =
    let (dir, file) = split_file cs in
    if c == b'/'
    then (c ∷ dir, file)
    else elim dir [ [] ↦ ([], c ∷ file) | x ∷ xs ↦ (c ∷ x ∷ xs, file) ]

-- `splitPath`: a loop, with as much fuel as the path is long, and one more.
unfoldable pub split_rest : ℕ → Text → List Text → List Text
unfolding clean split_file
split_rest zero p parts = parts
split_rest (suc fuel) p parts =
    let (dir, file) = split_file p in
    let rest = split_rest fuel (clean dir) (if same file [] then parts else file ∷ parts) in
    if same p [] || (same p (codes ".") || same p (codes "/")) then parts else rest

unfoldable pub split_path : Text → List Text
unfolding split_rest
split_path p = split_rest (length p + 1) p []

unfoldable pub datacenter_path : Text → Text
unfolding path_join
datacenter_path name = path_join (codes "datacenters" ∷ name ∷ codes "datacenter.state.json" ∷ [])

unfoldable pub datacenter_component_path : Text → Text → Text
unfolding path_join
datacenter_component_path dc component =
    path_join
      (codes "datacenters" ∷ dc ∷ codes "components" ∷ (component ++ codes ".state.json") ∷ [])

unfoldable pub environment_path : Text → Text → Text
unfolding path_join
environment_path dc name =
    path_join
      (codes "datacenters" ∷ dc ∷ codes "environments" ∷ name ∷ codes "environment.state.json" ∷ [])

unfoldable pub component_path : Text → Text → Text → Text
unfolding path_join
component_path dc env component = path_join (
    codes "datacenters"
    ∷ dc
    ∷ codes "environments"
    ∷ env
    ∷ codes "components"
    ∷ component
    ∷ codes "component.state.json"
    ∷ [])

unfoldable pub resource_path : Text → Text → Text → Text → Text
unfolding path_join
resource_path dc env component resource = path_join (
    codes "datacenters"
    ∷ dc
    ∷ codes "environments"
    ∷ env
    ∷ codes "components"
    ∷ component
    ∷ codes "resources"
    ∷ (resource ++ codes ".state.json")
    ∷ [])
