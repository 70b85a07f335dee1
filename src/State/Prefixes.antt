-- ===== src/State/Prefixes.antt =====
-- pkg/state/manager.go over a backend that lists by a prefix of the key, as pkg/state/backend/s3 and
-- pkg/state/backend/gcs do.
use cldctl.Text.{Text, codes}
use cldctl.Prelude.{[], arith, refl, true, ◌++◌, ◌∷◌, ◌≡◌, ap, none, ◌∙◌}
use cldctl.State.Paths.Pieces.{
  environment_file, datacenters-IsClean, environment_file-IsClean, environments-IsClean,
}
use cldctl.State.Paths.{join_slash, environment_path, path_join}
use cldctl.State.Backend.{starts_with, Backend, IsListing, IsStore, not_found}
use cldctl.State.Manager.{Codecs, delete_environment, get_environment, read_json}
use cldctl.State.Paths.Laws.{IsName, path_join-of_clean}
use cldctl.State.Views.{delete_under-read}
use cldctl.State.Paths.Clean.{environment_directory-IsClean, environment_path-IsClean}
use cldctl.Prelude.Results.{err}
use cldctl.Executor.{store}

starts_with-append : (a p q : Text) → starts_with (a ++ p) (a ++ q) ≡ starts_with p q
unfolding starts_with
starts_with-append [] p q = refl
starts_with-append (c ∷ a) p q = ground (arith, starts_with-append a p q)

starts_with_self : (n r q : Text) → starts_with n ((n ++ r) ++ q) ≡ true
unfolding starts_with
starts_with_self [] r q = refl
starts_with_self (c ∷ n) r q = ground (arith, starts_with_self n r q)

starts_longer :
    (dc name rest : Text)
    → starts_with (join_slash (codes "datacenters" ∷ dc ∷ codes "environments" ∷ name ∷ [])) (
        join_slash (
          codes "datacenters" ∷ dc ∷ codes "environments" ∷ (name ++ rest) ∷ environment_file ∷ []))
      ≡ true
unfolding join_slash starts_with
starts_longer dc name rest =
    starts_with-append dc (codes "/environments/" ++ name)
      (codes "/environments/" ++ ((name ++ rest) ++ b'/' ∷ environment_file))
    ∙ starts_with_self name rest (b'/' ∷ environment_file)

-- Where the backend keeps what is written and lists by a prefix of the key, the deletion of an
-- environment, if it returns no error, takes each environment of the datacenter with it whose
-- name starts with the deleted one's name; the names are single pieces of a path.
pub delete_environment-takes_longer :
    {S : Type 0} (b : Backend S) (codecs : Codecs) (s : S) (dc name rest : Text)
    → IsStore b
    → IsListing b starts_with
    → IsName dc
    → IsName name
    → IsName (name ++ rest)
    → (delete_environment b s dc name).1 ≡ none
    → get_environment b codecs (delete_environment b s dc name).0 dc (name ++ rest) ≡ err not_found
unfolding delete_environment get_environment read_json environment_path
delete_environment-takes_longer b codecs s dc name rest store listing d n l h =
    let p = path_join (codes "datacenters" ∷ dc ∷ codes "environments" ∷ name ∷ []) in
    let q = environment_path dc (name ++ rest) in
    let joined =
      path_join-of_clean (codes "datacenters") (dc ∷ codes "environments" ∷ name ∷ [])
        (datacenters-IsClean, (d.is_clean, (environments-IsClean, (n.is_clean, tt)))) in
    let file =
      path_join-of_clean (codes "datacenters")
        (dc ∷ codes "environments" ∷ (name ++ rest) ∷ environment_file ∷ [])
        (
          datacenters-IsClean,
          (d.is_clean, (environments-IsClean, (l.is_clean, (environment_file-IsClean, tt)))),
        ) in
    let under : starts_with p q ≡ true =
      ap (λ t. starts_with t q) joined.0
      ∙ ap (starts_with (join_slash (codes "datacenters" ∷ dc ∷ codes "environments" ∷ name ∷ [])))
          file.0
      ∙ starts_longer dc name rest in
    let found =
      delete_under-read b store starts_with listing p s (environment_directory-IsClean dc name d n)
        h q (environment_path-IsClean dc (name ++ rest) d l) in
    ground (arith, found, under)
