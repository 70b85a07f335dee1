-- ===== src/Graph/Kahn/Frontier.antt =====
-- The loop over the dependents of the node that was taken from the queue.
use cldctl.Prelude.{
  ◌+◌, ◌≤◌, ◌≡◌, refl, List, [], ◌∷◌, ◌++◌, if◌then◌else◌, arith, ◌==◌, ℤ, pred_ℤ, is_zero,
}
use cldctl.Text.{Text, same, same_iff}
use cldctl.Text.Sort.{occ, occ-append, occ-sort_strings, one_if}
use cldctl.Dict.{Dict, put}
use cldctl.Dict.Laws.{get-put}
use cldctl.Graph.Topo.{Frontier, degree, reduce, reduce_all}

degree-put :
    (m : Dict ℤ) (k j : Text) (d : ℤ) → degree (put m k d) j ≡ (if same k j then d else degree m j)
degree-put m k j d = ground (arith, get-put m k j d)

degree-reduce :
    (f : Frontier) (id k : Text)
    → degree (reduce f id).in_degree k
      ≡ (if same id k then pred_ℤ (degree f.in_degree k) else degree f.in_degree k)
unfolding reduce
degree-reduce f id k =
    ground (arith, degree-put f.in_degree id k (pred_ℤ (degree f.in_degree id)), same_iff id k)

occ-reduce :
    (f : Frontier) (id k : Text)
    → occ k (reduce f id).queue
      ≡ occ k f.queue + (if same id k then one_if (is_zero (pred_ℤ (degree f.in_degree k))) else 0)
unfolding reduce occ
occ-reduce f id k = ground (
  arith,
  occ-sort_strings k (f.queue ++ id ∷ []),
  occ-append k f.queue (id ∷ []),
  same_iff id k,
  same_iff k id,
)

-- Each dependent loses one from its in-degree.
pub degree-reduce_all :
    (ids : List Text) (f : Frontier) (k : Text)
    → ((j : Text) → occ j ids ≤ 1)
    → degree (reduce_all ids f).in_degree k
      ≡ (if occ k ids == 0 then degree f.in_degree k else pred_ℤ (degree f.in_degree k))
unfolding reduce_all occ
degree-reduce_all [] f k h = refl
degree-reduce_all (id ∷ ids) f k h = ground (
  arith,
  h k,
  same_iff k id,
  same_iff id k,
  degree-reduce_all ids (reduce f id) k (λ j. ground (arith, h j)),
  degree-reduce f id k,
)

-- It joins the queue exactly if that leaves 0.
pub occ-reduce_all :
    (ids : List Text) (f : Frontier) (k : Text)
    → ((j : Text) → occ j ids ≤ 1)
    → occ k (reduce_all ids f).queue
      ≡ occ k f.queue
        + (if occ k ids == 0 then 0 else one_if (is_zero (pred_ℤ (degree f.in_degree k))))
unfolding reduce_all occ
occ-reduce_all [] f k h = omega arith
occ-reduce_all (id ∷ ids) f k h = ground (
  arith,
  h k,
  same_iff k id,
  same_iff id k,
  occ-reduce_all ids (reduce f id) k (λ j. ground (arith, h j)),
  degree-reduce f id k,
  occ-reduce f id k,
)
