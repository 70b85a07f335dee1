-- ===== src/Graph/Edges.antt =====
-- pkg/graph/graph.go, `AddNode` and `AddEdge`: the two lists of edges of a node.
use cldctl.Prelude.{
  ℕ, ◌≤◌, ◌≡◌, none, some, Bool, List, [], any, arith, false, if◌then◌else◌, inl, inr, not, refl,
  true, ◌&&◌, ◌==◌, ◌∷◌, Option-cases, Bool-cases, sym, ◌⊎◌,
}
use cldctl.Text.{Text, same, same_iff}
use cldctl.Text.Sort.{occ, occ-append}
use cldctl.Dict.{Dict, get, put, has}
use cldctl.Dict.Laws.{IsKeyed, get-put, put-IsKeyed}
use cldctl.Graph.{Node, add_dependency, add_dependent, append_new, link, Graph, add_edge, add_node}
use cldctl.Prelude.Results.{ok}
use mathlib.Core.Path.{subst}

-- How often `n` is said to depend on `k`, and `m` to be depended on by `k`.
abbrev pub depends : Node → Text → ℕ
depends n k = occ k n.depends_on

abbrev pub supports : Node → Text → ℕ
supports m k = occ k m.depended_on_by

-- Nodes stand under their IDs, no list of edges holds an ID twice, and a node depends on a second
-- one exactly when the second is depended on by the first.
pub record IsLinked (nodes : Dict Node) : Type 0 where
  pub keyed : IsKeyed nodes
  pub named : (k : Text) (n : Node) → get nodes k ≡ some n → n.id ≡ k
  pub once : (k j : Text) (n : Node) → get nodes k ≡ some n → depends n j ≤ 1
  pub once_by : (k j : Text) (n : Node) → get nodes k ≡ some n → supports n j ≤ 1
  pub mirrored :
      (k j : Text) (n m : Node)
      → get nodes k ≡ some n
      → get nodes j ≡ some m
      → depends n j ≡ supports m k

-- No edge comes from or goes to an ID that has no node.
pub record IsClosed (nodes : Dict Node) : Type 0 where
  pub at :
      (k j : Text) (n : Node)
      → get nodes k ≡ some n
      → get nodes j ≡ none
      → (depends n j ≡ 0) × (supports n j ≡ 0)

-- An append that skips an ID which is there already.
abbrev touched : Bool → ℕ → ℕ
touched true m = if m == 0 then 1 else m
touched false m = m

any-same : (k : Text) (xs : List Text) → any (same k) xs ≡ not (occ k xs == 0)
unfolding any occ
any-same k [] = refl
any-same k (x ∷ xs) = ground (arith, any-same k xs)

occ-append_new :
    (k id : Text) (xs : List Text) → occ k (append_new id xs) ≡ touched (same k id) (occ k xs)
unfolding append_new occ
occ-append_new k id xs = ground (arith, any-same id xs, occ-append k xs (id ∷ []), same_iff k id)

-- The node `n'` that `AddEdge` leaves at `k` is the old one with the edge from `a` to `b`.
record IsTouched (nodes : Dict Node) (a b k : Text) (n' : Node) : Type 0 where
  old : Node
  was : get nodes k ≡ some old
  same_id : n'.id ≡ old.id
  depends_at : (j : Text) → depends n' j ≡ touched (same k a && same j b) (depends old j)
  supports_at : (j : Text) → supports n' j ≡ touched (same k b && same j a) (supports old j)

module _ {nodes : Dict Node} {a b : Text} {x y : Node} (at_a : get nodes a ≡ some x)
    (at_b : get nodes b ≡ some y) where
  -- Each node that is left there, by the IDs that agree.
  link-IsTouched :
      (k : Text) (n' : Node) → get (link nodes a b x y) k ≡ some n' → IsTouched nodes a b k n'
  unfolding link add_dependency add_dependent
  link-IsTouched k n' e =
      let new_a = add_dependency x b in
      let new_b = add_dependent y a in
      let looped = add_dependent (add_dependency x b) a in
      let found : (if same a b
            then (if same a k then some looped else get nodes k)
            else (if same b k then some new_b else (if same a k then some new_a else get nodes k)))
          ≡ some n' =
        ground (
          arith,
          get-put nodes a k looped,
          get-put (put nodes a new_a) b k new_b,
          get-put nodes a k new_a,
        ) in
      elim (Option-cases (get nodes k)) [
        | inl e' ↦ absurd (ground (arith, same_iff a k, same_iff b k))
        | inr (n, e') ↦ record {
          old = n;
          was = e';
          same_id = ground (arith, same_iff a k, same_iff b k);
          depends_at = λ j. ground (
            arith,
            occ-append_new j b x.depends_on,
            same_iff a k,
            same_iff k a,
            same_iff b k,
            same_iff k b,
            same_iff a b,
          );
          supports_at = λ j. ground (
            arith,
            occ-append_new j a x.depended_on_by,
            occ-append_new j a y.depended_on_by,
            same_iff a k,
            same_iff k a,
            same_iff b k,
            same_iff k b,
            same_iff a b,
          );
        }
      ]

module _ (nodes : Dict Node) (a b : Text) {x y : Node} (at_a : get nodes a ≡ some x)
    (at_b : get nodes b ≡ some y) where
  link-IsLinked : IsLinked nodes → IsLinked (link nodes a b x y)
  link-IsLinked h = record {
    keyed = link-IsKeyed;
    named = λ k n e.
        let t = link-IsTouched at_a at_b k n e in ground (arith, t.same_id, h.named k t.old t.was);
    once = λ k j n e.
        let t = link-IsTouched at_a at_b k n e in
        ground (arith, t.depends_at j, h.once k j t.old t.was);
    once_by = λ k j n e.
        let t = link-IsTouched at_a at_b k n e in
        ground (arith, t.supports_at j, h.once_by k j t.old t.was);
    mirrored = λ k j n m e e'.
        let t = link-IsTouched at_a at_b k n e in
        let u = link-IsTouched at_a at_b j m e' in
        ground (arith, t.depends_at j, u.supports_at k, h.mirrored k j t.old u.old t.was u.was);
  }
    where
      link-IsKeyed : IsKeyed (link nodes a b x y)
      link-IsKeyed =
          unfold link in
          elim (Bool-cases (same a b)) [
            | inl loop ↦ rw loop (put-IsKeyed nodes a _ h.keyed)
            | inr apart ↦ rw apart (put-IsKeyed (put nodes a _) b _ (put-IsKeyed nodes a _ h.keyed))
          ]

  has-link : (k : Text) → has (link nodes a b x y) k ≡ has nodes k
  unfolding link
  has-link k = ground (
    arith,
    get-put nodes a k (add_dependent (add_dependency x b) a),
    get-put (put nodes a (add_dependency x b)) b k (add_dependent y a),
    get-put nodes a k (add_dependency x b),
    same_iff a k,
    same_iff b k,
  )

  link-IsClosed : IsClosed nodes → IsClosed (link nodes a b x y)
  link-IsClosed h = record {
    at = λ k j n e absent.
        let t = link-IsTouched at_a at_b k n e in
        ground (
          arith,
          t.depends_at j,
          t.supports_at j,
          has-link j,
          h.at k j t.old t.was,
          same_iff j a,
          same_iff j b,
        );
  }

-- If the lists of edges are mirrored and go between nodes of the graph only, and `AddEdge`
-- succeeds, they are and do so afterwards.
pub add_edge-IsLinked :
    (g g' : Graph) (dependent dependency : Text)
    → IsLinked g.nodes
    → IsClosed g.nodes
    → add_edge g dependent dependency ≡ ok g'
    → IsLinked g'.nodes × IsClosed g'.nodes
unfolding add_edge
add_edge-IsLinked g g' a b linked closed e = elim (Option-cases (get g.nodes a)) [
  | inl at_a ↦ absurd (ground (arith, e))
  | inr (x, at_a) ↦ elim (Option-cases (get g.nodes b)) [
    | inl at_b ↦ absurd (ground (arith, e))
    | inr (y, at_b) ↦
        let e' : link g.nodes a b x y ≡ g'.nodes = ground (arith, e) in
        (
          subst IsLinked e' (link-IsLinked g.nodes a b at_a at_b linked),
          subst IsClosed e' (link-IsClosed g.nodes a b at_a at_b closed),
        )
  ]
]

module _ (nodes : Dict Node) (n : Node) (fresh : get nodes n.id ≡ none) (closed : IsClosed nodes)
    (no_deps : n.depends_on ≡ []) (no_users : n.depended_on_by ≡ []) where
  -- A node of the extended map: an old one, or the new one.
  fresh-cases :
      (k : Text) (m : Node)
      → get (put nodes n.id n) k ≡ some m
      → ((same n.id k ≡ false) × (get nodes k ≡ some m)) ⊎ ((n.id ≡ k) × (m ≡ n))
  fresh-cases k m e = elim (Bool-cases (same n.id k)) [
    | inl here ↦ inr (ground (arith, get-put nodes n.id k n, same_iff n.id k))
    | inr away ↦ inl (ground (arith, get-put nodes n.id k n))
  ]

  fresh-IsLinked : IsLinked nodes → IsLinked (put nodes n.id n)
  unfolding occ
  fresh-IsLinked h = record {
    keyed = put-IsKeyed nodes n.id n h.keyed;
    named = λ k m e. elim (fresh-cases k m e) [
      | inl (away, old) ↦ h.named k m old
      | inr (here, new) ↦ ground arith
    ];
    once = λ k j m e. elim (fresh-cases k m e) [
      | inl (away, old) ↦ h.once k j m old
      | inr (here, new) ↦ rw (new, no_deps) (omega arith)
    ];
    once_by = λ k j m e. elim (fresh-cases k m e) [
      | inl (away, old) ↦ h.once_by k j m old
      | inr (here, new) ↦ rw (new, no_users) (omega arith)
    ];
    mirrored = λ k j m m' e e'. elim (fresh-cases k m e) [
      | inl (away, old) ↦ elim (fresh-cases j m' e') [
        | inl (away', old') ↦ h.mirrored k j m m' old old'
        | inr (here', new') ↦ rw (new', no_users) (rw (← here') (closed.at k n.id m old fresh).0)
      ]
      | inr (here, new) ↦ elim (fresh-cases j m' e') [
        | inl (away', old') ↦
            rw (new, no_deps) (rw (← here) (sym (closed.at j n.id m' old' fresh).1))
        | inr (here', new') ↦ rw (new, new', no_deps, no_users)
      ]
    ];
  }

  fresh-IsClosed : IsClosed (put nodes n.id n)
  unfolding occ
  fresh-IsClosed = record {
    at = λ k j m e absent. elim (fresh-cases k m e) [
      | inl (away, old) ↦ closed.at k j m old (ground (arith, get-put nodes n.id j n))
      | inr (here, new) ↦ rw (new, no_deps, no_users) (refl, refl)
    ];
  }

-- If `AddNode` takes a node that has no edges into a graph whose lists of edges are mirrored and go
-- between nodes of the graph only, they are and do so afterwards.
pub add_node-IsLinked :
    (g g' : Graph) (n : Node)
    → IsLinked g.nodes
    → IsClosed g.nodes
    → n.depends_on ≡ []
    → n.depended_on_by ≡ []
    → add_node g n ≡ ok g'
    → IsLinked g'.nodes × IsClosed g'.nodes
unfolding add_node
add_node-IsLinked g g' n linked closed no_deps no_users e =
    let fresh : get g.nodes n.id ≡ none = ground (arith, e) in
    let e' : put g.nodes n.id n ≡ g'.nodes = ground (arith, e) in
    (
      subst IsLinked e' (fresh-IsLinked g.nodes n fresh closed no_deps no_users linked),
      subst IsClosed e' (fresh-IsClosed g.nodes n fresh closed no_deps no_users),
    )
