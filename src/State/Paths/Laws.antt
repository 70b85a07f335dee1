-- ===== src/State/Paths/Laws.antt =====
-- pkg/state/manager.go: paths whose pieces are names.
use cldctl.Prelude.{
  Bool, List, [], all, append-nil, append_assoc, arith, inl, inr, not, refl, sym, true, ◌&&◌, ◌++◌,
  ◌∷◌, ◌≡◌, ◌≢◌, List-cases, All, ap, false, keep, ◌∙◌, Bool-cases,
}
use cldctl.Text.{Text, codes, same, same_iff, same_refl}
use cldctl.State.Paths.{cons_first, join_slash, resolve, split_slash, clean, is_rooted, path_join}

unfoldable pub is_plain_piece : Text → Bool
is_plain_piece s = not (same s []) && (not (same s (codes ".")) && not (same s (codes "..")))

-- Nothing of the text is changed by `path.Clean`, and it does not start with a slash.
abbrev pub IsClean : Text → Type 0
IsClean t = all is_plain_piece (split_slash t) ≡ true

-- A clean text without a slash.
pub record IsName (t : Text) : Type 0 where
  pub is_clean : IsClean t
  pub single : split_slash t ≡ t ∷ []

pub split-cons : (t : Text) → split_slash t ≢ []
unfolding split_slash cons_first
split-cons [] h = absurd (ground (arith, h))
split-cons (c ∷ cs) h = ground (arith, h, split-cons cs)

pub split-append : (a b : Text) → split_slash (a ++ b'/' ∷ b) ≡ split_slash a ++ split_slash b
unfolding split_slash cons_first
split-append [] b = refl
split-append (c ∷ cs) b = ground (arith, split-append cs b, split-cons cs)

pub join-split : (t : Text) → join_slash (split_slash t) ≡ t
unfolding split_slash cons_first join_slash
join-split [] = refl
join-split (c ∷ cs) = elim (List-cases (split_slash cs)) [
  | inl none_left ↦ absurd (split-cons cs none_left)
  | inr (s, ss, e) ↦ ground (arith, e, join-split cs)
]

pub resolve-plain :
    (rooted : Bool) (out ss : List Text)
    → all is_plain_piece ss ≡ true
    → resolve rooted out ss ≡ out ++ ss
unfolding resolve is_plain_piece all
resolve-plain rooted out [] h = sym (append-nil out)
resolve-plain rooted out (s ∷ ss) h =
    let next = resolve-plain rooted (out ++ s ∷ []) ss (ground (arith, h)) in
    ground (arith, h, next, append_assoc out (s ∷ []) ss)

pub all-append :
    (xs ys : List Text)
    → all is_plain_piece (xs ++ ys) ≡ all is_plain_piece xs && all is_plain_piece ys
unfolding all
all-append [] ys = refl
all-append (x ∷ xs) ys = ground (arith, all-append xs ys)

pub clean-full : (t : Text) → IsClean t → (same t [] ≡ false) × (is_rooted t ≡ false)
unfolding split_slash is_plain_piece all is_rooted same
clean-full [] h = absurd (ground (arith, h))
clean-full (c ∷ cs) h = (refl, ground (arith, h))

pub clean-IsClean : (t : Text) → IsClean t → clean t ≡ t
unfolding clean
clean-IsClean t h =
    let full = clean-full t h in
    let kept : resolve false [] (split_slash t) ≡ split_slash t =
      resolve-plain false [] (split_slash t) h in
    ground (arith, full, kept, join-split t)

unfoldable pub pieces : List Text → List Text
pieces [] = []
pieces (e ∷ es) = split_slash e ++ pieces es

split-join_slash : (e : Text) (es : List Text) → split_slash (join_slash (e ∷ es)) ≡ pieces (e ∷ es)
unfolding join_slash pieces
split-join_slash e [] = sym (append-nil (split_slash e))
split-join_slash e (d ∷ ds) =
    split-append e (join_slash (d ∷ ds)) ∙ ap (λ l. split_slash e ++ l) (split-join_slash d ds)

pieces-plain : (es : List Text) → All IsClean es → all is_plain_piece (pieces es) ≡ true
unfolding pieces all
pieces-plain [] h = refl
pieces-plain (e ∷ es) h =
    ground (arith, all-append (split_slash e) (pieces es), h.0, pieces-plain es h.1)

kept_elems : (es : List Text) → All IsClean es → keep (λ e. not (same e [])) es ≡ es
unfolding keep
kept_elems [] h = refl
kept_elems (e ∷ es) h = ground (arith, clean-full e h.0, kept_elems es h.1)

-- Clean texts are joined without a change.
pub path_join-of_clean :
    (e : Text) (es : List Text)
    → All IsClean (e ∷ es)
    → (path_join (e ∷ es) ≡ join_slash (e ∷ es))
      × (split_slash (path_join (e ∷ es)) ≡ pieces (e ∷ es))
unfolding path_join
path_join-of_clean e es h =
    let plain : IsClean (join_slash (e ∷ es)) =
      ap (all is_plain_piece) (split-join_slash e es) ∙ pieces-plain (e ∷ es) h in
    let joined = clean-IsClean (join_slash (e ∷ es)) plain in
    let opened : path_join (e ∷ es) ≡ clean (join_slash (e ∷ es)) =
      ground (arith, kept_elems (e ∷ es) h) in
    let whole = opened ∙ joined in (whole, ap split_slash whole ∙ split-join_slash e es)

pub is_rooted-append : (d e : Text) → same d [] ≡ false → is_rooted (d ++ e) ≡ is_rooted d
unfolding is_rooted same
is_rooted-append [] e h = absurd (ground (arith, h))
is_rooted-append (c ∷ cs) e h = refl

unfoldable pub same_pieces : List Text → List Text → Bool
same_pieces [] [] = true
same_pieces [] (y ∷ ys) = false
same_pieces (x ∷ xs) [] = false
same_pieces (x ∷ xs) (y ∷ ys) = same x y && same_pieces xs ys

same_pieces_refl : (xs : List Text) → same_pieces xs xs ≡ true
unfolding same_pieces
same_pieces_refl [] = refl
same_pieces_refl (x ∷ xs) = ground (arith, same_refl x, same_pieces_refl xs)

same_pieces→eq : (xs ys : List Text) → same_pieces xs ys ≡ true → xs ≡ ys
unfolding same_pieces
same_pieces→eq [] [] h = refl
same_pieces→eq [] (y ∷ ys) h = absurd (ground (arith, h))
same_pieces→eq (x ∷ xs) [] h = absurd (ground (arith, h))
same_pieces→eq (x ∷ xs) (y ∷ ys) h = ground (arith, same_iff x y, same_pieces→eq xs ys, h)

-- Two paths are the same when their pieces are.
pub same-split : (p q : Text) → same p q ≡ same_pieces (split_slash p) (split_slash q)
same-split p q = elim (Bool-cases (same p q)) [
  | inl equal ↦
      let e : p ≡ q = ground (arith, same_iff p q, equal) in
      ground (
        arith,
        equal,
        ap (λ t. same_pieces (split_slash p) (split_slash t)) e,
        same_pieces_refl (split_slash p),
      )
  | inr apart ↦ elim (Bool-cases (same_pieces (split_slash p) (split_slash q))) [
    | inl both ↦
        let e : p ≡ q =
          sym (join-split p)
          ∙ ap join_slash (same_pieces→eq (split_slash p) (split_slash q) both)
          ∙ join-split q in
        absurd (ground (arith, same_iff p q, e, apart))
    | inr differ ↦ ground (arith, apart, differ)
  ]
]

pub path_join-IsClean :
    (e : Text) (es : List Text) → All IsClean (e ∷ es) → IsClean (path_join (e ∷ es))
path_join-IsClean e es h =
    ap (all is_plain_piece) (path_join-of_clean e es h).1 ∙ pieces-plain (e ∷ es) h
