-- ===== src/Expression/Printing.antt =====
-- pkg/engine/expression/parser.go: printing of references, and lemmas on the parser's loops.
-- The bytes of a piece of a path, and those of a word of a pipe.
use cldctl.Prelude.{
  All, Bool, List, [], all, ap, arith, false, keep, not, refl, true, ℕ, ◌&&◌, ◌++◌, ◌==◌, ◌∙◌, ◌∷◌,
  ◌≡◌,
}
use cldctl.Expression.{PipeFunc, Reference}
use cldctl.Text.{Text, codes, same}
use cldctl.Expression.Parser.{dotted, is_quote, split_on}
use cldctl.Expression.Functions.{is_space, join_with, trim_left, trim_right}

unfoldable pub is_path_byte : ℕ → Bool
is_path_byte c =
    not (is_space c)
    && (not (c == b'|') && (not (c == b'.') && (not (c == b'[') && not (c == b']'))))

unfoldable pub is_word_byte : ℕ → Bool
is_word_byte c = not (is_space c) && (not (c == b'|') && not (is_quote c))

abbrev pub IsPiece : Text → Type 0
IsPiece t = all is_path_byte t ≡ true

-- A word is not empty.
abbrev pub IsWord : Text → Type 0
IsWord t = (all is_word_byte t ≡ true) × (same t [] ≡ false)

-- A reference in the syntax of the parser.
unfoldable pub print_pipes : List PipeFunc → Text
unfolding join_with
print_pipes [] = []
print_pipes (f ∷ fs) = b'|' ∷ (join_with (codes " ") (f.name ∷ f.args) ++ print_pipes fs)

unfoldable pub print_reference : Reference → Text
unfolding join_with print_pipes
print_reference ref = join_with (codes ".") ref.path ++ print_pipes ref.pipe

abbrev pub IsFree : ℕ → Text → Type 0
IsFree c t = all (λ d. not (d == c)) t ≡ true

pub split_on-free : (c : ℕ) (a : Text) → IsFree c a → split_on c a ≡ a ∷ []
unfolding split_on all
split_on-free c [] h = refl
split_on-free c (d ∷ a) h = ground (arith, split_on-free c a, h)

pub split_on-cut : (c : ℕ) (a b : Text) → IsFree c a → split_on c (a ++ c ∷ b) ≡ a ∷ split_on c b
unfolding split_on all
split_on-cut c [] b h = ground arith
split_on-cut c (d ∷ a) b h = ground (arith, split_on-cut c a b, h)

-- A test that holds of all bytes.
pub all_bytes-append : (p : ℕ → Bool) (a b : Text) → all p (a ++ b) ≡ all p a && all p b
unfolding all
all_bytes-append p [] b = refl
all_bytes-append p (c ∷ a) b = ground (arith, all_bytes-append p a b)

pub all_bytes_mono :
    (p q : ℕ → Bool)
    → ((c : ℕ) → p c ≡ true → q c ≡ true)
    → (t : Text) → all p t ≡ true
    → all q t ≡ true
unfolding all
all_bytes_mono p q f [] h = refl
all_bytes_mono p q f (c ∷ t) h =
    ground (arith, f c (ground (arith, h)), all_bytes_mono p q f t (ground (arith, h)))

piece-IsFree : (t : Text) → IsPiece t → IsFree (b'.') t
unfolding is_path_byte
piece-IsFree t h = all_bytes_mono is_path_byte (λ d. not (d == b'.')) (λ c e. ground (arith, e)) t h

pub split-path :
    (p : Text) (ps : List Text)
    → All IsPiece (p ∷ ps)
    → split_on (b'.') (join_with (codes ".") (p ∷ ps)) ≡ p ∷ ps
unfolding join_with
split-path p [] h = split_on-free (b'.') p (piece-IsFree p h.0)
split-path p (q ∷ ps) h =
    split_on-cut (b'.') p (join_with (codes ".") (q ∷ ps)) (piece-IsFree p h.0)
    ∙ ap (λ l. p ∷ l) (split-path q ps h.1)

-- What a test says of words with a separator between them.
pub join-all :
    (p : ℕ → Bool) (sep : ℕ) (w : Text) (ws : List Text)
    → p sep ≡ true
    → All (λ t. all p t ≡ true) (w ∷ ws)
    → all p (join_with (sep ∷ []) (w ∷ ws)) ≡ true
unfolding join_with all
join-all p sep w [] s h = h.0
join-all p sep w (v ∷ ws) s h = ground (
  arith,
  all_bytes-append p w (sep ∷ join_with (sep ∷ []) (v ∷ ws)),
  h.0,
  s,
  join-all p sep v ws s h.1,
)

pub dotted-same : (t : Text) → all (λ c. not (c == b'[') && not (c == b']')) t ≡ true → dotted t ≡ t
unfolding dotted keep all
dotted-same [] h = refl
dotted-same (c ∷ t) h = ground (arith, dotted-same t, h)

pub trim_left-full : (t : Text) → all (λ c. not (is_space c)) t ≡ true → trim_left t ≡ t
unfolding trim_left all
trim_left-full [] h = refl
trim_left-full (c ∷ t) h = ground (arith, h)

pub trim_right-full : (t : Text) → all (λ c. not (is_space c)) t ≡ true → trim_right t ≡ t
unfolding trim_right all
trim_right-full [] h = refl
trim_right-full (c ∷ t) h = ground (arith, h, trim_right-full t)
