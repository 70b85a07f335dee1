-- ===== src/Expression/RoundTrip.antt =====
-- pkg/engine/expression/parser.go: the parser reads back what was printed.
use cldctl.Prelude.{
  All, List, [], all, ap, append-nil, append_assoc, arith, false, map, not, refl, true, ◌++◌, ◌∙◌,
  ◌∷◌, ◌≡◌, Bool, ℕ, ◌&&◌, ◌==◌,
}
use cldctl.Expression.Printing.{
  IsWord, all_bytes_mono, is_word_byte, trim_right-full, IsFree, IsPiece, dotted-same, is_path_byte,
  join-all, print_pipes, print_reference, split-path, split_on-cut, split_on-free, trim_left-full,
}
use cldctl.Text.{Text, codes, same}
use cldctl.Expression.Parser.{
  fields_from, trim_quotes, trim_quotes_left, trim_quotes_right, dotted, parse_path,
  parse_pipe_func, parse_pipes, parse_reference, split_on,
}
use cldctl.Expression.Functions.{is_space, join_with, trim_right, trim_left, trim_space}
use cldctl.Executor.Port.{word}
use cldctl.Executor.Parallel.Invariant.{All-mono}
use cldctl.Expression.{PipeFunc}
use cldctl.Prelude.Results.{ok}
use cldctl.State.Paths.Laws.{pieces}

fields-word :
    (word w : Text)
    → all is_word_byte w ≡ true
    → same (word ++ w) [] ≡ false
    → fields_from word w ≡ (word ++ w) ∷ []
unfolding fields_from all is_word_byte
fields-word word [] h full = ground (arith, full, append-nil word)
fields-word word (c ∷ w) h full =
    let whole = append_assoc word (c ∷ []) w in
    ground (
      arith,
      h,
      whole,
      fields-word (word ++ c ∷ []) w (ground (arith, h)) (ap (λ t. same t []) whole ∙ full),
    )

fields-cut :
    (word w r : Text)
    → all is_word_byte w ≡ true
    → same (word ++ w) [] ≡ false
    → fields_from word (w ++ b' ' ∷ r) ≡ (word ++ w) ∷ fields_from [] r
unfolding fields_from all is_word_byte is_space
fields-cut word [] r h full = ground (arith, full, append-nil word)
fields-cut word (c ∷ w) r h full =
    let whole = append_assoc word (c ∷ []) w in
    ground (
      arith,
      h,
      whole,
      fields-cut (word ++ c ∷ []) w r (ground (arith, h)) (ap (λ t. same t []) whole ∙ full),
    )

fields-join :
    (w : Text) (ws : List Text)
    → All IsWord (w ∷ ws)
    → fields_from [] (join_with (codes " ") (w ∷ ws)) ≡ w ∷ ws
unfolding join_with
fields-join w [] h = fields-word [] w h.0.0 h.0.1
fields-join w (v ∷ ws) h =
    fields-cut [] w (join_with (codes " ") (v ∷ ws)) h.0.0 h.0.1
    ∙ ap (λ l. w ∷ l) (fields-join v ws h.1)

quotes-left : (w : Text) → all is_word_byte w ≡ true → trim_quotes_left w ≡ w
unfolding trim_quotes_left all is_word_byte
quotes-left [] h = refl
quotes-left (c ∷ w) h = ground (arith, h)

quotes-right : (w : Text) → all is_word_byte w ≡ true → trim_quotes_right w ≡ w
unfolding trim_quotes_right all is_word_byte
quotes-right [] h = refl
quotes-right (c ∷ w) h = ground (arith, h, quotes-right w)

trim_quotes-word : (w : Text) → all is_word_byte w ≡ true → trim_quotes w ≡ w
unfolding trim_quotes
trim_quotes-word w h = ap trim_quotes_right (quotes-left w h) ∙ quotes-right w h

args-same : (ws : List Text) → All IsWord ws → map trim_quotes ws ≡ ws
args-same [] h = refl
args-same (w ∷ ws) h = ground (arith, trim_quotes-word w h.0.0, args-same ws h.1)

-- Nothing is trimmed from words with single spaces between them.
EndsWell : Text → Type 0
EndsWell t = (trim_right t ≡ t) × (same t [] ≡ false)

append_full : (w t : Text) → same t [] ≡ false → same (w ++ t) [] ≡ false
unfolding same
append_full [] t h = h
append_full (c ∷ w) t h = refl

no_spaces : (w : Text) → all is_word_byte w ≡ true → all (λ c. not (is_space c)) w ≡ true
unfolding is_word_byte
no_spaces w h = all_bytes_mono is_word_byte (λ c. not (is_space c)) (λ c e. ground (arith, e)) w h

trim_right-behind : (w t : Text) → EndsWell t → trim_right (w ++ t) ≡ w ++ t
unfolding EndsWell trim_right same
trim_right-behind [] t h = h.0
trim_right-behind (c ∷ w) t h = ground (arith, trim_right-behind w t h, append_full w t h.1)

trim_right-join :
    (w : Text) (ws : List Text) → All IsWord (w ∷ ws) → EndsWell (join_with (codes " ") (w ∷ ws))
unfolding join_with EndsWell same
trim_right-join w [] h = (trim_right-full w (no_spaces w h.0.0), h.0.1)
trim_right-join w (v ∷ ws) h =
    let rest = trim_right-join v ws h.1 in
    let t = join_with (codes " ") (v ∷ ws) in
    (
      trim_right-behind w (b' ' ∷ t) (trim_right-behind (b' ' ∷ []) t rest, refl),
      append_full w (b' ' ∷ t) refl,
    )

trim_left-join :
    (w : Text) (ws : List Text)
    → IsWord w
    → trim_left (join_with (codes " ") (w ∷ ws)) ≡ join_with (codes " ") (w ∷ ws)
unfolding trim_left join_with all is_word_byte same
trim_left-join [] ws h = absurd (ground (arith, h.1))
trim_left-join (c ∷ w) [] h = ground (arith, h.0)
trim_left-join (c ∷ w) (v ∷ ws) h = ground (arith, h.0)

-- The words of a pipe.
abbrev words_of : PipeFunc → List Text
words_of f = f.name ∷ f.args

abbrev print_pipe : PipeFunc → Text
print_pipe f = join_with (codes " ") (words_of f)

parse-pipe :
    (f : PipeFunc) → All IsWord (words_of f) → parse_pipe_func (trim_space (print_pipe f)) ≡ ok f
unfolding parse_pipe_func trim_space EndsWell
parse-pipe f h =
    let trimmed : trim_right (trim_left (print_pipe f)) ≡ print_pipe f =
      ap trim_right (trim_left-join f.name f.args h.0) ∙ (trim_right-join f.name f.args h).0 in
    let read : fields_from [] (trim_right (trim_left (print_pipe f))) ≡ words_of f =
      ap (fields_from []) trimmed ∙ fields-join f.name f.args h in
    ground (arith, read, args-same f.args h.1)

parse-pipes :
    (fs : List PipeFunc)
    → All (λ f. All IsWord (words_of f)) fs
    → parse_pipes (map print_pipe fs) ≡ ok fs
unfolding parse_pipes
parse-pipes [] h = refl
parse-pipes (f ∷ fs) h = ground (arith, parse-pipe f h.0, parse-pipes fs h.1)

no_bars : (f : PipeFunc) → All IsWord (words_of f) → IsFree (b'|') (print_pipe f)
unfolding is_word_byte
no_bars f h =
    join-all (λ d. not (d == b'|')) (b' ') f.name f.args refl
      (All-mono
        (λ w e. all_bytes_mono is_word_byte (λ d. not (d == b'|')) (λ c k. ground (arith, k)) w e.0)
        (words_of f) h)

split-pipes :
    (t : Text) (fs : List PipeFunc)
    → IsFree (b'|') t
    → All (λ f. All IsWord (words_of f)) fs
    → split_on (b'|') (t ++ print_pipes fs) ≡ t ∷ map print_pipe fs
unfolding print_pipes
split-pipes t [] free h = ap (split_on (b'|')) (append-nil t) ∙ split_on-free (b'|') t free
split-pipes t (f ∷ fs) free h =
    split_on-cut (b'|') t (print_pipe f ++ print_pipes fs) free
    ∙ ap (λ l. t ∷ l) (split-pipes (print_pipe f) fs (no_bars f h.0) h.1)

-- What holds of the bytes of pieces, and of a dot, holds of a path.
path-all :
    (q : ℕ → Bool) (p : Text) (ps : List Text)
    → ((c : ℕ) → is_path_byte c ≡ true → q c ≡ true)
    → q (b'.') ≡ true
    → All IsPiece (p ∷ ps)
    → all q (join_with (codes ".") (p ∷ ps)) ≡ true
path-all q p ps f dot h =
    join-all q (b'.') p ps dot (All-mono (λ t e. all_bytes_mono is_path_byte q f t e) (p ∷ ps) h)

parse-path :
    (p : Text) (ps : List Text)
    → All IsPiece (p ∷ ps)
    → parse_path (trim_space (join_with (codes ".") (p ∷ ps))) ≡ p ∷ ps
unfolding parse_path trim_space is_path_byte is_space
parse-path p ps h =
    let t = join_with (codes ".") (p ∷ ps) in
    let spaceless = path-all (λ c. not (is_space c)) p ps (λ c e. ground (arith, e)) refl h in
    let trimmed : trim_right (trim_left t) ≡ t =
      ap trim_right (trim_left-full t spaceless) ∙ trim_right-full t spaceless in
    let whole =
      dotted-same t (
        path-all (λ c. not (c == b'[') && not (c == b']')) p ps (λ c e. ground (arith, e)) refl
          h) in
    ap (λ u. split_on (b'.') (dotted u)) trimmed ∙ ap (split_on (b'.')) whole ∙ split-path p ps h

-- The parser reads a printed reference back: a path of at least one piece, where no piece has a space,
-- a dot, a bar or a bracket, and pipes of words, which are not empty and have no space, bar or quote.
pub parse_reference-print_reference :
    (p : Text) (ps : List Text) (fs : List PipeFunc)
    → All IsPiece (p ∷ ps)
    → All (λ f. All IsWord (f.name ∷ f.args)) fs
    → parse_reference (print_reference (record { path = p ∷ ps; pipe = fs }))
      ≡ ok (record { path = p ∷ ps; pipe = fs })
unfolding parse_reference print_reference is_path_byte
parse_reference-print_reference p ps fs pieces words =
    let t = join_with (codes ".") (p ∷ ps) in
    let split =
      split-pipes t fs (path-all (λ d. not (d == b'|')) p ps (λ c e. ground (arith, e)) refl pieces)
        words in
    ground (arith, split, parse-pipes fs words, parse-path p ps pieces)
