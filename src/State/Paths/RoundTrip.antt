-- ===== src/State/Paths/RoundTrip.antt =====
-- pkg/state/manager.go: `splitPath` takes apart what `path.Join` put together.
-- What `path.Split` does: there is no slash, or it cuts at the last one.
use cldctl.Prelude.{
  Bool-cases, List, List-cases, [], all, ap, append-nil, append_assoc, arith, false, inl, inr, refl,
  sym, true, ◌++◌, ◌==◌, ◌∷◌, ◌≡◌, ◌⊎◌, length, suc, zero, ℕ, ◌<◌, ◌||◌, length-append, ◌+◌, ◌∙◌,
}
use cldctl.State.Paths.Laws.{
  IsClean, clean-full, is_plain_piece, is_rooted-append, join-split, split-append, all-append,
}
use cldctl.Text.{Text, same, codes}
use cldctl.State.Paths.{
  clean, cons_first, resolve, split_file, split_slash, split_rest, is_rooted, join_slash,
  split_path,
}

pub record IsCut (t : Text) : Type 0 where
  pub dir : Text
  pub file : Text
  pub cut : split_file t ≡ (dir ++ b'/' ∷ [], file)
  pub whole : t ≡ dir ++ b'/' ∷ file
  pub last : split_slash file ≡ file ∷ []

IsUncut : Text → Type 0
IsUncut t = (split_file t ≡ ([], t)) × (split_slash t ≡ t ∷ [])

split_file-cases : (t : Text) → IsUncut t ⊎ IsCut t
unfolding IsUncut split_file split_slash cons_first
split_file-cases [] = inl (refl, refl)
split_file-cases (c ∷ cs) = elim (Bool-cases (c == b'/')) [
  | inl slash ↦ elim (split_file-cases cs) [
    | inl uncut ↦ inr (record {
      dir = [];
      file = cs;
      cut = ground (arith, slash, uncut.0);
      whole = ground (arith, slash);
      last = uncut.1;
    })
    | inr h ↦ inr (record {
      dir = c ∷ h.dir;
      file = h.file;
      cut = ground (arith, slash, h.cut);
      whole = ap (λ (l : Text). c ∷ l) h.whole;
      last = h.last;
    })
  ]
  | inr other ↦ elim (split_file-cases cs) [
    | inl uncut ↦ inl (ground (arith, other, uncut.0), ground (arith, other, uncut.1))
    | inr h ↦ inr (record {
      dir = c ∷ h.dir;
      file = h.file;
      cut = elim (List-cases h.dir) [
        | inl empty ↦ ground (arith, other, h.cut, empty)
        | inr (x, xs, e) ↦ ground (arith, other, h.cut, e)
      ];
      whole = ap (λ (l : Text). c ∷ l) h.whole;
      last = h.last;
    })
  ]
]

resolve-trailing :
    (out ss : List Text)
    → all is_plain_piece ss ≡ true
    → resolve false out (ss ++ [] ∷ []) ≡ out ++ ss
unfolding resolve is_plain_piece all same
resolve-trailing out [] h = sym (append-nil out)
resolve-trailing out (s ∷ ss) h =
    let next = resolve-trailing (out ++ s ∷ []) ss (ground (arith, h)) in
    ground (arith, h, next, append_assoc out (s ∷ []) ss)

clean-trailing : (d : Text) → IsClean d → clean (d ++ b'/' ∷ []) ≡ d
unfolding clean split_slash
clean-trailing d h =
    let full = clean-full d h in
    let split : split_slash (d ++ b'/' ∷ []) ≡ split_slash d ++ [] ∷ [] = split-append d [] in
    let kept : resolve false [] (split_slash d ++ [] ∷ []) ≡ split_slash d =
      resolve-trailing [] (split_slash d) h in
    ground (arith, full, is_rooted-append d (b'/' ∷ []) full.0, split, kept, join-split d)

stop_at_dot : (fuel : ℕ) (parts : List Text) → split_rest fuel (codes ".") parts ≡ parts
unfolding split_rest same
stop_at_dot zero parts = refl
stop_at_dot (suc fuel) parts = refl

full_piece : (f : Text) → IsClean f → same f [] ≡ false
unfolding same is_plain_piece all
full_piece f h = (clean-full f h).0

goes_on : (p : Text) → IsClean p → (same p [] || (same p (codes ".") || same p (codes "/"))) ≡ false
unfolding split_slash is_plain_piece all same
goes_on [] h = absurd (ground (arith, h))
goes_on (c ∷ []) h = ground (arith, h)
goes_on (c ∷ d ∷ p) h = ground (arith, h)

clean_nothing : clean [] ≡ codes "."
unfolding clean split_slash resolve join_slash is_rooted same
clean_nothing = refl

-- Both sides of the cut are clean.
cut-IsClean : (p : Text) (cut : IsCut p) → IsClean p → IsClean cut.dir × IsClean cut.file
unfolding all
cut-IsClean p cut h =
    let both : split_slash p ≡ split_slash cut.dir ++ split_slash cut.file =
      ap split_slash cut.whole ∙ split-append cut.dir cut.file in
    let plain = sym (ap (all is_plain_piece) both) ∙ h in
    let each = all-append (split_slash cut.dir) (split_slash cut.file) in
    (ground (arith, plain, each), ground (arith, plain, each))

split_rest-IsClean :
    (fuel : ℕ) (p : Text) (parts : List Text)
    → IsClean p
    → length p < fuel
    → split_rest fuel p parts ≡ split_slash p ++ parts
unfolding split_rest IsUncut
split_rest-IsClean zero p parts h enough = absurd (omega (arith, enough))
split_rest-IsClean (suc fuel) p parts h enough = elim (split_file-cases p) [
  | inl uncut ↦ ground (
    arith,
    goes_on p h,
    full_piece p h,
    uncut.0,
    uncut.1,
    clean_nothing,
    stop_at_dot fuel (p ∷ parts),
  )
  | inr cut ↦
      let both : split_slash p ≡ split_slash cut.dir ++ cut.file ∷ [] =
        ap split_slash cut.whole
        ∙ split-append cut.dir cut.file
        ∙ ap (λ l. split_slash cut.dir ++ l) cut.last in
      let plain = cut-IsClean p cut h in
      let shorter : length cut.dir < fuel =
        ground (arith, enough, ap length cut.whole, length-append cut.dir (b'/' ∷ cut.file)) in
      let rest = split_rest-IsClean fuel cut.dir (cut.file ∷ parts) (plain.0) shorter in
      ground (
        arith,
        goes_on p h,
        full_piece cut.file (plain.1),
        cut.cut,
        clean-trailing cut.dir (plain.0),
        rest,
        both,
        append_assoc (split_slash cut.dir) (cut.file ∷ []) parts,
      )
]

pub split_path-IsClean : (p : Text) → IsClean p → split_path p ≡ split_slash p
unfolding split_path
split_path-IsClean p h =
    split_rest-IsClean (length p + 1) p [] h (omega arith) ∙ append-nil (split_slash p)
