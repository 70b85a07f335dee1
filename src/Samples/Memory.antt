-- ===== src/Samples/Memory.antt =====
-- A file system in memory, for the witnesses: files by their paths, and no directories.
use cldctl.Prelude.{
  All, Bool, Bool-cases, List, Option-cases, [], all, ap, arith, if◌then◌else◌, if_cases, inl, inr,
  keep, map, none, not, refl, some, ◌&&◌, ◌++◌, ◌==◌, ◌∷◌, ◌≡◌, ◌≢◌, Option,
}
use cldctl.Dict.{Dict, get, has, keys, put, remove}
use cldctl.Dict.Laws.{get-put, get-remove}
use cldctl.Prelude.Results.{Result, err, ok}
use cldctl.State.Backend.{
  Backend, IsListing, IsStore, LockInfo, is_found, is_under, not_decoded, starts_with, StateError,
  not_found,
}
use cldctl.State.Manager.{Codec}
use cldctl.State.Local.{
  Disk, collect_files, delete_file, fill_temp, first_error, full_path, list_files, local_backend,
  read_file, remove_full, write_file, write_full,
}
use cldctl.State.Os.{IsRemoving, IsSparing, Os, failed, file, not_exist}
use cldctl.State.Paths.{clean, join_slash, path_join, split_file, split_slash}
use cldctl.State.Paths.Laws.{IsClean, clean-IsClean, is_plain_piece}
use cldctl.Text.{Text, codes, same, same_iff, same_refl}
use cldctl.Text.Sort.{occ}
use mathlib.Core.Path.{subst}
use cldctl.Samples.Sorting.{apart}
use cldctl.State.Local.Writes.{write_file-error}

-- The clean keys that pass a test.
abbrev pub clean_keys : (Text → Bool) → Dict Text → List Text
clean_keys f files = keep (λ q. all is_plain_piece (split_slash q) && f q) (keys files)

pub occ-clean_keys :
    (f : Text → Bool) (q : Text) (files : Dict Text)
    → IsClean q
    → not (occ q (clean_keys f files) == 0) ≡ f q && has files q
unfolding keep occ keys get
occ-clean_keys f q [] h = ground arith
occ-clean_keys f q ((j, content) ∷ files) h = elim (Bool-cases (same q j)) [
  | inl here ↦
      let e : q ≡ j = ground (arith, same_iff q j, here) in
      ground (
        arith,
        occ-clean_keys f q files h,
        here,
        h,
        same_iff j q,
        ap f e,
        ap (λ t. all is_plain_piece (split_slash t)) e,
      )
  | inr apart ↦ ground (arith, occ-clean_keys f q files h, apart, same_iff j q, same_iff q j)
]

pub clean_keys-IsClean : (f : Text → Bool) (files : Dict Text) → All IsClean (clean_keys f files)
unfolding keep keys
clean_keys-IsClean f [] = tt
clean_keys-IsClean f ((j, content) ∷ files) =
    if_cases (All IsClean) (all is_plain_piece (split_slash j) && f j)
      (λ e. (ground (arith, e), clean_keys-IsClean f files)) (λ e. clean_keys-IsClean f files)

abbrev temp_in : Text → Text
temp_in d = d ++ codes "/.cldctl-state-0"

-- A write to a file that cannot be read afterwards does not happen here: only a temporary file whose
-- name is taken, or a missing source or target, is an error.
abbrev pub memory : Os (Dict Text)
memory = record {
  dir = λ p. clean ((split_file p).0);
  rel = λ base p. p;
  mkdir_all = λ fs d. (fs, none);
  create_temp = λ fs d.
      if has fs (temp_in d)
      then (fs, err (failed (codes "taken")))
      else (put fs (temp_in d) [], ok (temp_in d));
  copy_to = λ fs t content. (put fs t content, none);
  close = λ fs t. (fs, none);
  rename = λ fs t target. elim (get fs t) [
    | none ↦ (fs, some not_exist)
    | some content ↦ (put (remove fs t) target content, none)
  ];
  remove = λ fs p. if has fs p then (remove fs p, none) else (fs, some not_exist);
  read = λ fs p. elim (get fs p) [ none ↦ err not_exist | some content ↦ ok content ];
  write = λ fs p content. (put fs p content, none);
  stat = λ fs p. if has fs p then none else some not_exist;
  walk = λ fs p. map (λ q. (q, file)) (clean_keys (is_under p) fs);
}

pub memory-IsRemoving : IsRemoving memory
memory-IsRemoving = record {
  removed = λ fs p h. ground (arith, get-remove fs p p, same_refl p, h);
  absent = λ fs p h. ground (arith, get-remove fs p p, same_refl p, h);
}

pub memory-IsSparing : IsSparing memory
memory-IsSparing = record {
  mkdir_keeps = λ fs d p c h. h;
  temp_keeps = λ fs d p c h. ground (arith, get-put fs (temp_in d) p [], same_iff (temp_in d) p, h);
  temp_new = λ fs d t c h e. ground (arith, h, e);
  copy_keeps = λ fs t c p apart d h. ground (arith, get-put fs t p c, same_iff t p, apart, h);
  copied = λ fs t c h. ground (arith, get-put fs t t c, same_refl t);
  close_keeps = λ fs t p c h. h;
  rename_keeps = λ fs t target p apart elsewhere c h. elim (Option-cases (get fs t)) [
    | inl absent ↦ ground (arith, absent, h)
    | inr (moved, there) ↦
        let other_file : p ≢ target = elsewhere (ground (arith, there)) in
        ground (
          arith,
          there,
          h,
          get-put (remove fs t) target p moved,
          get-remove fs t p,
          same_iff target p,
          same_iff t p,
          apart,
          other_file,
        )
  ];
  renamed = λ fs t target c h r. elim (Option-cases (get fs t)) [
    | inl absent ↦ absurd (ground (arith, absent, r))
    | inr (moved, there) ↦
        ground (arith, there, r, get-put (remove fs t) target target moved, same_refl target)
  ];
  remove_keeps = λ fs t p apart c h. ground (arith, get-remove fs t p, same_iff t p, apart, h);
}

module _ (fs : Dict Text) (full content : Text) where
  write-memory :
      (write_full memory fs full content).1 ≡ none
      → (q : Text)
      → get (write_full memory fs full content).0 q
        ≡ (if same full q then some content else get fs q)
  unfolding write_full fill_temp first_error
  write-memory h q =
      let t = temp_in (clean ((split_file full).0)) in
      let fs' = put fs t [] in
      let fs'' = put fs' t content in
      ground (
        arith,
        h,
        get-put fs t q [],
        get-put fs' t q content,
        get-put fs' t t content,
        same_refl t,
        get-remove fs'' t q,
        get-put (remove fs'' t) full q content,
        same_iff t q,
      )

full-memory : (p : Text) → IsClean p → full_path memory [] p ≡ p
unfolding full_path path_join keep join_slash same
full-memory [] h = refl
full-memory (c ∷ p) h = clean-IsClean (c ∷ p) h

collect-memory : (qs : List Text) → collect_files memory [] (map (λ q. (q, file)) qs) ≡ ok qs
unfolding collect_files
collect-memory [] = refl
collect-memory (q ∷ qs) = rw (collect-memory qs) refl

abbrev found : Option Text → Result StateError Text
found none = err not_found
found (some content) = ok content

read-memory :
    (disk : Disk (Dict Text)) (q : Text)
    → IsClean q
    → read_file memory [] disk q ≡ found (get disk.files q)
unfolding read_file
read-memory disk q h = rw (full-memory q h, read_file) (ground arith)

module _ (disk : Disk (Dict Text)) (p : Text) (hp : IsClean p) where
  write_file-memory :
      (content : Text)
      → (write_file memory [] disk p content).1 ≡ none
      → (q : Text)
      → get (write_file memory [] disk p content).0.files q
        ≡ (if same p q then some content else get disk.files q)
  unfolding write_file
  write_file-memory content h q =
      let fine : (write_full memory disk.files p content).1 ≡ none =
        subst (λ f. (write_full memory disk.files f content).1 ≡ none) (full-memory p hp)
          (write_file-error memory [] disk p content h) in
      rw (full-memory p hp) (write-memory disk.files p content fine q)

  delete_file-memory :
      (q : Text)
      → get (delete_file memory [] disk p).0.files q ≡ (if same p q then none else get disk.files q)
  unfolding delete_file remove_full
  delete_file-memory q =
      rw (full-memory p hp) (ground (arith, get-remove disk.files p q, same_iff p q))

abbrev pub lock_codec : Codec LockInfo
lock_codec = record { encode = λ x. ok x.who; decode = λ t. err not_decoded }

abbrev pub disk_backend : Backend (Disk (Dict Text))
disk_backend = local_backend memory [] lock_codec 0 (codes "id")

pub disk_backend-IsStore : IsStore disk_backend
unfolding local_backend
disk_backend-IsStore = record {
  written = λ disk p content hp h q hq. ground (
    arith,
    read-memory disk q hq,
    read-memory (write_file memory [] disk p content).0 q hq,
    write_file-memory disk p hp content h q,
  );
  deleted = λ disk p hp h q hq. ground (
    arith,
    read-memory disk q hq,
    read-memory (delete_file memory [] disk p).0 q hq,
    delete_file-memory disk p hp q,
  );
}

list_files-memory :
    (disk : Disk (Dict Text)) (p : Text)
    → list_files memory [] disk p ≡ ok (clean_keys (is_under (full_path memory [] p)) disk.files)
unfolding list_files
list_files-memory disk p =
    rw (collect-memory (clean_keys (is_under (full_path memory [] p)) disk.files), list_files) refl

pub disk_backend-IsListing : IsListing disk_backend is_under
unfolding local_backend is_found
disk_backend-IsListing = record {
  listed = λ disk p paths hp h q hq. ground (
    arith,
    read-memory disk q hq,
    list_files-memory disk p,
    full-memory p hp,
    occ-clean_keys (is_under p) q disk.files hq,
    h,
  );
  all_clean = λ disk p paths h.
      subst (All IsClean) (ground (arith, list_files-memory disk p, h))
        (clean_keys-IsClean (is_under (full_path memory [] p)) disk.files);
}

-- A bucket: keys are listed by a prefix.
abbrev pub bucket_backend : Backend (Disk (Dict Text))
bucket_backend = record disk_backend { list = λ disk p. ok (clean_keys (starts_with p) disk.files) }

pub bucket_backend-IsStore : IsStore bucket_backend
bucket_backend-IsStore = record {
  written = disk_backend-IsStore.written;
  deleted = disk_backend-IsStore.deleted;
}

pub bucket_backend-IsListing : IsListing bucket_backend starts_with
unfolding local_backend is_found
bucket_backend-IsListing = record {
  listed = λ disk p paths hp h q hq.
      ground (arith, read-memory disk q hq, occ-clean_keys (starts_with p) q disk.files hq, h);
  all_clean = λ disk p paths h.
      subst (All IsClean) (ground (arith, h)) (clean_keys-IsClean (starts_with p) disk.files);
}
