-- ===== src/State/Views.antt =====
-- pkg/state/manager.go: what reading sees after the operations that write and delete.
use cldctl.State.Backend.{
  Backend, IsListing, IsStore, not_found, StateError, is_found, locked, not_decoded, not_deleted,
  not_encoded, other,
}
use cldctl.Prelude.{
  Bool, List, Option-cases, [], arith, false, if◌then◌else◌, inl, inr, none, ◌==◌, ◌∷◌, ◌≡◌, Option,
  ap, refl, sym, ◌∙◌, All,
}
use cldctl.State.Manager.{Codec, delete_all, delete_under, read_json, write_json}
use cldctl.Text.{Text, same, same_iff, same_refl}
use cldctl.Prelude.Results.{err, ok, Result, Result-cases}
use cldctl.Text.Sort.{occ}
use cldctl.State.Paths.Laws.{IsClean}

not_found_of : (r : Result StateError Text) → is_found r ≡ false → r ≡ err not_found
unfolding is_found
not_found_of (ok content) h = absurd (ground (arith, h))
not_found_of (err not_found) h = refl
not_found_of (err (locked who operation)) h = absurd (ground (arith, h))
not_found_of (err not_encoded) h = absurd (ground (arith, h))
not_found_of (err not_decoded) h = absurd (ground (arith, h))
not_found_of (err (not_deleted p e)) h = absurd (ground (arith, h))
not_found_of (err (other m)) h = absurd (ground (arith, h))

module _ {S : Type 0} (b : Backend S) (store : IsStore b) where
  delete_all-read :
      (paths : List Text) (s : S)
      → All IsClean paths
      → (delete_all b paths s).1 ≡ none
      → (q : Text) → IsClean q
      → b.read (delete_all b paths s).0 q ≡ (if occ q paths == 0 then b.read s q else err not_found)
  unfolding delete_all occ
  delete_all-read [] s c h q hq = ground arith
  delete_all-read (p ∷ paths) s c h q hq = elim (Option-cases (b.delete s p).1) [
    | inl fine ↦
        let rest = delete_all-read paths (b.delete s p).0 c.1 (ground (arith, fine, h)) q hq in
        ground (arith, fine, rest, store.deleted s p c.0 fine q hq, same_iff p q, same_iff q p)
    | inr (e, failed) ↦ absurd (ground (arith, failed, h))
  ]

  -- After a deletion of all that belongs to a path, nothing of it is found.
  pub delete_under-read :
      (belongs : Text → Text → Bool)
      → IsListing b belongs
      → (p : Text) (s : S) → IsClean p
      → (delete_under b p s).1 ≡ none
      → (q : Text) → IsClean q
      → b.read (delete_under b p s).0 q ≡ (if belongs p q then err not_found else b.read s q)
  unfolding delete_under
  delete_under-read belongs listing p s hp h q hq = elim (Result-cases (b.list s p)) [
    | inl (e, failed) ↦ absurd (ground (arith, failed, h))
    | inr (paths, e) ↦
        let after : delete_under b p s ≡ delete_all b paths s = ground (arith, e) in
        let rest =
          delete_all-read paths s (listing.all_clean s p paths e)
            (sym (ap (λ (r : S × Option StateError). r.1) after) ∙ h) q hq in
        ap (λ (r : S × Option StateError). b.read r.0 q) after
        ∙ ground (arith, rest, listing.listed s p paths hp e q hq, not_found_of (b.read s q))
  ]

  -- What is read at a path after a document was written to it.
  pub write_json-same :
      {T : Type 0} (codec : Codec T) (s : S) (p : Text) (x : T)
      → IsClean p
      → ((content : Text) → codec.encode x ≡ ok content → codec.decode content ≡ ok x)
      → (write_json b codec s p x).1 ≡ none
      → read_json b codec (write_json b codec s p x).0 p ≡ ok x
  unfolding write_json read_json
  write_json-same codec s p x hp coded h = elim (Result-cases (codec.encode x)) [
    | inl (e, failed) ↦ absurd (ground (arith, failed, h))
    | inr (content, e) ↦ ground (
      arith,
      e,
      h,
      store.written s p content hp (ground (arith, e, h)) p hp,
      same_refl p,
      coded content e,
    )
  ]

  pub write_json-other :
      {T U : Type 0} (codec : Codec T) (codec' : Codec U) (s : S) (p q : Text) (x : T)
      → IsClean p
      → IsClean q
      → (write_json b codec s p x).1 ≡ none
      → same p q ≡ false
      → read_json b codec' (write_json b codec s p x).0 q ≡ read_json b codec' s q
  unfolding write_json read_json
  write_json-other codec codec' s p q x hp hq h apart = elim (Result-cases (codec.encode x)) [
    | inl (e, failed) ↦ absurd (ground (arith, failed, h))
    | inr (content, e) ↦
        ground (arith, e, h, store.written s p content hp (ground (arith, e, h)) q hq, apart)
  ]
