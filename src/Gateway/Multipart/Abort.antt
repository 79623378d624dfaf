-- ===== src/Gateway/Multipart/Abort.antt =====
-- `HandleAbortMultipartUpload` of internal/gateway/multipart.go on an upload of another key.
use cipher_lake.Prelude.{
  any, subst, sym, ◌∙◌, nat_beq, nat_beq_iff, bytes, ℕ, true, false, none, List, [], ◌∷◌, Str,
  str_eq, is_nil, lookup, if◌then◌else◌, ◌≡◌, arith, refl, ap, not, ◌&&◌, Bool, Bool-cases, inl,
  inr,
}
use cipher_lake.Gateway.Multipart.{
  Tools, part_key, part_same, part_same_iff, without_files, UploadPlace, all_uploads, one_upload,
  elsewhere, is_in, upload_dir, path_parts, clean_parts, UploadRequest, MultipartState, get_upload,
  delete_upload,
}
use cipher_lake.Gateway.Multipart.Complete.{aborted, handle_abort_multipart_upload}
use cipher_lake.Gateway.Multipart.Whole.{untroubled}

-- The files after those in a directory were removed, but for the ones that could not be.
abbrev pub IsRemoved :
    (Str → ℕ → Bool) → UploadPlace → List ((Str × ℕ) × Str) → List ((Str × ℕ) × Str) → Type 0
IsRemoved fails all_uploads files after =
    (i : Str) (n : ℕ) → lookup (i, n) after ≡ (if fails i n then lookup (i, n) files else none)
IsRemoved fails (one_upload id) files after =
    (i : Str) (n : ℕ)
    → lookup (i, n) after ≡ (if str_eq id i && not (fails i n) then none else lookup (i, n) files)
IsRemoved fails elsewhere files after = Unit

lookup-without_files :
    (fails : Str → ℕ → Bool) (dir : UploadPlace) (i : Str) (n : ℕ) (files : List ((Str × ℕ) × Str))
    → lookup (i, n) (without_files fails dir files)
      ≡ (if is_in dir i && not (fails i n) then none else lookup (i, n) files)
unfolding lookup without_files
lookup-without_files fails dir i n [] = ground arith
lookup-without_files fails dir i n (((j, m), content) ∷ files) =
    let ih = lookup-without_files fails dir i n files in
    elim (Bool-cases (part_same (i, n) (j, m))) [
      | inl same ↦
          let e = (part_same_iff (i, n) (j, m)).0 same in
          let in_ = ap (λ p. is_in dir p.0 && not (fails p.0 p.1)) e in
          ground (arith, ih, same, in_)
      | inr other ↦ ground (arith, ih, other)
    ]

without_files-IsRemoved :
    (fails : Str → ℕ → Bool) (dir : UploadPlace) (files : List ((Str × ℕ) × Str))
    → IsRemoved fails dir files (without_files fails dir files)
without_files-IsRemoved fails all_uploads files =
    λ i n. ground (arith, lookup-without_files fails all_uploads i n files)
without_files-IsRemoved fails (one_upload id) files =
    λ i n. lookup-without_files fails (one_upload id) i n files
without_files-IsRemoved fails elsewhere files = tt

-- What an id names, said of its bytes: a dot names the directory of uploads, and a name with no slash that is no dot
-- and no two dots the upload of that name.
abbrev pub IsNamed : Str → UploadPlace → Type 0
IsNamed id all_uploads = id ≡ bytes "."
IsNamed id (one_upload name) =
    (id ≡ name)
    × (is_nil id ≡ false)
    × (any (nat_beq 47) id ≡ false)
    × (str_eq id (bytes ".") ≡ false)
    × (str_eq id (bytes "..") ≡ false)
IsNamed id elsewhere = ⊥

path_parts-plain : (id : Str) → any (nat_beq 47) id ≡ false → path_parts id ≡ id ∷ []
unfolding path_parts
path_parts-plain [] h = refl
path_parts-plain (b ∷ s) h =
    let rest : any (nat_beq 47) s ≡ false = ground (arith, h) in
    let ih = path_parts-plain s rest in
    let other : nat_beq b 47 ≡ false = ground (arith, h, nat_beq_iff 47 b, nat_beq_iff b 47) in
    rw ih (rw other refl)

upload_dir-dot : upload_dir (bytes ".") ≡ all_uploads
unfolding upload_dir clean_parts path_parts str_eq
upload_dir-dot = refl

upload_dir-IsNamed : (id : Str) (dir : UploadPlace) → IsNamed id dir → upload_dir id ≡ dir
unfolding upload_dir clean_parts
upload_dir-IsNamed id all_uploads e = ap upload_dir e ∙ upload_dir-dot
upload_dir-IsNamed id (one_upload name) (same, full, plain, dot, dots) =
    rw (path_parts-plain id plain) (rw full (rw dot (rw dots (ap one_upload same))))
upload_dir-IsNamed id elsewhere e = elim e [ ]

module _ (tools : Tools) where
  -- The bug of an abort: it takes the upload's id from the request and removes the files under it before it looks
  -- for the upload. An id of no upload of the bucket and key, in a request that is authorized for these, is answered as
  -- aborted, whatever files cannot be removed, and the records of all uploads and parts stay. An id that is a name with no
  -- slash, not a dot or two, may be that of an upload of another bucket or key: the files under it are gone, and no
  -- other ones. With a single dot for the id, the files of every upload are gone. Files that cannot be removed stay.
  pub abort_removes_foreign_files :
      (s : MultipartState tools) (req : UploadRequest) (etag version_id : Str)
      (fails : Str → ℕ → Bool) (dir : UploadPlace)
      → req.right_method ≡ true
      → req.authorized ≡ true
      → IsNamed req.upload_id dir
      → is_nil req.upload_id ≡ false
      → get_upload tools req.bucket req.key req.upload_id s ≡ none
      → let faults = record (untroubled etag version_id) { cleanup_fails = fails } in
        let r = handle_abort_multipart_upload tools faults s req in
        (r.1 ≡ aborted)
        × (r.0.uploads ≡ s.uploads)
        × (r.0.parts ≡ s.parts)
        × IsRemoved fails dir s.files r.0.files
  unfolding handle_abort_multipart_upload delete_upload
  abort_removes_foreign_files s req etag version_id fails dir method authorized names named
        missing =
      let removed =
        subst (λ d. IsRemoved fails dir s.files (without_files fails d s.files))
          (sym (upload_dir-IsNamed req.upload_id dir names))
          (without_files-IsRemoved fails dir s.files) in
      rw method (rw authorized (rw named (rw missing (refl, refl, refl, removed))))
