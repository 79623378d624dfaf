-- ===== src/Gateway/Multipart/Accepted.antt =====
-- Uploading parts (internal/gateway/multipart.go): records and files of the parts stay in agreement, and an accepted
-- body counts for its number.
use cipher_lake.Prelude.{
  ℕ, ◌≤◌, Bool, false, ◌&&◌, not, Option, none, some, Str, str_eq, is_nil, nat_beq, ltb, parse_int,
  ℤ, pos, negsuc, if◌then◌else◌, ◌≡◌, ◌⊎◌, inl, inr, arith, refl, ◌∙◌, sym, subst, if-either,
}
use cipher_lake.Gateway.Multipart.{
  MultipartUpload, Tools, part_key, UploadError, method_not_allowed, access_denied, id_required,
  invalid_part_number, not_found, upload_expired, no_directory, not_written, UploadRequest,
  MultipartState, get_upload,
}
use cipher_lake.Gateway.Multipart.Upload.{
  PartFaults, PartReply, part_uploaded, rejected, in_range, new_part, numbered_part, part_of_upload,
  handle_upload_part,
}
use cipher_lake.Gateway.Multipart.Intact.{
  IsIntact, content_at, with_part, with_part-IsIntact, content_at-with_part,
}

abbrev pub is_number : ℕ → Option ℕ → Bool
is_number n none = false
is_number n (some m) = nat_beq m n

module _ (tools : Tools) where
  -- A call whose record can be written.
  abbrev pub recorded : PartFaults → PartFaults
  recorded faults = record faults { add_fails = false }

  -- What a call to upload a part comes to: nothing, or the part with its number.
  abbrev pub IsUploaded :
      ℕ → MultipartState tools → UploadRequest → MultipartState tools × PartReply → Type 0
  IsUploaded now s req o =
      ((e : UploadError) × (o ≡ (s, rejected e)))
      ⊎ ((n : ℕ) × (in_range (parse_int req.part_number) ≡ some n)
          × ((1 ≤ n) × (n ≤ 10000))
          × (o ≡ (
            with_part tools s req.upload_id (new_part tools now req n) req.body,
            part_uploaded (new_part tools now req n).etag (new_part tools now req n).checksum,
          )))

  in_range-bounds : (o : Option ℤ) (n : ℕ) → in_range o ≡ some n → (1 ≤ n) × (n ≤ 10000)
  in_range-bounds none n e = absurd (cc e)
  in_range-bounds (some (negsuc m)) n e = absurd (cc e)
  in_range-bounds (some (pos m)) n e = ground (arith, e)

  numbered_part-IsUploaded :
      (faults : PartFaults) (now : ℕ) (s : MultipartState tools) (req : UploadRequest)
      (number : Option ℕ)
      → in_range (parse_int req.part_number) ≡ number
      → IsUploaded now s req (numbered_part tools (recorded faults) now s req number)
  numbered_part-IsUploaded faults now s req none e = inl (invalid_part_number, refl)
  numbered_part-IsUploaded faults now s req (some n) e =
      go (get_upload tools req.bucket req.key req.upload_id s)
    where
      go :
          (o : Option MultipartUpload)
          → IsUploaded now s req (part_of_upload tools (recorded faults) now s req n o)
      go none = inl (not_found, refl)
      go (some upload) =
          if-either (IsUploaded now s req) (ltb upload.expires_at now) (inl (upload_expired, refl))
            (if-either (IsUploaded now s req) faults.directory_fails (inl (no_directory, refl)) (
              if-either (IsUploaded now s req) faults.file_fails (inl (not_written, refl))
                (inr (n, e, in_range-bounds (parse_int req.part_number) n e, refl))))

  handle_upload_part-IsUploaded :
      (faults : PartFaults) (now : ℕ) (s : MultipartState tools) (req : UploadRequest)
      → IsUploaded now s req (handle_upload_part tools (recorded faults) now s req)
  unfolding handle_upload_part
  handle_upload_part-IsUploaded faults now s req =
      let P = IsUploaded now s req in
      if-either P (not req.right_method) (inl (method_not_allowed, refl)) (
        if-either P (not req.authorized) (inl (access_denied, refl)) (
          if-either P (is_nil req.upload_id) (inl (id_required, refl)) (
            numbered_part-IsUploaded faults now s req (in_range (parse_int req.part_number)) refl)))

  pub handle_upload_part-IsIntact :
      (faults : PartFaults) (now : ℕ) (s : MultipartState tools) (req : UploadRequest)
      → IsIntact tools s
      → IsIntact tools (handle_upload_part tools (recorded faults) now s req).0
  handle_upload_part-IsIntact faults now s req v =
      elim (handle_upload_part-IsUploaded faults now s req) [
        | inl (err, e) ↦ subst (λ o. IsIntact tools o.0) (sym e) v
        | inr (n, _, range, e) ↦
            subst (λ o. IsIntact tools o.0) (sym e)
              (with_part-IsIntact tools s req.upload_id (new_part tools now req n) req.body range
                refl v)
      ]

  -- The body of an accepted call for this upload and number, and what was there otherwise.
  abbrev pub body_or : UploadRequest → PartReply → Str → ℕ → Str → Str
  body_or req (part_uploaded etag checksum) id n old =
      if str_eq req.upload_id id && is_number n (in_range (parse_int req.part_number))
      then req.body
      else old
  body_or req _ id n old = old

  pub content_at-handle_upload_part :
      (faults : PartFaults) (now : ℕ) (s : MultipartState tools) (req : UploadRequest) (id : Str)
      (n : ℕ)
      → content_at tools (handle_upload_part tools (recorded faults) now s req).0 id n
        ≡ body_or req
            (handle_upload_part tools (recorded faults) now s req).1
            id
            n
            (content_at tools s id n)
  content_at-handle_upload_part faults now s req id n =
      elim (handle_upload_part-IsUploaded faults now s req) [
        | inl (err, e) ↦
            subst (λ o. content_at tools o.0 id n ≡ body_or req o.1 id n (content_at tools s id n))
              (sym e) refl
        | inr (m, number, range, e) ↦
            subst (λ o. content_at tools o.0 id n ≡ body_or req o.1 id n (content_at tools s id n))
              (sym e)
              (content_at-with_part tools s req.upload_id (new_part tools now req m) req.body id n
                ∙ rw number refl)
      ]
