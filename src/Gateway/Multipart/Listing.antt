-- ===== src/Gateway/Multipart/Listing.antt =====
-- `HandleListParts` and `HandleListUploads` of internal/gateway/multipart.go. Parts come in the order of their keys,
-- which is the byte order of the decimal part numbers.
use cipher_lake.Prelude.{
  ℕ, suc, Bool, true, false, not, none, some, List, [], ◌∷◌, ◌++◌, Str, bytes, is_nil, ltb,
  if◌then◌else◌, get_or, ℤ, pos, lt_int, parse_int,
}
use cipher_lake.Gateway.Multipart.Parts.{get_parts}
use cipher_lake.Gateway.Multipart.{
  UploadPart, MultipartUpload, Tools, UploadError, method_not_allowed, id_required, UploadRequest,
  MultipartState,
}

-- The page of the first so many after the marker, and whether more follow.
abbrev pub page_of : ℤ → ℤ → ℕ → List UploadPart → List UploadPart × Bool
page_of max_parts marker count [] = ([], false)
page_of max_parts marker count (p ∷ parts) =
    let (skipped, more) = page_of max_parts marker count parts in
    let (kept, cut) = page_of max_parts marker (suc count) parts in
    if not (lt_int marker (pos p.part_number))
    then (skipped, more)
    else if not (lt_int (pos count) max_parts)
    then ([], true)
    else (p ∷ kept, cut)

-- A parameter of the query that is a number, and its default otherwise.
abbrev pub number_or : ℕ → Str → ℤ
number_or d text = get_or (parse_int text) (pos d)

-- The loop over uploads.
abbrev pub uploads_page : ℤ → ℕ → List MultipartUpload → List MultipartUpload × Bool
uploads_page max_uploads count [] = ([], false)
uploads_page max_uploads count (u ∷ uploads) =
    let (kept, cut) = uploads_page max_uploads (suc count) uploads in
    if not (lt_int (pos count) max_uploads) then ([], true) else (u ∷ kept, cut)

pub data ListReply : Type 0 where
  parts_listed : List UploadPart × Bool → ListReply
  listed_uploads : List MultipartUpload × Bool → ListReply
  list_refused : UploadError → ListReply

module _ (tools : Tools) where
  unfoldable pub handle_list_parts : MultipartState tools → UploadRequest → Str → Str → ListReply
  handle_list_parts s req max_parts marker =
      if not req.right_method
      then list_refused method_not_allowed
      else if is_nil req.upload_id
      then list_refused id_required
      else parts_listed (
          page_of (number_or 1000 max_parts) (number_or 0 marker) 0
            (get_parts tools req.upload_id s))

  -- The uploads of these keys that are not expired.
  abbrev pub current_among : ℕ → MultipartState tools → List Str → List MultipartUpload
  current_among now s [] = []
  current_among now s (k ∷ ks) =
      let rest = current_among now s ks in
      elim (tools.bolt.get k s.uploads) [
        | none ↦ rest
        | some upload ↦ if ltb now upload.expires_at then upload ∷ rest else rest
      ]

  unfoldable pub list_uploads : Str → ℕ → MultipartState tools → List MultipartUpload
  list_uploads bucket now s =
      current_among now s (tools.bolt.seek_prefix (bucket ++ bytes "/") s.uploads)

  unfoldable pub handle_list_uploads : ℕ → MultipartState tools → UploadRequest → Str → ListReply
  handle_list_uploads now s req max_uploads =
      if not req.right_method
      then list_refused method_not_allowed
      else listed_uploads
          (uploads_page (number_or 1000 max_uploads) 0 (list_uploads req.bucket now s))
