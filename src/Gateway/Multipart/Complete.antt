-- ===== src/Gateway/Multipart/Complete.antt =====
-- `HandleCompleteMultipartUpload` and `HandleAbortMultipartUpload` of internal/gateway/multipart.go, and the cleaner
-- of expired uploads.
use cipher_lake.Prelude.{
  ℕ, ◌+◌, Bool, false, not, Option, none, some, List, [], ◌∷◌, ◌++◌, Str, is_nil, length, lookup,
  ltb, nat_beq, if◌then◌else◌,
}
use cipher_lake.Gateway.Objects.{
  ObjectMetadata, Objects, StoreFaults, StoreResult, stored, data_refused, metadata_refused,
  build_active_object_metadata, put_stored_object_with_metadata, tier_hot,
}
use cipher_lake.Gateway.Multipart.Parts.{sort_by, get_parts}
use cipher_lake.Gateway.Multipart.{
  UploadPart, MultipartUpload, Tools, part_key, UploadError, method_not_allowed, access_denied,
  id_required, not_found, upload_expired, no_parts, not_stored, not_deleted, UploadRequest,
  MultipartState, get_upload, delete_upload, cleanup_parts,
}

pub data CompleteReply : Type 0 where
  completed : Str → CompleteReply
  aborted : CompleteReply
  turned_down : UploadError → CompleteReply

pub record CompleteFaults : Type 0 where
  pub store : StoreFaults
  pub cleanup_fails : Str → ℕ → Bool
  pub delete_fails : Bool
  -- A new ETag and a new version.
  pub etag : Str
  pub version_id : Str

abbrev pub by_number : UploadPart → UploadPart → Bool
by_number p q = ltb p.part_number q.part_number

-- `sort.Slice` by the part number.
abbrev pub sort_parts : List UploadPart → List UploadPart
sort_parts = sort_by by_number

abbrev pub total_size : List UploadPart → ℕ
total_size [] = 0
total_size (p ∷ parts) = p.size + total_size parts

-- The files of the parts, one after the other; none where one cannot be opened.
abbrev pub joined : Option Str → Option Str → Option Str
joined none rest = none
joined (some content) none = none
joined (some content) (some rest) = some (content ++ rest)

abbrev pub read_parts : Str → List ((Str × ℕ) × Str) → List UploadPart → Option Str
read_parts id files [] = some []
read_parts id files (p ∷ parts) =
    joined (lookup (id, p.part_number) files) (read_parts id files parts)

-- What goes through the pipe to the store: all bytes, or an error, also where their number is wrong.
abbrev pub sized : ℕ → Option Str → Option Str
sized total none = none
sized total (some content) = if nat_beq (length content) total then some content else none

abbrev pub merged : Str → List ((Str × ℕ) × Str) → List UploadPart → Option Str
merged id files parts = sized (total_size parts) (read_parts id files parts)

module _ (tools : Tools) where
  abbrev pub merged_metadata :
      CompleteFaults → ℕ → UploadRequest → MultipartUpload → List UploadPart → ObjectMetadata
  merged_metadata faults now req upload parts =
      build_active_object_metadata now faults.version_id (record {
        bucket = req.bucket;
        key = req.key;
        size = total_size parts;
        content_type = upload.content_type;
        etag = faults.etag;
        user_metadata = upload.metadata;
        storage_tier = tier_hot;
        encrypted = upload.encrypted;
        version_id = [];
        checksum = [];
        checksum_type = [];
        encrypted_dek = none;
        ssec_used = false;
        ssec_key_sha256 = [];
        server_side_encryption = [];
        now = 0;
      })

  -- A store that reads an error from the pipe refuses the bytes.
  abbrev pub store_merged :
      CompleteFaults → Objects → Str → Str → ObjectMetadata → Option Str → Objects × StoreResult
  store_merged faults o bucket key meta none = (o, data_refused)
  store_merged faults o bucket key meta (some content) =
      put_stored_object_with_metadata faults.store o bucket key content meta

  abbrev pub finish_delete :
      CompleteReply
      → MultipartState tools
      → Option (MultipartState tools)
      → MultipartState tools × CompleteReply
  finish_delete reply s none = (s, turned_down not_deleted)
  finish_delete reply s (some after) = (after, reply)

  -- The files go, then the records, both under the id of the request.
  abbrev pub remove_upload :
      CompleteFaults
      → CompleteReply
      → MultipartState tools
      → UploadRequest
      → MultipartState tools × CompleteReply
  remove_upload faults reply s req =
      let cleaned = cleanup_parts tools faults.cleanup_fails req.upload_id s in
      finish_delete reply cleaned
        (delete_upload tools faults.delete_fails req.bucket req.key req.upload_id cleaned)

  abbrev pub after_store :
      CompleteFaults
      → MultipartState tools
      → UploadRequest
      → Objects × StoreResult
      → MultipartState tools × CompleteReply
  after_store faults s req (o, stored) =
      remove_upload faults (completed faults.etag) (record s { objects = o }) req
  after_store faults s req (o, data_refused) =
      (record s { objects = o }, turned_down (not_stored data_refused))
  after_store faults s req (o, metadata_refused) =
      (record s { objects = o }, turned_down (not_stored metadata_refused))

  abbrev pub complete_parts :
      CompleteFaults
      → ℕ
      → MultipartState tools
      → UploadRequest
      → MultipartUpload
      → List UploadPart
      → MultipartState tools × CompleteReply
  complete_parts faults now s req upload parts =
      if is_nil parts
      then (s, turned_down no_parts)
      else after_store faults s req (
          store_merged faults s.objects req.bucket req.key
            (merged_metadata faults now req upload (sort_parts parts))
            (merged req.upload_id s.files (sort_parts parts)))

  abbrev pub complete_found :
      CompleteFaults
      → ℕ
      → MultipartState tools
      → UploadRequest
      → Option MultipartUpload
      → MultipartState tools × CompleteReply
  complete_found faults now s req none = (s, turned_down not_found)
  complete_found faults now s req (some upload) =
      if ltb upload.expires_at now
      then (s, turned_down upload_expired)
      else complete_parts faults now s req upload (get_parts tools req.upload_id s)

  unfoldable pub handle_complete_multipart_upload :
      CompleteFaults
      → ℕ
      → MultipartState tools
      → UploadRequest
      → MultipartState tools × CompleteReply
  handle_complete_multipart_upload faults now s req =
      if not req.right_method
      then (s, turned_down method_not_allowed)
      else if not req.authorized
      then (s, turned_down access_denied)
      else if is_nil req.upload_id
      then (s, turned_down id_required)
      else complete_found faults now s req (get_upload tools req.bucket req.key req.upload_id s)

  -- The upload is not looked up before its files go.
  unfoldable pub handle_abort_multipart_upload :
      CompleteFaults → MultipartState tools → UploadRequest → MultipartState tools × CompleteReply
  handle_abort_multipart_upload faults s req =
      if not req.right_method
      then (s, turned_down method_not_allowed)
      else if not req.authorized
      then (s, turned_down access_denied)
      else if is_nil req.upload_id
      then (s, turned_down id_required)
      else remove_upload faults aborted s req

  -- The records of these keys that are expired.
  abbrev pub expired_among : ℕ → MultipartState tools → List Str → List MultipartUpload
  expired_among now s [] = []
  expired_among now s (k ∷ ks) =
      let rest = expired_among now s ks in
      elim (tools.bolt.get k s.uploads) [
        | none ↦ rest
        | some upload ↦ if ltb now upload.expires_at then rest else upload ∷ rest
      ]

  unfoldable pub list_expired_uploads : ℕ → MultipartState tools → List MultipartUpload
  list_expired_uploads now s = expired_among now s (tools.bolt.seek_prefix [] s.uploads)

  abbrev pub cleanup_deleted :
      (Str → ℕ → Bool)
      → Str
      → MultipartState tools
      → Option (MultipartState tools)
      → MultipartState tools
  cleanup_deleted cleanup_fails id s none = s
  cleanup_deleted cleanup_fails id s (some after) = cleanup_parts tools cleanup_fails id after

  -- Each expired upload loses its records, then its files; one whose records stay is passed over.
  abbrev pub cleanup_uploads :
      (Str → Bool)
      → (Str → ℕ → Bool)
      → MultipartState tools
      → List MultipartUpload
      → MultipartState tools
  cleanup_uploads delete_fails cleanup_fails s [] = s
  cleanup_uploads delete_fails cleanup_fails s (upload ∷ uploads) =
      let id = upload.upload_id in
      cleanup_uploads delete_fails cleanup_fails
        (cleanup_deleted cleanup_fails id s
          (delete_upload tools (delete_fails id) upload.bucket upload.key id s))
        uploads

  unfoldable pub cleanup_expired_uploads :
      (Str → Bool) → (Str → ℕ → Bool) → ℕ → MultipartState tools → MultipartState tools
  cleanup_expired_uploads delete_fails cleanup_fails now s =
      cleanup_uploads delete_fails cleanup_fails s (list_expired_uploads now s)
