-- ===== src/Gateway/Multipart/Upload.antt =====
-- `HandleCreateMultipartUpload` and `HandleUploadPart` of internal/gateway/multipart.go.
use cipher_lake.Prelude.{
  ℕ, ◌+◌, ◌*◌, Bool, false, ◌&&◌, not, Option, none, some, ◌++◌, Str, is_nil, length, insert,
  remove, ltb, leb, if◌then◌else◌, ℤ, pos, parse_int,
}
use cipher_lake.Gateway.Multipart.{
  UploadPart, MultipartUpload, Tools, part_key, UploadError, method_not_allowed, access_denied,
  id_required, invalid_part_number, not_found, upload_expired, not_created, no_directory,
  not_written, part_not_added, UploadRequest, MultipartState, put_upload, get_upload, add_part,
}

pub data PartReply : Type 0 where
  upload_created : Str → PartReply
  part_uploaded : Str → Str → PartReply
  rejected : UploadError → PartReply

-- What fails outside: the directory, the part's temporary file up to its renaming, the record, the removal.
pub record PartFaults : Type 0 where
  pub put_fails : Bool
  pub directory_fails : Bool
  pub file_fails : Bool
  pub add_fails : Bool
  pub remove_fails : Bool

-- A day, in nanoseconds.
abbrev pub day : ℕ
day = 24 * 3600 * 1000000000

-- A part number is from 1 to 10000.
abbrev pub in_range : Option ℤ → Option ℕ
in_range (some (pos n)) = if leb 1 n && leb n 10000 then some n else none
in_range _ = none

module _ (tools : Tools) where
  abbrev pub new_upload : ℕ → Str → UploadRequest → MultipartUpload
  new_upload now id req = record {
    upload_id = id;
    bucket = req.bucket;
    key = req.key;
    initiated = now;
    expires_at = now + day;
    user_id = req.user_id;
    content_type = req.content_type;
    metadata = req.metadata;
    encrypted = false;
  }

  abbrev pub make_directory :
      PartFaults
      → Str
      → MultipartState tools
      → Option (MultipartState tools)
      → MultipartState tools × PartReply
  make_directory faults id s none = (s, rejected not_created)
  make_directory faults id s (some after) =
      if faults.directory_fails then (after, rejected no_directory) else (after, upload_created id)

  unfoldable pub handle_create_multipart_upload :
      PartFaults → ℕ → Str → MultipartState tools → UploadRequest → MultipartState tools × PartReply
  handle_create_multipart_upload faults now id s req =
      if not req.right_method
      then (s, rejected method_not_allowed)
      else if not req.authorized
      then (s, rejected access_denied)
      else make_directory faults id s (put_upload tools faults.put_fails (new_upload now id req) s)

  abbrev pub new_part : ℕ → UploadRequest → ℕ → UploadPart
  new_part now req n = record {
    part_number = n;
    etag = tools.hex_sha256 (req.upload_id ++ req.part_number);
    size = length req.body;
    uploaded_at = now;
    checksum = tools.base64_sha256 req.body;
  }

  abbrev pub drop_part_file : PartFaults → Str × ℕ → MultipartState tools → MultipartState tools
  drop_part_file faults at s =
      if faults.remove_fails then s else record s { files = remove at s.files }

  abbrev pub answer_part :
      PartFaults
      → MultipartState tools
      → Str × ℕ
      → UploadPart
      → Option (MultipartState tools)
      → MultipartState tools × PartReply
  answer_part faults s at part none = (drop_part_file faults at s, rejected part_not_added)
  answer_part faults s at part (some after) = (after, part_uploaded part.etag part.checksum)

  -- The body is renamed to the part's file, in place of an older one; without its record it goes again.
  abbrev pub write_part :
      PartFaults → ℕ → MultipartState tools → UploadRequest → ℕ → MultipartState tools × PartReply
  write_part faults now s req n =
      let part = new_part now req n in
      let after = record s { files = insert (req.upload_id, n) req.body s.files } in
      if faults.directory_fails
      then (s, rejected no_directory)
      else if faults.file_fails
      then (s, rejected not_written)
      else answer_part faults after (req.upload_id, n) part
          (add_part tools faults.add_fails req.upload_id part after)

  abbrev pub part_of_upload :
      PartFaults
      → ℕ
      → MultipartState tools
      → UploadRequest
      → ℕ
      → Option MultipartUpload
      → MultipartState tools × PartReply
  part_of_upload faults now s req n none = (s, rejected not_found)
  part_of_upload faults now s req n (some upload) =
      if ltb upload.expires_at now
      then (s, rejected upload_expired)
      else write_part faults now s req n

  abbrev pub numbered_part :
      PartFaults
      → ℕ
      → MultipartState tools
      → UploadRequest
      → Option ℕ
      → MultipartState tools × PartReply
  numbered_part faults now s req none = (s, rejected invalid_part_number)
  numbered_part faults now s req (some n) =
      part_of_upload faults now s req n (get_upload tools req.bucket req.key req.upload_id s)

  unfoldable pub handle_upload_part :
      PartFaults → ℕ → MultipartState tools → UploadRequest → MultipartState tools × PartReply
  handle_upload_part faults now s req =
      if not req.right_method
      then (s, rejected method_not_allowed)
      else if not req.authorized
      then (s, rejected access_denied)
      else if is_nil req.upload_id
      then (s, rejected id_required)
      else numbered_part faults now s req (in_range (parse_int req.part_number))
