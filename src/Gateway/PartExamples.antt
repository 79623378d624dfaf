-- ===== src/Gateway/PartExamples.antt =====
-- Uploads in parts of internal/gateway/multipart.go on concrete requests.
use cipher_lake.Prelude.{
  nat_beq, bytes_before, ℕ, true, false, List, [], ◌∷◌, Str, bytes, str_eq, lookup, parse_int,
  str_key, ◌≡◌, refl,
}
use cipher_lake.Loader.Lists.{lists}
use cipher_lake.Gateway.Multipart.{
  Tools, UploadPart, MultipartUpload, MultipartState, UploadRequest, part_key, of_upload,
}
use cipher_lake.Gateway.Multipart.Upload.{PartFaults, new_upload, handle_upload_part}
use cipher_lake.Gateway.Multipart.Parts.{get_parts, insert_before, sort_by, decimal}
use cipher_lake.Gateway.Multipart.Complete.{aborted, handle_abort_multipart_upload}
use cipher_lake.Gateway.Multipart.Listing.{parts_listed, handle_list_parts}
use cipher_lake.Gateway.Multipart.Merge.{assembled}
use cipher_lake.Gateway.Multipart.Whole.{PartCall, untroubled, latest}
use cipher_lake.Gateway.Multipart.{all_uploads, one_upload, upload_dir, path_parts, clean_parts}
use cipher_lake.Gateway.Multipart.Abort.{IsRemoved, abort_removes_foreign_files}

abbrev tools : Tools
tools = record { bolt = lists; base64_sha256 = λ s. s; hex_sha256 = λ s. s }

abbrev part_request : Str → Str → UploadRequest
part_request number body = record {
  right_method = true;
  authorized = true;
  bucket = bytes "b";
  key = bytes "k";
  upload_id = bytes "u";
  part_number = number;
  user_id = bytes "me";
  content_type = bytes "text/plain";
  metadata = [];
  body = body;
}

abbrev no_faults : PartFaults
no_faults = record {
  put_fails = false;
  directory_fails = false;
  file_fails = false;
  add_fails = false;
  remove_fails = false;
}

abbrev upload : MultipartUpload
upload = new_upload tools 5 (bytes "u") (part_request [] [])

-- An upload without parts.
abbrev begun : MultipartState tools
begun = record {
  uploads = (bytes "b/k/u", upload) ∷ [];
  parts = [];
  files = [];
  objects = record { data_ = []; metadata = [] };
}

-- Part 10 before part 2, and part 2 again.
abbrev calls : List PartCall
calls =
    (no_faults, (6, part_request (bytes "10") (bytes "z")))
    ∷ (no_faults, (7, part_request (bytes "2") (bytes "x")))
    ∷ (no_faults, (8, part_request (bytes "2") (bytes "y")))
    ∷ (no_faults, (9, part_request (bytes "0") (bytes "w")))
    ∷ []

-- The last bodies, in the order of the numbers.
latest-calls : assembled (λ n. latest tools begun calls (bytes "u") n []) 1 12 ≡ bytes "yz"
unfolding latest handle_upload_part parse_int str_eq lookup
latest-calls = refl

-- Whoever may write under "c" removes the files of the upload of "k".
abbrev foreign : UploadRequest
foreign = record (part_request [] []) { key = bytes "c" }

abbrev with_file : MultipartState tools
with_file = record begun { files = ((bytes "u", 1), bytes "x") ∷ [] }

-- The id is a dot, and names the directory of all uploads.
abbrev dot : UploadRequest
dot = record foreign { upload_id = bytes "." }

dot_reaches : upload_dir dot.upload_id ≡ all_uploads
unfolding upload_dir path_parts clean_parts str_eq
dot_reaches = refl

-- From the directory of one upload up and down into another.
up_and_down : upload_dir (bytes "v/../u/") ≡ one_upload (bytes "u")
unfolding upload_dir path_parts clean_parts str_eq
up_and_down = refl

abort_removes_foreign_files_example :
    let faults = record (untroubled [] []) { cleanup_fails = λ i n. nat_beq n 2 } in
    let r = handle_abort_multipart_upload tools faults with_file dot in
    (r.1 ≡ aborted)
    × (r.0.uploads ≡ with_file.uploads)
    × (r.0.parts ≡ with_file.parts)
    × IsRemoved (λ i n. nat_beq n 2) all_uploads with_file.files r.0.files
unfolding lookup str_eq
abort_removes_foreign_files_example =
    abort_removes_foreign_files tools with_file dot [] [] (λ i n. nat_beq n 2) all_uploads refl refl
      refl refl refl

abbrev part : ℕ → Str × UploadPart
part n =
    (bytes "u", record { part_number = n; etag = []; size = 1; uploaded_at = 0; checksum = [] })

abbrev three_parts : MultipartState tools
three_parts = record begun { parts = part 1 ∷ part 2 ∷ part 10 ∷ [] }

-- Parts 1, 2 and 10 in pages of two: 1 and 10, then what is behind 10. No page has part 2.
pages-skip :
    (handle_list_parts tools three_parts (part_request [] []) (bytes "2") []
      ≡ parts_listed ((part 1).1 ∷ (part 10).1 ∷ [], true))
    × (handle_list_parts tools three_parts (part_request [] []) (bytes "2") (bytes "10")
        ≡ parts_listed ([], false))
unfolding handle_list_parts parse_int get_parts sort_by insert_before of_upload str_eq decimal
    bytes_before
pages-skip = (refl, refl)
