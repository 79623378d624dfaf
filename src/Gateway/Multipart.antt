-- ===== src/Gateway/Multipart.antt =====
-- Uploads in parts, of internal/gateway/multipart.go: the records that internal/metadata/store.go keeps of them,
-- and the part files. A record of a part
-- stands under its upload's id and its own number, a file under the two.
pub mod Upload
pub mod Parts
pub mod Complete
pub mod Listing
pub mod Order
pub mod Merge
pub mod Intact
pub mod Accepted
pub mod Whole
pub mod Pages
pub mod Abort
use cipher_lake.Prelude.{
  ℕ, ◌+◌, ◌/◌, ◌%◌, Bool, true, false, ◌&&◌, ◌||◌, not, Option, none, some, List, [], ◌∷◌, ◌++◌,
  Str, bytes, str_eq, str_eq_iff, is_nil, lookup, insert, remove, MapKey, nat_beq, nat_beq_iff, ltb,
  if◌then◌else◌, ◌≡◌, ◌↔◌, arith, suc, zero,
}
use cipher_lake.Loader.Bolt.{Bolt}
use cipher_lake.Gateway.Objects.{Objects, StoreFaults, StoreResult}

pub record UploadPart : Type 0 where
  pub part_number : ℕ
  pub etag : Str
  pub size : ℕ
  pub uploaded_at : ℕ
  pub checksum : Str

pub record MultipartUpload : Type 0 where
  pub upload_id : Str
  pub bucket : Str
  pub key : Str
  pub initiated : ℕ
  pub expires_at : ℕ
  pub user_id : Str
  pub content_type : Str
  pub metadata : List (Str × Str)
  pub encrypted : Bool

-- bbolt, and SHA-256 in base64 and in hexadecimal digits.
pub record Tools : Type 1 where
  pub bolt : Bolt
  pub base64_sha256 : Str → Str
  pub hex_sha256 : Str → Str

unfoldable pub part_same : Str × ℕ → Str × ℕ → Bool
part_same (a, m) (b, n) = str_eq a b && nat_beq m n

pub part_same_iff : (p q : Str × ℕ) → (part_same p q ≡ true) ↔ (p ≡ q)
unfolding part_same
part_same_iff (a, m) (b, n) = ground (arith, str_eq_iff a b, nat_beq_iff m n)

-- Parts are kept under an upload id and a number.
instance abbrev pub part_key : MapKey (Str × ℕ)
part_key = record { same = part_same; same_iff = part_same_iff }

-- The parts of one upload; all but one part; and what is left without an upload. The code finds them by the prefix
-- of the id and a slash, which is the same for ids without a slash, as those that are made here are.
unfoldable pub of_upload : Str → List (Str × UploadPart) → List UploadPart
of_upload id [] = []
of_upload id ((i, part) ∷ parts) =
    let rest = of_upload id parts in if str_eq i id then part ∷ rest else rest

unfoldable pub without_part : Str → ℕ → List (Str × UploadPart) → List (Str × UploadPart)
without_part id n [] = []
without_part id n ((i, part) ∷ parts) =
    let rest = without_part id n parts in
    if str_eq i id && nat_beq part.part_number n then rest else (i, part) ∷ rest

unfoldable pub without_parts : Str → List (Str × UploadPart) → List (Str × UploadPart)
without_parts id [] = []
without_parts id ((i, part) ∷ parts) =
    let rest = without_parts id parts in if str_eq i id then rest else (i, part) ∷ rest

-- The parts of a path between its slashes.
abbrev pub to_first : ℕ → List Str → List Str
to_first b [] = (b ∷ []) ∷ []
to_first b (part ∷ parts) = (b ∷ part) ∷ parts

unfoldable pub path_parts : Str → List Str
path_parts [] = [] ∷ []
path_parts (b ∷ s) = let rest = path_parts s in if nat_beq b 47 then [] ∷ rest else to_first b rest

-- The directories that a path leads down to from where it starts, the last one first, as `filepath.Clean` has it;
-- none where it leads out of there.
unfoldable pub clean_parts : List Str → List Str → Option (List Str)
clean_parts [] down = some down
clean_parts (part ∷ parts) [] =
    let same = clean_parts parts [] in
    let deeper = clean_parts parts (part ∷ []) in
    if is_nil part || str_eq part (bytes ".")
    then same
    else if str_eq part (bytes "..")
    then none
    else deeper
clean_parts (part ∷ parts) (dir ∷ down) =
    let same = clean_parts parts (dir ∷ down) in
    let up = clean_parts parts down in
    let deeper = clean_parts parts (part ∷ dir ∷ down) in
    if is_nil part || str_eq part (bytes ".")
    then same
    else if str_eq part (bytes "..")
    then up
    else deeper

-- What an id from a request names under the directory of uploads: this directory itself, that of one upload, or a
-- path below one or outside.
pub data UploadPlace : Type 0 where
  all_uploads : UploadPlace
  one_upload : Str → UploadPlace
  elsewhere : UploadPlace

abbrev pub reached_by : Option (List Str) → UploadPlace
reached_by none = elsewhere
reached_by (some []) = all_uploads
reached_by (some (id ∷ [])) = one_upload id
reached_by (some (part ∷ dir ∷ down)) = elsewhere

unfoldable pub upload_dir : Str → UploadPlace
upload_dir id = reached_by (clean_parts (path_parts id) [])

abbrev pub is_in : UploadPlace → Str → Bool
is_in all_uploads i = true
is_in (one_upload id) i = str_eq id i
is_in elsewhere i = false

-- The files under a directory go, but for those that cannot be removed.
unfoldable pub without_files :
    (Str → ℕ → Bool) → UploadPlace → List ((Str × ℕ) × Str) → List ((Str × ℕ) × Str)
without_files fails dir [] = []
without_files fails dir (((i, n), content) ∷ files) =
    let rest = without_files fails dir files in
    if is_in dir i && not (fails i n) then rest else ((i, n), content) ∷ rest

-- The key of an upload's record.
abbrev pub upload_key : Str → Str → Str → Str
upload_key bucket key id = bucket ++ bytes "/" ++ key ++ bytes "/" ++ id

pub data UploadError : Type 0 where
  method_not_allowed : UploadError
  access_denied : UploadError
  id_required : UploadError
  invalid_part_number : UploadError
  not_found : UploadError
  upload_expired : UploadError
  not_created : UploadError
  no_directory : UploadError
  not_written : UploadError
  part_not_added : UploadError
  no_parts : UploadError
  not_stored : StoreResult → UploadError
  not_deleted : UploadError

pub record UploadRequest : Type 0 where
  pub right_method : Bool
  pub authorized : Bool
  pub bucket : Str
  pub key : Str
  pub upload_id : Str
  pub part_number : Str
  pub user_id : Str
  pub content_type : Str
  pub metadata : List (Str × Str)
  pub body : Str

module _ (tools : Tools) where
  pub record MultipartState : Type 0 where
    pub uploads : tools.bolt.Bucket MultipartUpload
    pub parts : List (Str × UploadPart)
    pub files : List ((Str × ℕ) × Str)
    pub objects : Objects

  unfoldable pub put_upload : Bool → MultipartUpload → MultipartState → Option MultipartState
  put_upload disk_fails upload s =
      let k = upload_key upload.bucket upload.key upload.upload_id in
      if tools.bolt.key_allowed k && not disk_fails
      then some (record s { uploads = tools.bolt.put k upload s.uploads })
      else none

  abbrev pub get_upload : Str → Str → Str → MultipartState → Option MultipartUpload
  get_upload bucket key id s = tools.bolt.get (upload_key bucket key id) s.uploads

  -- A record that is there goes with the records of its parts; one that is not there is no error.
  abbrev pub delete_found : Str → Str → MultipartState → Option MultipartUpload → MultipartState
  delete_found k id s none = s
  delete_found k id s (some upload) = record s {
    uploads = tools.bolt.delete k s.uploads;
    parts = without_parts id s.parts;
  }

  unfoldable pub delete_upload : Bool → Str → Str → Str → MultipartState → Option MultipartState
  delete_upload disk_fails bucket key id s =
      if disk_fails
      then none
      else some (delete_found (upload_key bucket key id) id s (get_upload bucket key id s))

  abbrev pub add_part : Bool → Str → UploadPart → MultipartState → Option MultipartState
  add_part disk_fails id part s =
      if disk_fails
      then none
      else some (record s { parts = (id, part) ∷ without_part id part.part_number s.parts })

  -- `cleanupParts`, of the id as the request has it. Files outside of the directories of uploads, and single files by
  -- a path below one, are not part of the state.
  abbrev pub cleanup_parts : (Str → ℕ → Bool) → Str → MultipartState → MultipartState
  cleanup_parts fails id s = record s { files = without_files fails (upload_dir id) s.files }
