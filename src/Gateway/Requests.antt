-- ===== src/Gateway/Requests.antt =====
-- What the upload handlers of internal/gateway/resumable.go are asked and answer, and what the disk, the stores
-- and the clock answer them during a call.
use cipher_lake.Prelude.{
  ℕ, zero, suc, ◌-◌, Bool, Option, none, some, List, [], ◌∷◌, ◌++◌, Str, bytes, str_eq, is_nil,
  take, length, to_lower, split_first, if◌then◌else◌, ℤ, pos, eq_int, parse_int,
}
use cipher_lake.Loader.Bolt.{Bolt}
use cipher_lake.Gateway.Sessions.{ResumableSession}
use cipher_lake.Gateway.Objects.{StoreFaults, StoreResult}

-- The database, SHA-256 in base64, and the coordinator of encryption where there is one: it gives the
-- ciphertext and the encrypted key, or fails.
pub record Outside : Type 1 where
  pub bolt : Bolt
  pub digest : Str → Str
  pub encrypt : Option (Str → Option (Str × Str))

-- The answers that `writeError` sends.
pub data Refusal : Type 0 where
  access_denied upload_id_required no_such_upload bucket_key_mismatch upload_expired : Refusal
  already_finalized offset_required invalid_offset offset_mismatch bad_digest : Refusal

-- The errors that a handler returns.
pub data Failure : Type 0 where
  session_not_created file_not_created file_not_opened not_written not_synced : Failure
  session_not_updated not_closed no_size not_encrypted : Failure
  not_stored : StoreResult → Failure

pub data Reply : Type 0 where
  created : Str → Reply
  appended : ℕ → Str → Reply
  described : ℕ → Option ℕ → Str → Reply
  finished : Str → Str → Bool → Reply
  refused : Refusal → Reply
  failed : Failure → Reply

abbrev pub status : Refusal → ℕ
status access_denied = 401
status no_such_upload = 404
status upload_expired = 410
status offset_mismatch = 409
status _ = 400

-- What happens outside during a call. A copy that stops has written that many bytes.
pub record Faults : Type 0 where
  pub open_fails : Bool
  pub copy_stops : Option ℕ
  pub sync_fails : Bool
  pub read_fails : Bool
  pub truncate_fails : Bool
  pub put_fails : Bool
  pub create_fails : Bool
  pub close_fails : Bool
  pub stat_fails : Bool
  pub remove_fails : Bool
  pub delete_fails : Bool
  pub mark_fails : Bool
  pub store : StoreFaults
  -- The clock when an append begins, and when a finalization does.
  pub now : ℕ
  pub later : ℕ
  -- A new ETag and a new version.
  pub etag : Str
  pub version_id : Str

pub record Request : Type 0 where
  pub authorized : Bool
  pub bucket : Str
  pub key : Str
  pub upload_id : Str
  pub upload_length : Str
  pub upload_offset : Str
  pub upload_checksum : Str
  pub content_type : Str
  pub metadata : List (Str × Str)
  pub finalize : Str
  pub body : Str

pub data Found : Type 0 where
  found : ResumableSession → Found
  missing : Refusal → Found

-- `Truncate` to a length: it cuts, or fills with zero bytes.
abbrev pub zero_bytes : ℕ → Str
zero_bytes zero = []
zero_bytes (suc n) = 0 ∷ zero_bytes n

abbrev pub truncate : ℕ → Str → Str
truncate n s = take n s ++ zero_bytes (n - length s)

-- An `Upload-Checksum` header of the form "sha256 <text>" gives its text.
abbrev pub checksum_part : Str × Option Str → Str
checksum_part (scheme, none) = []
checksum_part (scheme, some text) = if str_eq (to_lower scheme) (bytes "sha256") then text else []

abbrev pub provided_checksum : Str → Str
provided_checksum header = checksum_part (split_first 32 header)

-- The test of the `Upload-Offset` header against the session's offset.
abbrev pub compared : ℕ → Option ℤ → Option Refusal
compared offset none = some invalid_offset
compared offset (some client) = if eq_int client (pos offset) then none else some offset_mismatch

abbrev pub offset_error : ℕ → Str → Option Refusal
offset_error offset header =
    if is_nil header then some offset_required else compared offset (parse_int header)
