-- ===== src/Gateway/Resumable.antt =====
-- `ResumableUploadHandler` of internal/gateway/resumable.go: its state, the making of a session, and the guards
-- of the calls on one. An upload's temporary file is kept under its id. The answer of the identity check comes
-- in with the request.
pub mod Finalize
pub mod Append
pub mod Cleanup
pub mod Coverage
pub mod Steps
use cipher_lake.Prelude.{
  ℕ, zero, suc, ◌+◌, ◌-◌, Bool, true, false, ◌&&◌, ◌||◌, not, Option, none, some, List, [], ◌∷◌,
  ◌++◌, Str, bytes, str_eq, is_nil, take, length, get_or, lookup, insert, remove, str_key, ltb,
  if◌then◌else◌, ℤ, pos, negsuc, parse_int,
}
use cipher_lake.Gateway.Objects.{
  ObjectMetadata, Objects, StoreFaults, StoreResult, stored, data_refused, metadata_refused,
  build_active_object_metadata, put_stored_object_with_metadata, tier_hot,
}
use cipher_lake.Gateway.Sessions.{
  ResumableSession, Sessions, put_resumable_session, get_resumable_session,
  delete_resumable_session, list_expired_sessions,
}
use cipher_lake.Gateway.Requests.{
  Outside, Refusal, access_denied, upload_id_required, no_such_upload, bucket_key_mismatch,
  upload_expired, already_finalized, bad_digest, Failure, session_not_created, file_not_created,
  file_not_opened, not_written, not_synced, session_not_updated, not_closed, no_size, not_encrypted,
  not_stored, Reply, created, appended, described, finished, refused, failed, Faults, Request,
  Found, found, missing, truncate, provided_checksum, offset_error,
}

module _ (env : Outside) where
  pub record Uploads : Type 0 where
    pub sessions : Sessions env.bolt
    pub files : List (Str × Str)
    pub objects : Objects

  abbrev pub Outcome : Type 0
  Outcome = Uploads × Reply

  abbrev pub announced_size : Str → ℤ
  announced_size header = if is_nil header then negsuc 0 else get_or (parse_int header) (negsuc 0)

  abbrev pub new_session : Request → ℕ → ℕ → Str → ResumableSession
  new_session req now expiry id = record {
    upload_id = id;
    bucket = req.bucket;
    key = req.key;
    offset = 0;
    total_size = announced_size req.upload_length;
    content_type = req.content_type;
    metadata = req.metadata;
    created_at = now;
    expires_at = now + expiry;
    checksum = [];
    finalized = false;
  }

  -- What a delete of the session's record leaves; its error is dropped.
  abbrev pub forget : Faults → Str → Sessions env.bolt → Sessions env.bolt
  forget faults id b = get_or (delete_resumable_session env.bolt faults.delete_fails id b) b

  -- A session, then its empty file; without the file the session is deleted again.
  abbrev pub create_file : Faults → Uploads → Str → Option (Sessions env.bolt) → Outcome
  create_file faults s id none = (s, failed session_not_created)
  create_file faults s id (some b) =
      if faults.create_fails
      then (record s { sessions = forget faults id b }, failed file_not_created)
      else (record s { sessions = b; files = insert id [] s.files }, created id)

  -- `expiry` is the configured lifetime, a day where there is none, and `id` the new id.
  unfoldable pub handle_create_session : Faults → Uploads → Request → ℕ → Str → Outcome
  handle_create_session faults s req expiry id =
      if not req.authorized
      then (s, refused access_denied)
      else create_file faults s id (
          put_resumable_session env.bolt faults.put_fails (new_session req faults.now expiry id)
            s.sessions)

  -- The guards that a call on a session begins with.
  abbrev pub check_session : ℕ → Request → Option ResumableSession → Found
  check_session now req none = missing no_such_upload
  check_session now req (some session) =
      if not (str_eq session.bucket req.bucket) || not (str_eq session.key req.key)
      then missing bucket_key_mismatch
      else if ltb session.expires_at now
      then missing upload_expired
      else found session

  unfoldable pub find_session : ℕ → Uploads → Request → Found
  find_session now s req =
      if not req.authorized
      then missing access_denied
      else if is_nil req.upload_id
      then missing upload_id_required
      else check_session now req (get_resumable_session env.bolt req.upload_id s.sessions)

  -- The guard of those that change it.
  abbrev pub unfinished : Found → Found
  unfinished (missing r) = missing r
  unfinished (found session) =
      if session.finalized then missing already_finalized else found session

  -- The length that is announced: a known one that is not 0.
  abbrev pub known_length : ℤ → Option ℕ
  known_length (pos n) = if ltb 0 n then some n else none
  known_length (negsuc n) = none

  abbrev pub describe : Uploads → Found → Outcome
  describe s (missing r) = (s, refused r)
  describe s (found session) =
      (s, described session.offset (known_length session.total_size) session.checksum)

  unfoldable pub handle_head : ℕ → Uploads → Request → Outcome
  handle_head now s req = describe s (find_session now s req)

  -- The checksum of a whole file, empty where the file cannot be read.
  abbrev pub file_checksum : Faults → Str → Str
  file_checksum faults content = if faults.read_fails then [] else env.digest content
