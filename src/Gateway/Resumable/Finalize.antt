-- ===== src/Gateway/Resumable/Finalize.antt =====
-- `HandleFinalize` of internal/gateway/resumable.go: the file is stored as the object, encrypted where that is on,
-- and the session ends.
use cipher_lake.Prelude.{
  Bool, true, false, Option, none, some, [], Str, bytes, is_nil, length, get_or, lookup, remove,
  str_key, if◌then◌else◌,
}
use cipher_lake.Gateway.Objects.{
  ObjectMetadata, Objects, StoreResult, stored, data_refused, metadata_refused,
  build_active_object_metadata, put_stored_object_with_metadata, tier_hot,
}
use cipher_lake.Gateway.Sessions.{ResumableSession, Sessions, put_resumable_session}
use cipher_lake.Gateway.Requests.{
  Outside, file_not_opened, not_closed, no_size, not_encrypted, not_stored, finished, refused,
  failed, Faults, Request, Found, found, missing,
}
use cipher_lake.Gateway.Resumable.{
  Uploads, Outcome, forget, find_session, unfinished, file_checksum,
}

module _ (env : Outside) where
  -- The bytes to store and their key, if encryption is on; none where encryption fails.
  abbrev pub sealed : Str → Option (Str × Option Str)
  sealed content = elim env.encrypt [
    | none ↦ some (content, none)
    | some f ↦ elim (f content) [
      | none ↦ none
      | some (ciphertext, dek) ↦ some (ciphertext, some dek)
    ]
  ]

  abbrev pub is_encrypted : Bool
  is_encrypted = elim env.encrypt [ none ↦ false | some f ↦ true ]

  abbrev pub final_metadata :
      Faults → Request → ResumableSession → Str → Option Str → ObjectMetadata
  final_metadata faults req session content dek =
      record (build_active_object_metadata faults.later faults.version_id (record {
        bucket = req.bucket;
        key = req.key;
        size = length content;
        content_type = session.content_type;
        etag = faults.etag;
        user_metadata = session.metadata;
        storage_tier = tier_hot;
        encrypted = is_encrypted;
        version_id = faults.version_id;
        checksum = [];
        checksum_type = [];
        encrypted_dek = dek;
        ssec_used = false;
        ssec_key_sha256 = [];
        server_side_encryption = [];
        now = 0;
      })) {
        checksum =
            if is_nil session.checksum then file_checksum env faults content else session.checksum;
        checksum_type = bytes "sha256";
      }

  -- The session's mark; its error is dropped.
  abbrev pub mark : Faults → ResumableSession → Sessions env.bolt → Sessions env.bolt
  mark faults session b =
      get_or
        (put_resumable_session env.bolt faults.mark_fails (record session { finalized = true }) b) b

  -- The file and the session's record go; their errors are dropped.
  abbrev pub cleanup_session : Faults → Uploads env → Str → Uploads env
  cleanup_session faults s id = record s {
    files = if faults.remove_fails then s.files else remove id s.files;
    sessions = forget env faults id s.sessions;
  }

  abbrev pub conclude :
      Faults → Uploads env → ResumableSession → Objects × StoreResult → Outcome env
  conclude faults s session (objects, stored) =
      let marked = record s { objects = objects; sessions = mark faults session s.sessions } in
      if faults.close_fails then (marked, failed not_closed) else (
        cleanup_session faults marked session.upload_id,
        finished faults.etag faults.version_id is_encrypted,
      )
  conclude faults s session (objects, data_refused) =
      (record s { objects = objects }, failed (not_stored data_refused))
  conclude faults s session (objects, metadata_refused) =
      (record s { objects = objects }, failed (not_stored metadata_refused))

  abbrev pub store_sealed :
      Faults
      → Uploads env
      → Request
      → ResumableSession
      → Str
      → Option (Str × Option Str)
      → Outcome env
  store_sealed faults s req session content none = (s, failed not_encrypted)
  store_sealed faults s req session content (some (out, dek)) = conclude faults s session (
      put_stored_object_with_metadata faults.store s.objects req.bucket req.key out
        (final_metadata faults req session content dek))

  abbrev pub finalize_file :
      Faults → Uploads env → Request → ResumableSession → Option Str → Outcome env
  finalize_file faults s req session none = (s, failed file_not_opened)
  finalize_file faults s req session (some content) =
      if faults.open_fails
      then (s, failed file_not_opened)
      else if faults.stat_fails
      then (s, failed no_size)
      else store_sealed faults s req session content (sealed content)

  abbrev pub finalize_found : Faults → Uploads env → Request → Found → Outcome env
  finalize_found faults s req (missing r) = (s, refused r)
  finalize_found faults s req (found session) =
      finalize_file faults s req session (lookup req.upload_id s.files)

  unfoldable pub handle_finalize : Faults → Uploads env → Request → Outcome env
  handle_finalize faults s req =
      finalize_found faults s req (unfinished env (find_session env faults.later s req))
