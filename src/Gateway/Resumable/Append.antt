-- ===== src/Gateway/Resumable/Append.antt =====
-- `HandlePatch` of internal/gateway/resumable.go: a body is appended to the file of a session at its offset.
use cipher_lake.Prelude.{
  ℕ, ◌+◌, ◌&&◌, ◌||◌, not, Option, none, some, [], ◌++◌, Str, bytes, str_eq, is_nil, take, length,
  lookup, insert, str_key, ltb, if◌then◌else◌,
}
use cipher_lake.Gateway.Sessions.{ResumableSession, Sessions, put_resumable_session}
use cipher_lake.Gateway.Requests.{
  Outside, Refusal, bad_digest, file_not_opened, not_written, not_synced, session_not_updated,
  not_closed, appended, refused, failed, Faults, Request, Found, found, missing, truncate,
  provided_checksum, offset_error,
}
use cipher_lake.Gateway.Resumable.{Uploads, Outcome, find_session, unfinished, file_checksum}
use cipher_lake.Gateway.Resumable.Finalize.{handle_finalize}

module _ (env : Outside) where
  -- The session after an append of that file; an empty checksum leaves the old one.
  abbrev pub moved_on : ResumableSession → ℕ → Str → ResumableSession
  moved_on session new_offset checksum = record session {
    offset = new_offset;
    checksum = if is_nil checksum then session.checksum else checksum;
  }

  abbrev pub answer_append :
      Faults → Uploads env → Request → ℕ → Str → Option (Sessions env.bolt) → Outcome env
  answer_append faults s req new_offset checksum none = (s, failed session_not_updated)
  answer_append faults s req new_offset checksum (some b) =
      let after = record s { sessions = b } in
      if str_eq req.finalize (bytes "1")
      then if faults.close_fails
        then (after, failed not_closed)
        else handle_finalize env faults after req
      else (after, appended new_offset checksum)

  -- The checksum of all bytes so far, where one is given or any byte is there.
  abbrev pub computed_checksum : Faults → Str → ℕ → Str → Str
  computed_checksum faults provided new_offset content =
      if not (is_nil provided) || ltb 0 new_offset then file_checksum env faults content else []

  -- `s` has the file already; a wrong checksum cuts it back to the offset.
  unfoldable pub verify_append :
      Faults → Uploads env → Request → ResumableSession → Str → Outcome env
  verify_append faults s req session content =
      let provided = provided_checksum req.upload_checksum in
      let new_offset = session.offset + length req.body in
      let computed = computed_checksum faults provided new_offset content in
      if not (is_nil provided) && not (str_eq computed provided)
      then (
        if faults.truncate_fails then s else record s {
          files = insert req.upload_id (truncate session.offset content) s.files;
        },
        refused bad_digest,
      )
      else answer_append faults s req new_offset computed (
          put_resumable_session env.bolt faults.put_fails (moved_on session new_offset computed)
            s.sessions)

  abbrev pub with_file : Uploads env → Str → Str → Uploads env
  with_file s id content = record s { files = insert id content s.files }

  abbrev pub copy_body :
      Faults → Uploads env → Request → ResumableSession → Str → Option ℕ → Outcome env
  copy_body faults s req session old (some n) =
      (with_file s req.upload_id (old ++ take n req.body), failed not_written)
  copy_body faults s req session old none =
      let content = old ++ req.body in
      let after = with_file s req.upload_id content in
      if faults.sync_fails
      then (after, failed not_synced)
      else verify_append faults after req session content

  abbrev pub append_file :
      Faults → Uploads env → Request → ResumableSession → Option Str → Outcome env
  append_file faults s req session none = (s, failed file_not_opened)
  append_file faults s req session (some old) =
      if faults.open_fails
      then (s, failed file_not_opened)
      else copy_body faults s req session old faults.copy_stops

  abbrev pub patch_offset :
      Faults → Uploads env → Request → ResumableSession → Option Refusal → Outcome env
  patch_offset faults s req session (some r) = (s, refused r)
  patch_offset faults s req session none =
      append_file faults s req session (lookup req.upload_id s.files)

  abbrev pub patch_found : Faults → Uploads env → Request → Found → Outcome env
  patch_found faults s req (missing r) = (s, refused r)
  patch_found faults s req (found session) =
      patch_offset faults s req session (offset_error session.offset req.upload_offset)

  unfoldable pub handle_patch : Faults → Uploads env → Request → Outcome env
  handle_patch faults s req =
      patch_found faults s req (unfinished env (find_session env faults.now s req))
