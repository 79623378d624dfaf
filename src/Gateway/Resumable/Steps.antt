-- ===== src/Gateway/Resumable/Steps.antt =====
-- `HandlePatch` of internal/gateway/resumable.go as the steps between which other calls can come, since it holds no
-- lock: the session is read, the body appended, the file read for its checksum, and then the file cut back, or the
-- session written and the upload finalized. The copy of a body and a finalization are one step each.
use cipher_lake.Prelude.{
  ℕ, zero, suc, ◌+◌, ◌&&◌, not, Option, none, some, [], ◌++◌, Str, bytes, str_eq, is_nil, take,
  length, lookup, insert, str_key, if◌then◌else◌,
}
use cipher_lake.Gateway.Sessions.{ResumableSession, Sessions, put_resumable_session}
use cipher_lake.Gateway.Requests.{
  Outside, Refusal, bad_digest, file_not_opened, not_written, not_synced, session_not_updated,
  not_closed, Reply, appended, refused, failed, Faults, Request, Found, found, missing, truncate,
  provided_checksum, offset_error,
}
use cipher_lake.Gateway.Resumable.{Uploads, Outcome, find_session, unfinished}
use cipher_lake.Gateway.Resumable.Finalize.{handle_finalize}
use cipher_lake.Gateway.Resumable.Append.{moved_on, computed_checksum, with_file}

-- Where a call stands, with the session that it read.
pub data PatchStage : Type 0 where
  reading : PatchStage
  appending : ResumableSession → PatchStage
  checking : ResumableSession → PatchStage
  cutting : ResumableSession → PatchStage
  storing : ResumableSession → Str → PatchStage
  finalizing : PatchStage
  answered : Reply → PatchStage

module _ (env : Outside) where
  abbrev pub Staged : Type 0
  Staged = Uploads env × PatchStage

  abbrev pub offset_stage : Uploads env → ResumableSession → Option Refusal → Staged
  offset_stage s session (some r) = (s, answered (refused r))
  offset_stage s session none = (s, appending session)

  abbrev pub read_stage : Uploads env → Request → Found → Staged
  read_stage s req (missing r) = (s, answered (refused r))
  read_stage s req (found session) =
      offset_stage s session (offset_error session.offset req.upload_offset)

  abbrev pub copy_stage :
      Faults → Uploads env → Request → ResumableSession → Str → Option ℕ → Staged
  copy_stage faults s req session old (some n) =
      (with_file env s req.upload_id (old ++ take n req.body), answered (failed not_written))
  copy_stage faults s req session old none =
      let after = with_file env s req.upload_id (old ++ req.body) in
      if faults.sync_fails then (after, answered (failed not_synced)) else (after, checking session)

  abbrev pub append_stage : Faults → Uploads env → Request → ResumableSession → Option Str → Staged
  append_stage faults s req session none = (s, answered (failed file_not_opened))
  append_stage faults s req session (some old) =
      if faults.open_fails
      then (s, answered (failed file_not_opened))
      else copy_stage faults s req session old faults.copy_stops

  -- The checksum of the file as it then is; of one that is gone there is none.
  abbrev pub computed_now : Faults → Str → ℕ → Option Str → Str
  computed_now faults provided new_offset none = []
  computed_now faults provided new_offset (some content) =
      computed_checksum env faults provided new_offset content

  abbrev pub check_stage : Faults → Uploads env → Request → ResumableSession → Option Str → Staged
  check_stage faults s req session content =
      let provided = provided_checksum req.upload_checksum in
      let new_offset = session.offset + length req.body in
      let computed = computed_now faults provided new_offset content in
      if not (is_nil provided) && not (str_eq computed provided)
      then (s, cutting session)
      else (s, storing (moved_on env session new_offset computed) computed)

  -- The file is cut to the offset of the session that was read.
  abbrev pub cut_stage :
      Faults → Uploads env → Request → ResumableSession → Option Str → Uploads env
  cut_stage faults s req session none = s
  cut_stage faults s req session (some content) =
      if faults.truncate_fails
      then s
      else record s { files = insert req.upload_id (truncate session.offset content) s.files }

  abbrev pub store_stage :
      Faults → Uploads env → Request → ResumableSession → Str → Option (Sessions env.bolt) → Staged
  store_stage faults s req moved computed none = (s, answered (failed session_not_updated))
  store_stage faults s req moved computed (some b) =
      let after = record s { sessions = b } in
      if str_eq req.finalize (bytes "1")
      then if faults.close_fails then (after, answered (failed not_closed)) else (after, finalizing)
      else (after, answered (appended moved.offset computed))

  abbrev pub ended : Outcome env → Staged
  ended (s, reply) = (s, answered reply)

  unfoldable pub patch_step : Faults → Request → Uploads env → PatchStage → Staged
  patch_step faults req s reading =
      read_stage s req (unfinished env (find_session env faults.now s req))
  patch_step faults req s (appending session) =
      append_stage faults s req session (lookup req.upload_id s.files)
  patch_step faults req s (checking session) =
      check_stage faults s req session (lookup req.upload_id s.files)
  patch_step faults req s (cutting session) =
      (cut_stage faults s req session (lookup req.upload_id s.files), answered (refused bad_digest))
  patch_step faults req s (storing moved computed) =
      store_stage faults s req moved computed
        (put_resumable_session env.bolt faults.put_fails moved s.sessions)
  patch_step faults req s finalizing = ended (handle_finalize env faults s req)
  patch_step faults req s (answered reply) = (s, answered reply)

  -- So many steps of one call.
  unfoldable pub patch_steps : ℕ → Faults → Request → Staged → Staged
  patch_steps zero faults req staged = staged
  patch_steps (suc n) faults req (s, stage) =
      patch_steps n faults req (patch_step faults req s stage)

  -- Two calls that overlap: `b` has read its session when `a` comes and goes, and then `b` goes on. The answers are
  -- of `a` and of `b`.
  unfoldable pub overlapped :
      Faults → Request → Request → Uploads env → Uploads env × (PatchStage × PatchStage)
  overlapped faults a b s =
      let began = patch_steps 1 faults b (s, reading) in
      let between = patch_steps 5 faults a (began.0, reading) in
      let end = patch_steps 4 faults b (between.0, began.1) in (end.0, (between.1, end.1))
