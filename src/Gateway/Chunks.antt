-- ===== src/Gateway/Chunks.antt =====
-- An upload in chunks through the handlers of internal/gateway/resumable.go: appends at the offsets that they
-- answer, then the finalization, with a disk and stores that do not fail.
pub mod Whole
pub mod Retry
pub mod Checksum
use cipher_lake.Prelude.{
  ℕ, ◌+◌, Bool, true, false, Option, none, some, List, [], ◌∷◌, ◌++◌, ◌&&◌, ◌||◌, not, subst, sym,
  Str, bytes, str_eq, str_eq_iff, is_nil, length, insert, lookup, str_key, length-append,
  lookup-inserted, ltb, parse_int, pos, eq_int, if◌then◌else◌, ◌≡◌, ◌⊎◌, inl, inr, arith, refl,
}
use cipher_lake.Gateway.Objects.{Objects, data_at}
use cipher_lake.Gateway.Sessions.{ResumableSession, Sessions, put_resumable_session}
use cipher_lake.Gateway.Requests.{
  Outside, Faults, Request, Found, found, missing, offset_error, provided_checksum, appended,
}
use cipher_lake.Gateway.Resumable.{Uploads, find_session, unfinished}
use cipher_lake.Gateway.Resumable.Append.{
  computed_checksum, moved_on, answer_append, verify_append, copy_body, append_file, patch_offset,
  patch_found, handle_patch,
}

-- Nothing fails.
abbrev pub quiet : ℕ → Str → Str → Faults
quiet now etag version_id = record {
  open_fails = false;
  copy_stops = none;
  sync_fails = false;
  read_fails = false;
  truncate_fails = false;
  put_fails = false;
  create_fails = false;
  close_fails = false;
  stat_fails = false;
  remove_fails = false;
  delete_fails = false;
  mark_fails = false;
  store = record {
    data_fails = false;
    torn = (λ old. old);
    metadata_fails = false;
    delete_fails = false;
  };
  now = now;
  later = now;
  etag = etag;
  version_id = version_id;
}

parse_int-nil : parse_int [] ≡ none
unfolding parse_int
parse_int-nil = refl

pub same_offset :
    (n : ℕ) (header : Str) → parse_int header ≡ some (pos n) → offset_error n header ≡ none
same_offset n [] e = absurd (cc (parse_int-nil, e))
same_offset n (c ∷ header) e = rw e (ground arith)

module _ (env : Outside) (now : ℕ) where
  -- A session that takes requests like this one, and its file.
  pub record IsReady (s : Uploads env) (req : Request) (session : ResumableSession) (content : Str)
      : Type 0 where
    pub authorized : req.authorized ≡ true
    pub named : is_nil req.upload_id ≡ false
    pub allowed : env.bolt.key_allowed req.upload_id ≡ true
    pub there : env.bolt.get req.upload_id s.sessions ≡ some session
    pub keyed : session.upload_id ≡ req.upload_id
    pub in_bucket : session.bucket ≡ req.bucket
    pub under_key : session.key ≡ req.key
    pub in_time : ltb session.expires_at now ≡ false
    pub pending : session.finalized ≡ false
    pub file : lookup req.upload_id s.files ≡ some content

  pub find_ready :
      (s : Uploads env) (req : Request) (session : ResumableSession) (content : Str)
      → IsReady s req session content
      → unfinished env (find_session env now s req) ≡ found session
  unfolding find_session
  find_ready s req session content r =
      let b = str_eq_iff session.bucket req.bucket in
      let k = str_eq_iff session.key req.key in ground (arith, r, b, k)

  -- A request that appends at the offset behind these bytes of the file: it names the offset, has no checksum or
  -- the one of all bytes with its own, and does not ask to finalize.
  pub record IsNext (offset : ℕ) (req : Request) (content : Str) : Type 0 where
    pub at_end : parse_int req.upload_offset ≡ some (pos offset)
    pub right :
        (provided_checksum req.upload_checksum ≡ [])
        ⊎ (provided_checksum req.upload_checksum ≡ env.digest (content ++ req.body))
    pub goes_on : str_eq req.finalize (bytes "1") ≡ false

  -- The checksum that the session gets: of all bytes, unless there are none and none was asked for.
  abbrev pub checksum_after : ResumableSession → Request → Str → Str
  checksum_after session req content =
      computed_checksum env (quiet now [] []) (provided_checksum req.upload_checksum)
        (session.offset + length req.body) (content ++ req.body)

  abbrev pub session_after : ResumableSession → Request → Str → ResumableSession
  session_after session req content =
      moved_on env session (session.offset + length req.body) (checksum_after session req content)

  abbrev pub uploads_after : Uploads env → ResumableSession → Request → Str → Uploads env
  uploads_after s session req content = record s {
    files = insert req.upload_id (content ++ req.body) s.files;
    sessions = env.bolt.put req.upload_id (session_after session req content) s.sessions;
  }

  -- The right checksum, or none, is not refused.
  right_checksum :
      (provided right : Str) (b : Bool)
      → (provided ≡ []) ⊎ (provided ≡ right)
      → (not (is_nil provided)
          && not (str_eq (if not (is_nil provided) || b then right else []) provided))
        ≡ false
  right_checksum [] right b h = refl
  right_checksum (c ∷ provided) right b (inl e) = absurd (cc e)
  right_checksum (c ∷ provided) right b (inr e) = ground (arith, str_eq_iff right (c ∷ provided), e)

  module _ (etag version_id : Str) where
    verify_next :
        (s : Uploads env) (req : Request) (session : ResumableSession) (content : Str)
        → session.upload_id ≡ req.upload_id
        → env.bolt.key_allowed req.upload_id ≡ true
        → IsNext session.offset req content
        → verify_append env (quiet now etag version_id) s req session (content ++ req.body) ≡ (
          record s {
            sessions = env.bolt.put req.upload_id (session_after session req content) s.sessions;
          },
          appended (session.offset + length req.body) (checksum_after session req content),
        )
    unfolding verify_append put_resumable_session
    verify_next s req session content keyed allowed n =
        rw
          (right_checksum (provided_checksum req.upload_checksum) (env.digest (content ++ req.body))
            (ltb 0 (session.offset + length req.body)) n.right)
          (rw keyed (rw allowed (rw n.goes_on refl)))

    pub patch_next :
        (s : Uploads env) (req : Request) (session : ResumableSession) (content : Str)
        → IsReady s req session content
        → IsNext session.offset req content
        → handle_patch env (quiet now etag version_id) s req ≡ (
          uploads_after s session req content,
          appended (session.offset + length req.body) (checksum_after session req content),
        )
    unfolding handle_patch
    patch_next s req session content r n = rw (find_ready s req session content r) (
        rw (same_offset session.offset req.upload_offset n.at_end) (
          rw r.file (
            verify_next (record s { files = insert req.upload_id (content ++ req.body) s.files })
              req session content r.keyed r.allowed n)))
