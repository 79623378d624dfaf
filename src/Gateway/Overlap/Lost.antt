-- ===== src/Gateway/Overlap/Lost.antt =====
-- Two calls of `HandlePatch` of internal/gateway/resumable.go on one session, of which one comes between the reading
-- and the writing of the other: the code has no lock, so this can happen.
use cipher_lake.Prelude.{
  ℕ, ◌+◌, true, false, some, [], ◌∷◌, ◌++◌, Str, str_eq, str_eq_iff, ◌≤◌, is_nil, length, lookup,
  insert, str_key, pos, parse_int, lookup-inserted, length-append, ◌≡◌, refl, arith, ap, subst, ◌∙◌,
}
use mathlib.Core.List.{append_assoc}
use cipher_lake.Gateway.Sessions.{ResumableSession}
use cipher_lake.Gateway.Requests.{
  Outside, bad_digest, appended, refused, Request, truncate, provided_checksum,
}
use cipher_lake.Gateway.Resumable.{Uploads}
use cipher_lake.Gateway.Resumable.Append.{with_file}
use cipher_lake.Gateway.Resumable.Steps.{
  PatchStage, reading, appending, answered, patch_step, patch_steps, ended, overlapped,
}
use cipher_lake.Gateway.Chunks.{
  quiet, IsReady, IsNext, find_ready, same_offset, checksum_after, session_after, uploads_after,
  patch_next,
}
use cipher_lake.Gateway.Chunks.Checksum.{truncate-append, verify_wrong}
use cipher_lake.Gateway.Invariant.{IsValid}
use cipher_lake.Gateway.Resumable.Coverage.{IsCovering}
use cipher_lake.Gateway.Overlap.{steps-appending, patch_steps-handle_patch}

str_eq-same : (s : Str) → str_eq s s ≡ true
str_eq-same s = ground (arith, str_eq_iff s s)

length-positive : (s : Str) → is_nil s ≡ false → 1 ≤ length s
length-positive [] e = absurd (cc e)
length-positive (c ∷ s) e = omega arith

module _ (env : Outside) (now : ℕ) (etag version_id : Str) where
  begins :
      (s : Uploads env) (b : Request) (session : ResumableSession) (content : Str)
      → IsReady env now s b session content
      → parse_int b.upload_offset ≡ some (pos session.offset)
      → patch_steps env 1 (quiet now etag version_id) b (s, reading) ≡ (s, appending session)
  unfolding patch_steps patch_step
  begins s b session content r here =
      rw (find_ready env now s b session content r)
        (rw (same_offset session.offset b.upload_offset here) refl)

  comes_and_goes :
      (s : Uploads env) (a : Request) (session : ResumableSession) (content : Str)
      → IsReady env now s a session content
      → IsNext env now session.offset a content
      → patch_steps env 5 (quiet now etag version_id) a (s, reading) ≡ (
        uploads_after env now s session a content,
        answered
            (appended (session.offset + length a.body) (checksum_after env now session a content)),
      )
  comes_and_goes s a session content r n =
      patch_steps-handle_patch env (quiet now etag version_id) a s
      ∙ ap (ended env) (patch_next env now etag version_id s a session content r n)

  -- The file that a wrong checksum cuts back to the offset that was read.
  cuts :
      (s : Uploads env) (b : Request) (session : ResumableSession) (content : Str)
      → lookup b.upload_id s.files ≡ some content
      → is_nil (provided_checksum b.upload_checksum) ≡ false
      → str_eq (env.digest (content ++ b.body)) (provided_checksum b.upload_checksum) ≡ false
      → patch_steps env 4 (quiet now etag version_id) b (s, appending session) ≡ (
        record s {
          files =
              insert b.upload_id
                (truncate session.offset (content ++ b.body))
                (insert b.upload_id (content ++ b.body) s.files);
        },
        answered (refused bad_digest),
      )
  unfolding patch_steps patch_step
  cuts s b session content e named wrong =
      steps-appending env (quiet now etag version_id) b s session (lookup b.upload_id s.files)
      ∙ rw e (
          ap (ended env) (
            verify_wrong env now etag version_id (with_file env s b.upload_id (content ++ b.body)) b
              session (content ++ b.body) named wrong))

  -- The file that was read.
  cut_back :
      (content one other : Str) → truncate (length content) ((content ++ one) ++ other) ≡ content
  cut_back content one other =
      rw (append_assoc content one other) (truncate-append content (one ++ other))

  module _ (s : Uploads env) (a b : Request) (session : ResumableSession) (content : Str) where
    abbrev left : Uploads env
    left = (overlapped env (quiet now etag version_id) a b s).0

    abbrev answers : PatchStage × PatchStage
    answers = (overlapped env (quiet now etag version_id) a b s).1

    abbrev end : Uploads env
    end =
        let after = uploads_after env now s session a content in
        record after {
          files =
              insert b.upload_id content
                (insert b.upload_id ((content ++ a.body) ++ b.body) after.files);
        }

    overlapped-end :
        b.upload_id ≡ a.upload_id
        → IsReady env now s a session content
        → IsNext env now session.offset a content
        → IsReady env now s b session content
        → parse_int b.upload_offset ≡ some (pos session.offset)
        → session.offset ≡ length content
        → is_nil (provided_checksum b.upload_checksum) ≡ false
        → str_eq (env.digest ((content ++ a.body) ++ b.body)) (provided_checksum b.upload_checksum)
          ≡ false
        → overlapped env (quiet now etag version_id) a b s ≡ (
          end,
          (
            answered (
                appended
                  (session.offset + length a.body)
                  (checksum_after env now session a content)),
            answered (refused bad_digest),
          ),
        )
    unfolding overlapped
    overlapped-end same r n q here ends named wrong = rw (begins s b session content q here) (
        rw (comes_and_goes s a session content r n) (
          rw
            (cuts (uploads_after env now s session a content) b session (content ++ a.body)
              (rw same (lookup-inserted a.upload_id (content ++ a.body) s.files)) named wrong)
            (rw ends (rw (cut_back content a.body b.body) refl))))

    moves : env.bolt.get a.upload_id end.sessions ≡ some (session_after env now session a content)
    moves =
        env.bolt.get-put a.upload_id a.upload_id (session_after env now session a content)
          s.sessions
        ∙ rw (str_eq-same a.upload_id) refl

    keeps : b.upload_id ≡ a.upload_id → lookup a.upload_id end.files ≡ some content
    keeps same = rw same (
        lookup-inserted a.upload_id content (
          insert a.upload_id ((content ++ a.body) ++ b.body)
            (uploads_after env now s session a content).files))

    -- A session behind the end of its file.
    ahead :
        (u : Uploads env)
        → session.offset ≡ length content
        → is_nil a.body ≡ false
        → env.bolt.get a.upload_id u.sessions ≡ some (session_after env now session a content)
        → lookup a.upload_id u.files ≡ some content
        → ¬ IsValid env u
    ahead u ends some_bytes moved cut v =
        let covered = (v a.upload_id (session_after env now session a content) moved).1 in
        let short = subst (IsCovering (session.offset + length a.body)) cut covered in
        let grown = length-positive a.body some_bytes in omega (arith, short, ends, grown)

    -- A call of `a` comes while one of `b` is on its way at the same offset of the same session, which is the end of
    -- its file; `b` has read the session and not yet written. `a` sends some bytes with no checksum or the right one, `b`
    -- has a checksum that is not that of what is then in the file, and nothing fails outside. Then `a` is answered that
    -- its bytes are there, `b` is refused, the session stands behind the bytes of `a`, and the file
    -- has lost them: it is the one from before, and ends before the offset of its session.
    pub overlap_loses :
        b.upload_id ≡ a.upload_id
        → IsReady env now s a session content
        → IsNext env now session.offset a content
        → is_nil a.body ≡ false
        → IsReady env now s b session content
        → parse_int b.upload_offset ≡ some (pos session.offset)
        → session.offset ≡ length content
        → is_nil (provided_checksum b.upload_checksum) ≡ false
        → str_eq (env.digest ((content ++ a.body) ++ b.body)) (provided_checksum b.upload_checksum)
          ≡ false
        → (answers ≡ (
          answered
              (appended (length (content ++ a.body)) (checksum_after env now session a content)),
          answered (refused bad_digest),
        ))
          × (env.bolt.get a.upload_id left.sessions
              ≡ some (session_after env now session a content))
          × (lookup a.upload_id left.files ≡ some content)
          × (¬ IsValid env left)
    overlap_loses same r n some_bytes q here ends named wrong =
        let all = overlapped-end same r n q here ends named wrong in
        let moved = ap (λ r. env.bolt.get a.upload_id r.0.sessions) all ∙ moves in
        let cut = ap (λ r. lookup a.upload_id r.0.files) all ∙ keeps same in
        (
          ap (λ r. r.1) all ∙ rw (length-append content a.body) (rw ends refl),
          moved,
          cut,
          ahead left ends some_bytes moved cut,
        )
