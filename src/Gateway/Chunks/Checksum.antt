-- ===== src/Gateway/Chunks/Checksum.antt =====
-- A body whose checksum is wrong, in internal/gateway/resumable.go.
use cipher_lake.Prelude.{
  ℕ, ◌+◌, ◌-◌, Bool, true, false, some, [], ◌++◌, ◌&&◌, ◌||◌, not, Str, str_eq, is_nil, ◌∙◌, take,
  length, insert, lookup, str_key, take-append, length-append, lookup-insert, str_eq_iff, parse_int,
  pos, ltb, if◌then◌else◌, ◌≡◌, refl, arith,
}
use mathlib.Core.List.{append-nil}
use cipher_lake.Gateway.Sessions.{ResumableSession}
use cipher_lake.Gateway.Requests.{
  Outside, Request, refused, bad_digest, truncate, provided_checksum,
}
use cipher_lake.Gateway.Resumable.{Uploads}
use cipher_lake.Gateway.Resumable.Append.{handle_patch, verify_append}
use cipher_lake.Gateway.Chunks.{quiet, IsReady, find_ready, same_offset}

pub truncate-append : (s t : Str) → truncate (length s) (s ++ t) ≡ s
truncate-append s t =
    let nothing : length s - length (s ++ t) ≡ 0 = omega (arith, length-append s t) in
    rw nothing (append-nil (take (length s) (s ++ t)) ∙ take-append s t)

wrong_refused :
    (provided right : Str) (b : Bool)
    → is_nil provided ≡ false
    → str_eq right provided ≡ false
    → (not (is_nil provided)
        && not (str_eq (if not (is_nil provided) || b then right else []) provided))
      ≡ true
wrong_refused provided right b named wrong = rw named (rw wrong refl)

module _ (env : Outside) (now : ℕ) (etag version_id : Str) where
  -- The state reads as it did.
  abbrev pub IsKept : Uploads env → Uploads env → Type 0
  IsKept s after =
      (after.sessions ≡ s.sessions)
      × (after.objects ≡ s.objects)
      × ((id : Str) → lookup id after.files ≡ lookup id s.files)

  rewritten_twice :
      (s : Uploads env) (id content longer : Str)
      → lookup id s.files ≡ some content
      → (j : Str) → lookup j (insert id content (insert id longer s.files)) ≡ lookup j s.files
  rewritten_twice s id content longer e j = ground (
    arith,
    lookup-insert id j content (insert id longer s.files),
    lookup-insert id j longer s.files,
    str_eq_iff id j,
    e,
  )

  pub verify_wrong :
      (s : Uploads env) (req : Request) (session : ResumableSession) (content : Str)
      → is_nil (provided_checksum req.upload_checksum) ≡ false
      → str_eq (env.digest content) (provided_checksum req.upload_checksum) ≡ false
      → verify_append env (quiet now etag version_id) s req session content ≡ (
        record s { files = insert req.upload_id (truncate session.offset content) s.files },
        refused bad_digest,
      )
  unfolding verify_append
  verify_wrong s req session content named wrong =
      rw
        (wrong_refused (provided_checksum req.upload_checksum) (env.digest content)
          (ltb 0 (session.offset + length req.body)) named wrong)
        refl

  -- A body with a wrong checksum, at the right offset of a session whose file ends there, is refused, and
  -- sessions, objects and all files read as before: what was written is cut off again.
  pub wrong_checksum_keeps :
      (s : Uploads env) (req : Request) (session : ResumableSession) (content : Str)
      → IsReady env now s req session content
      → session.offset ≡ length content
      → parse_int req.upload_offset ≡ some (pos session.offset)
      → is_nil (provided_checksum req.upload_checksum) ≡ false
      → str_eq (env.digest (content ++ req.body)) (provided_checksum req.upload_checksum) ≡ false
      → ((handle_patch env (quiet now etag version_id) s req).1 ≡ refused bad_digest)
        × IsKept s (handle_patch env (quiet now etag version_id) s req).0
  unfolding handle_patch
  wrong_checksum_keeps s req session content r ends here named wrong =
      let longer = record s { files = insert req.upload_id (content ++ req.body) s.files } in
      rw (find_ready env now s req session content r) (
        rw (same_offset session.offset req.upload_offset here) (
          rw r.file (
            rw (verify_wrong longer req session (content ++ req.body) named wrong) (
              rw ends (
                rw (truncate-append content req.body) (
                  refl,
                  (
                    refl,
                    refl,
                    λ j. rewritten_twice s req.upload_id content (content ++ req.body) r.file j,
                  ),
                ))))))
