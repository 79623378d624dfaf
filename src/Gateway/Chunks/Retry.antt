-- ===== src/Gateway/Chunks/Retry.antt =====
-- A request that is sent again in internal/gateway/resumable.go, after the copy of its body has stopped midway.
use cipher_lake.Prelude.{
  true, ℕ, some, [], ◌∷◌, ◌++◌, Str, Option, subst, sym, take, insert, lookup-inserted, str_key,
  ◌≡◌, refl,
}
use cipher_lake.Gateway.Sessions.{ResumableSession}
use cipher_lake.Gateway.Requests.{Outside, Faults, Request, failed, not_written}
use cipher_lake.Gateway.Resumable.{Uploads}
use cipher_lake.Gateway.Resumable.Finalize.{handle_finalize, sealed}
use cipher_lake.Gateway.Resumable.Append.{handle_patch}
use cipher_lake.Gateway.Chunks.{
  quiet, IsReady, IsNext, find_ready, same_offset, session_after, uploads_after, patch_next,
}
use cipher_lake.Gateway.Chunks.Whole.{
  IsLike, IsFinished, send, IsLike-IsReady, uploads_after-IsReady, finalize_ready,
}

-- The copy stops after so many bytes; nothing else fails.
abbrev pub cut : ℕ → ℕ → Str → Str → Faults
cut n now etag version_id = record (quiet now etag version_id) { copy_stops = some n }

module _ (env : Outside) (now : ℕ) (etag version_id : Str) where
  -- The file has the part, and the session is as before.
  abbrev pub after_cut : ℕ → Uploads env → Request → Str → Uploads env
  after_cut n s req content = record s {
    files = insert req.upload_id (content ++ take n req.body) s.files;
  }

  patch_cut :
      (n : ℕ) (s : Uploads env) (req : Request) (session : ResumableSession) (content : Str)
      → IsReady env now s req session content
      → IsNext env now session.offset req content
      → handle_patch env (cut n now etag version_id) s req
        ≡ (after_cut n s req content, failed not_written)
  unfolding handle_patch
  patch_cut n s req session content r next =
      rw (find_ready env now s req session content r)
        (rw (same_offset session.offset req.upload_offset next.at_end) (rw r.file refl))

  after_cut-IsReady :
      (n : ℕ) (s : Uploads env) (req : Request) (session : ResumableSession) (content : Str)
      → IsReady env now s req session content
      → IsReady env now (after_cut n s req content) req session (content ++ take n req.body)
  after_cut-IsReady n s req session content r = record {
    authorized = r.authorized;
    named = r.named;
    allowed = r.allowed;
    there = r.there;
    keyed = r.keyed;
    in_bucket = r.in_bucket;
    under_key = r.under_key;
    in_time = r.in_time;
    pending = r.pending;
    file = lookup-inserted req.upload_id (content ++ take n req.body) s.files;
  }

  -- The bug of an interrupted append: the call fails and the session keeps its offset, but the bytes that
  -- came through stay in the file. A second request at that offset is accepted, and a finalization stores the
  -- old bytes, the part, and the second body.
  pub retry_stores_part :
      (n : ℕ) (s : Uploads env) (first second to : Request) (session : ResumableSession)
      (content out : Str) (dek : Option Str)
      → to.authorized ≡ true
      → IsReady env now s first session content
      → IsNext env now session.offset first content
      → IsLike env now etag version_id first second
      → IsLike env now etag version_id second to
      → IsNext env now session.offset second (content ++ take n first.body)
      → sealed env ((content ++ take n first.body) ++ second.body) ≡ some (out, dek)
      → ((handle_patch env (cut n now etag version_id) s first).1 ≡ failed not_written)
        × (env.bolt.get first.upload_id
              (handle_patch env (cut n now etag version_id) s first).0.sessions
            ≡ some session)
        × IsFinished env now etag version_id to
            (session_after env now session second (content ++ take n first.body))
            ((content ++ take n first.body) ++ second.body)
            out
            dek
            (handle_finalize env
              (quiet now etag version_id)
              (send env now etag version_id
                (handle_patch env (cut n now etag version_id) s first).0
                (second ∷ []))
              to)
  unfolding send
  retry_stores_part n s first second to session content out dek goes r next l m again e =
      let part = content ++ take n first.body in
      let s1 = after_cut n s first content in
      let ready =
        IsLike-IsReady env now etag version_id s1 second first session part l.authorized l
          (after_cut-IsReady n s first session content r) in
      let s2 = uploads_after env now s1 session second part in
      let ready2 =
        IsLike-IsReady env now etag version_id s2 to second
          (session_after env now session second part) (part ++ second.body) goes m
          (uploads_after-IsReady env now etag version_id s1 second session part ready) in
      let stored =
        finalize_ready env now etag version_id s2 to (session_after env now session second part)
          (part ++ second.body) out dek ready2 e in
      let moved = patch_next env now etag version_id s1 second session part ready again in
      subst
        (λ p.
          (p.1 ≡ failed not_written)
          × (env.bolt.get first.upload_id p.0.sessions ≡ some session)
          × IsFinished env now etag version_id to (session_after env now session second part)
              (part ++ second.body) out dek
              (handle_finalize env (quiet now etag version_id)
                (handle_patch env (quiet now etag version_id) p.0 second).0 to))
        (sym (patch_cut n s first session content r next))
        (
          refl,
          r.there,
          subst
              (λ q.
                IsFinished env now etag version_id to (session_after env now session second part)
                  (part ++ second.body) out dek
                  (handle_finalize env (quiet now etag version_id) q.0 to))
              (sym moved) stored,
        )
