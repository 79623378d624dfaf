-- ===== src/Gateway/Invariant/Append.antt =====
-- `HandlePatch` of internal/gateway/resumable.go keeps sessions and files in agreement, also where the copy of
-- the body stops midway.
use cipher_lake.Prelude.{
  ℕ, ◌≤◌, ◌+◌, Option, none, some, [], ◌∷◌, ◌++◌, Str, length, take, zero, suc, ◌-◌, bytes, str_eq,
  lookup-inserted, insert, lookup, str_key, length-append, ◌≡◌, arith, refl, if-either, subst, sym,
  ap,
}
use cipher_lake.Gateway.Sessions.{ResumableSession, put_resumable_session}
use cipher_lake.Gateway.Requests.{
  Outside, Faults, Request, Found, found, missing, truncate, Refusal, zero_bytes, provided_checksum,
}
use cipher_lake.Gateway.Resumable.{Uploads, find_session, unfinished}
use cipher_lake.Gateway.Resumable.Append.{
  computed_checksum, moved_on, answer_append, verify_append, copy_body, append_file, patch_offset,
  patch_found, handle_patch,
}
use cipher_lake.Gateway.Resumable.Coverage.{IsCovering, put-IsCovered, insert-IsCovered}
use cipher_lake.Gateway.Invariant.{IsValid, IsValidAfter, put_session_cases}
use cipher_lake.Gateway.Invariant.Finalize.{unfinished_found, handle_finalize-IsValid}

length-zero_bytes : (n : ℕ) → length (zero_bytes n) ≡ n
length-zero_bytes zero = refl
length-zero_bytes (suc n) = ap suc (length-zero_bytes n)

length-take : (n : ℕ) (s : Str) → length (take n s) + (n - length s) ≡ n
length-take zero s = omega arith
length-take (suc n) [] = omega arith
length-take (suc n) (c ∷ s) = omega (arith, length-take n s)

pub length-truncate : (n : ℕ) (s : Str) → length (truncate n s) ≡ n
length-truncate n s = omega (
  arith,
  length-append (take n s) (zero_bytes (n - length s)),
  length-take n s,
  length-zero_bytes (n - length s),
)

module _ (env : Outside) where
  -- A longer file in place of the file of a session.
  with_file-IsValid :
      (s : Uploads env) (id content : Str) (session : ResumableSession)
      → IsValid env s
      → env.bolt.get id s.sessions ≡ some session
      → session.offset ≤ length content
      → IsValid env (record s { files = insert id content s.files })
  with_file-IsValid s id content session v e h =
      insert-IsCovered env s.sessions s.files id content v λ other here. ground (arith, e, here, h)

  answer_append-IsValid :
      (faults : Faults) (s : Uploads env) (req : Request) (n : ℕ) (checksum : Str)
      (session : ResumableSession)
      → IsValid env s
      → IsCovering session.offset (lookup session.upload_id s.files)
      → IsValidAfter env (
          answer_append env faults s req n checksum
            (put_resumable_session env.bolt faults.put_fails session s.sessions))
  answer_append-IsValid faults s req n checksum session v h =
      let put = put-IsCovered env s.sessions s.files session v h in
      put_session_cases env (λ o. IsValidAfter env (answer_append env faults s req n checksum o))
        faults.put_fails session s.sessions v
        (if-either (IsValidAfter env) (str_eq req.finalize (bytes "1"))
          (if-either (IsValidAfter env) faults.close_fails put (
            handle_finalize-IsValid env faults
              (record s { sessions = env.bolt.put session.upload_id session s.sessions }) req put))
          put)

  -- Once the bytes are in the file.
  verify_append-IsValid :
      (faults : Faults) (s : Uploads env) (req : Request) (session : ResumableSession)
      (content : Str)
      → IsValid env s
      → env.bolt.get req.upload_id s.sessions ≡ some session
      → lookup req.upload_id s.files ≡ some content
      → session.offset + length req.body ≤ length content
      → IsValidAfter env (verify_append env faults s req session content)
  unfolding verify_append
  verify_append-IsValid faults s req session content v e f h =
      let keyed : session.upload_id ≡ req.upload_id = (v req.upload_id session e).0 in
      let next = session.offset + length req.body in
      let checksum =
        computed_checksum env faults (provided_checksum req.upload_checksum) next content in
      let covers : IsCovering next (lookup session.upload_id s.files) =
        subst (λ i. IsCovering next (lookup i s.files)) (sym keyed)
          (subst (IsCovering next) (sym f) h) in
      if-either (IsValidAfter env) _
        (if-either (IsValid env) faults.truncate_fails v (
          with_file-IsValid s req.upload_id (truncate session.offset content) session v e
            (omega (arith, length-truncate session.offset content))))
        (answer_append-IsValid faults s req next checksum (moved_on env session next checksum) v
          covers)

  copy_body-IsValid :
      (faults : Faults) (s : Uploads env) (req : Request) (session : ResumableSession) (old : Str)
      (stops : Option ℕ)
      → IsValid env s
      → env.bolt.get req.upload_id s.sessions ≡ some session
      → session.offset ≤ length old
      → IsValidAfter env (copy_body env faults s req session old stops)
  copy_body-IsValid faults s req session old (some n) v e h =
      with_file-IsValid s req.upload_id _ session v e
        (omega (arith, length-append old (take n req.body), h))
  copy_body-IsValid faults s req session old none v e h =
      let longer =
        with_file-IsValid s req.upload_id (old ++ req.body) session v e
          (omega (arith, length-append old req.body, h)) in
      if-either (IsValidAfter env) faults.sync_fails longer (
        verify_append-IsValid faults _ req session (old ++ req.body) longer e
          (lookup-inserted req.upload_id (old ++ req.body) s.files)
          (omega (arith, length-append old req.body, h)))

  append_file-IsValid :
      (faults : Faults) (s : Uploads env) (req : Request) (session : ResumableSession)
      (file : Option Str)
      → IsValid env s
      → env.bolt.get req.upload_id s.sessions ≡ some session
      → IsCovering session.offset file
      → IsValidAfter env (append_file env faults s req session file)
  append_file-IsValid faults s req session none v e h = v
  append_file-IsValid faults s req session (some old) v e h =
      if-either (IsValidAfter env) faults.open_fails v
        (copy_body-IsValid faults s req session old faults.copy_stops v e h)

  patch_offset-IsValid :
      (faults : Faults) (s : Uploads env) (req : Request) (session : ResumableSession)
      (r : Option Refusal)
      → IsValid env s
      → env.bolt.get req.upload_id s.sessions ≡ some session
      → IsValidAfter env (patch_offset env faults s req session r)
  patch_offset-IsValid faults s req session (some r) v e = v
  patch_offset-IsValid faults s req session none v e =
      append_file-IsValid faults s req session (lookup req.upload_id s.files) v e
        (v req.upload_id session e).1

  pub handle_patch-IsValid :
      (faults : Faults) (s : Uploads env) (req : Request)
      → IsValid env s
      → IsValidAfter env (handle_patch env faults s req)
  unfolding handle_patch
  handle_patch-IsValid faults s req v = go (unfinished env (find_session env faults.now s req)) refl
    where
      go :
          (f : Found)
          → unfinished env (find_session env faults.now s req) ≡ f
          → IsValidAfter env (patch_found env faults s req f)
      go (missing r) e = v
      go (found session) e =
          patch_offset-IsValid faults s req session _ v
            (unfinished_found env faults.now s req session e)
