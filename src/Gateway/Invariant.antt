-- ===== src/Gateway/Invariant.antt =====
-- What holds of resumable uploads (internal/gateway/resumable.go) after a call, and the calls that make and
-- describe a session.
pub mod Finalize
pub mod Append
pub mod Run
use cipher_lake.Prelude.{
  ℕ, ◌≤◌, ◌+◌, Bool, true, false, Option, none, some, List, [], ◌∷◌, ◌++◌, Str, str_eq_iff, length,
  take, insert, remove, lookup, str_key, length-append, if◌then◌else◌, ◌≡◌, arith, refl, get_or,
  not, ◌&&◌, if-either, subst, sym, ap,
}
use cipher_lake.Gateway.Objects.{
  Objects, StoreResult, stored, data_refused, metadata_refused, put_stored_object_with_metadata,
}
use cipher_lake.Gateway.Sessions.{
  ResumableSession, Sessions, put_resumable_session, list_expired_sessions,
}
use cipher_lake.Gateway.Requests.{
  Outside, Faults, Request, Found, found, missing, truncate, Refusal, zero_bytes, offset_error,
}
use cipher_lake.Gateway.Resumable.{
  Uploads, Outcome, forget, create_file, new_session, handle_create_session, find_session,
  check_session, unfinished, handle_head, describe,
}
use cipher_lake.Gateway.Resumable.Finalize.{
  mark, cleanup_session, conclude, store_sealed, finalize_file, finalize_found, handle_finalize,
  sealed,
}
use cipher_lake.Gateway.Resumable.Append.{
  moved_on, answer_append, verify_append, copy_body, append_file, patch_offset, patch_found,
  handle_patch,
}
use cipher_lake.Gateway.Resumable.Cleanup.{cleanup_one, cleanup_all, cleanup}
use cipher_lake.Gateway.Resumable.Coverage.{
  IsCovering, IsCovered, put-IsCovered, insert-IsCovered, remove-IsCovered, delete-IsCovered,
}

module _ (env : Outside) where
  abbrev pub IsValid : Uploads env → Type 0
  IsValid s = IsCovered env s.sessions s.files

  abbrev IsValidAfter : Outcome env → Type 0
  IsValidAfter o = IsValid o.0

  pub forget-IsCovered :
      (faults : Faults) (b : Sessions env.bolt) (files : List (Str × Str)) (id : Str)
      → IsCovered env b files
      → IsCovered env (forget env faults id b) files
  forget-IsCovered faults b files id v =
      if-either (λ o. IsCovered env (get_or o b) files) faults.delete_fails v
        (delete-IsCovered env b files id v)

  pub zero-IsCovering : (o : Option Str) → IsCovering 0 o
  zero-IsCovering none = tt
  zero-IsCovering (some content) = omega arith

  -- The two outcomes of writing a session.
  pub put_session_cases :
      (P : Option (Sessions env.bolt) → Type 0) (fails : Bool) (session : ResumableSession)
      (b : Sessions env.bolt)
      → P none
      → P (some (env.bolt.put session.upload_id session b))
      → P (put_resumable_session env.bolt fails session b)
  unfolding put_resumable_session
  put_session_cases P fails session b h k =
      if-either P (env.bolt.key_allowed session.upload_id && not fails) k h

  pub new-IsCovered :
      (b : Sessions env.bolt) (files : List (Str × Str)) (session : ResumableSession)
      → session.offset ≡ 0
      → IsCovered env b files
      → IsCovered env (env.bolt.put session.upload_id session b) files
  new-IsCovered b files session e v = put-IsCovered env b files session v (
      subst (λ n. IsCovering n (lookup session.upload_id files)) (sym e)
        (zero-IsCovering (lookup session.upload_id files)))

  pub put_same :
      (b : Sessions env.bolt) (session other : ResumableSession)
      → env.bolt.get session.upload_id (env.bolt.put session.upload_id session b) ≡ some other
      → other ≡ session
  put_same b session other here =
      let same = str_eq_iff session.upload_id session.upload_id in
      ground (arith, env.bolt.get-put session.upload_id session.upload_id session b, same, here)

  pub new_file-IsCovered :
      (b : Sessions env.bolt) (files : List (Str × Str)) (session : ResumableSession)
      → session.offset ≡ 0
      → IsCovered env b files
      → IsCovered env (env.bolt.put session.upload_id session b) (insert session.upload_id [] files)
  new_file-IsCovered b files session e v =
      insert-IsCovered env _ files session.upload_id [] (new-IsCovered b files session e v)
        λ other here. ground (arith, put_same b session other here, e)

  pub create_file-IsValid :
      (faults : Faults) (s : Uploads env) (session : ResumableSession)
      → session.offset ≡ 0
      → IsValid s
      → IsValidAfter (
          create_file env faults s session.upload_id
            (put_resumable_session env.bolt faults.put_fails session s.sessions))
  create_file-IsValid faults s session e v =
      put_session_cases (λ o. IsValidAfter (create_file env faults s session.upload_id o))
        faults.put_fails session s.sessions v
        (if-either IsValidAfter faults.create_fails
          (forget-IsCovered faults _ s.files session.upload_id
            (new-IsCovered s.sessions s.files session e v))
          (new_file-IsCovered s.sessions s.files session e v))

  pub handle_create_session-IsValid :
      (faults : Faults) (s : Uploads env) (req : Request) (expiry : ℕ) (id : Str)
      → IsValid s
      → IsValidAfter (handle_create_session env faults s req expiry id)
  unfolding handle_create_session
  handle_create_session-IsValid faults s req expiry id v =
      if-either IsValidAfter (not req.authorized) v
        (create_file-IsValid faults s (new_session env req faults.now expiry id) refl v)

  pub describe-IsValid : (s : Uploads env) (f : Found) → IsValid s → IsValidAfter (describe env s f)
  describe-IsValid s (missing r) v = v
  describe-IsValid s (found session) v = v

  pub handle_head-IsValid :
      (now : ℕ) (s : Uploads env) (req : Request)
      → IsValid s
      → IsValidAfter (handle_head env now s req)
  unfolding handle_head
  handle_head-IsValid now s req v = describe-IsValid s (find_session env now s req) v

  -- The session that the guards let through is the one under the request's id.
  pub find_session-finds :
      (now : ℕ) (s : Uploads env) (req : Request) (session : ResumableSession)
      → find_session env now s req ≡ found session
      → env.bolt.get req.upload_id s.sessions ≡ some session
  unfolding find_session
  find_session-finds now s req session e = ground (arith, e)

  pub unfinished-finds :
      (f : Found) (session : ResumableSession)
      → unfinished env f ≡ found session
      → f ≡ found session
  unfinished-finds (missing r) session e = absurd (cc)
  unfinished-finds (found other) session e = ground (arith, e)
