-- ===== src/Gateway/Invariant/Finalize.antt =====
-- `HandleFinalize` of internal/gateway/resumable.go keeps sessions and files in agreement.
use cipher_lake.Prelude.{
  ℕ, true, Option, none, some, List, Str, lookup, str_key, ◌≡◌, refl, get_or, if-either, subst, sym,
}
use cipher_lake.Gateway.Objects.{Objects, StoreResult, stored, data_refused, metadata_refused}
use cipher_lake.Gateway.Sessions.{ResumableSession, Sessions}
use cipher_lake.Gateway.Requests.{Outside, Faults, Request, Found, found, missing}
use cipher_lake.Gateway.Resumable.{Uploads, forget, find_session, unfinished}
use cipher_lake.Gateway.Resumable.Finalize.{
  mark, cleanup_session, conclude, store_sealed, finalize_file, finalize_found, handle_finalize,
  sealed,
}
use cipher_lake.Gateway.Resumable.Coverage.{IsCovering, IsCovered, put-IsCovered, remove-IsCovered}
use cipher_lake.Gateway.Invariant.{
  IsValid, IsValidAfter, put_session_cases, forget-IsCovered, find_session-finds, unfinished-finds,
}

module _ (env : Outside) where
  pub unfinished_found :
      (now : ℕ) (s : Uploads env) (req : Request) (session : ResumableSession)
      → unfinished env (find_session env now s req) ≡ found session
      → env.bolt.get req.upload_id s.sessions ≡ some session
  unfinished_found now s req session e =
      find_session-finds env now s req session
        (unfinished-finds env (find_session env now s req) session e)

  mark-IsCovered :
      (faults : Faults) (b : Sessions env.bolt) (files : List (Str × Str))
      (session : ResumableSession)
      → IsCovered env b files
      → IsCovering session.offset (lookup session.upload_id files)
      → IsCovered env (mark env faults session b) files
  mark-IsCovered faults b files session v h =
      put_session_cases env (λ o. IsCovered env (get_or o b) files) faults.mark_fails
        (record session { finalized = true }) b v
        (put-IsCovered env b files (record session { finalized = true }) v h)

  cleanup_session-IsValid :
      (faults : Faults) (s : Uploads env) (id : Str)
      → IsValid env s
      → IsValid env (cleanup_session env faults s id)
  cleanup_session-IsValid faults s id v =
      if-either (λ files. IsCovered env (forget env faults id s.sessions) files) faults.remove_fails
        (forget-IsCovered env faults s.sessions s.files id v)
        (remove-IsCovered env _ s.files id (forget-IsCovered env faults s.sessions s.files id v))

  conclude-IsValid :
      (faults : Faults) (s : Uploads env) (session : ResumableSession) (r : Objects × StoreResult)
      → IsValid env s
      → IsCovering session.offset (lookup session.upload_id s.files)
      → IsValidAfter env (conclude env faults s session r)
  conclude-IsValid faults s session (objects, stored) v h =
      let marked = mark-IsCovered faults s.sessions s.files session v h in
      if-either (IsValidAfter env) faults.close_fails marked (
        cleanup_session-IsValid faults
          (record s { objects = objects; sessions = mark env faults session s.sessions })
          session.upload_id marked)
  conclude-IsValid faults s session (objects, data_refused) v h = v
  conclude-IsValid faults s session (objects, metadata_refused) v h = v

  store_sealed-IsValid :
      (faults : Faults) (s : Uploads env) (req : Request) (session : ResumableSession)
      (content : Str) (o : Option (Str × Option Str))
      → IsValid env s
      → IsCovering session.offset (lookup session.upload_id s.files)
      → IsValidAfter env (store_sealed env faults s req session content o)
  store_sealed-IsValid faults s req session content none v h = v
  store_sealed-IsValid faults s req session content (some (out, dek)) v h =
      conclude-IsValid faults s session _ v h

  finalize_file-IsValid :
      (faults : Faults) (s : Uploads env) (req : Request) (session : ResumableSession)
      (file : Option Str)
      → IsValid env s
      → IsCovering session.offset (lookup session.upload_id s.files)
      → IsValidAfter env (finalize_file env faults s req session file)
  finalize_file-IsValid faults s req session none v h = v
  finalize_file-IsValid faults s req session (some content) v h =
      if-either (IsValidAfter env) faults.open_fails v (
        if-either (IsValidAfter env) faults.stat_fails v
          (store_sealed-IsValid faults s req session content (sealed env content) v h))

  pub get-IsCovering :
      (s : Uploads env) (id : Str) (session : ResumableSession)
      → IsValid env s
      → env.bolt.get id s.sessions ≡ some session
      → IsCovering session.offset (lookup session.upload_id s.files)
  get-IsCovering s id session v e =
      let (keyed, covers) = v id session e in
      subst (λ i. IsCovering session.offset (lookup i s.files)) (sym keyed) covers

  pub handle_finalize-IsValid :
      (faults : Faults) (s : Uploads env) (req : Request)
      → IsValid env s
      → IsValidAfter env (handle_finalize env faults s req)
  unfolding handle_finalize
  handle_finalize-IsValid faults s req v =
      go (unfinished env (find_session env faults.later s req)) refl
    where
      go :
          (f : Found)
          → unfinished env (find_session env faults.later s req) ≡ f
          → IsValidAfter env (finalize_found env faults s req f)
      go (missing r) e = v
      go (found session) e =
          finalize_file-IsValid faults s req session (lookup req.upload_id s.files) v (
            get-IsCovering s req.upload_id session v
              (unfinished_found faults.later s req session e))
