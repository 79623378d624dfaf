-- ===== src/Gateway/Invariant/Run.antt =====
-- Histories of calls on resumable uploads (internal/gateway/resumable.go and resumable_cleanup.go), of
-- which none begins before the one in front of it has ended.
use cipher_lake.Prelude.{ℕ, Bool, List, [], ◌∷◌, Str, if-either}
use cipher_lake.Gateway.Objects.{Objects}
use cipher_lake.Gateway.Sessions.{list_expired_sessions}
use cipher_lake.Gateway.Requests.{Outside, Faults, Request}
use cipher_lake.Gateway.Resumable.{Uploads, handle_create_session, handle_head}
use cipher_lake.Gateway.Resumable.Finalize.{handle_finalize}
use cipher_lake.Gateway.Resumable.Append.{handle_patch}
use cipher_lake.Gateway.Resumable.Cleanup.{cleanup_one, cleanup_all, cleanup}
use cipher_lake.Gateway.Resumable.Coverage.{remove-IsCovered, delete-IsCovered}
use cipher_lake.Gateway.Invariant.{IsValid, handle_create_session-IsValid, handle_head-IsValid}
use cipher_lake.Gateway.Invariant.Finalize.{handle_finalize-IsValid}
use cipher_lake.Gateway.Invariant.Append.{handle_patch-IsValid}

-- A call, with the faults it meets.
pub data Call : Type 0 where
  creates : Faults → Request → ℕ → Str → Call
  describes : ℕ → Request → Call
  appends finalizes : Faults → Request → Call
  cleans : (Str → Bool) → (Str → Bool) → ℕ → Call

module _ (env : Outside) where
  cleanup_one-IsValid :
      (remove_fails delete_fails : Str → Bool) (s : Uploads env) (id : Str)
      → IsValid env s
      → IsValid env (cleanup_one env remove_fails delete_fails s id)
  unfolding cleanup_one
  cleanup_one-IsValid remove_fails delete_fails s id v =
      let removed = remove-IsCovered env s.sessions s.files id v in
      if-either (IsValid env) (remove_fails id) v (
        if-either (IsValid env) (delete_fails id) removed
          (delete-IsCovered env s.sessions _ id removed))

  cleanup_all-IsValid :
      (remove_fails delete_fails : Str → Bool) (s : Uploads env) (ids : List Str)
      → IsValid env s
      → IsValid env (cleanup_all env remove_fails delete_fails s ids)
  cleanup_all-IsValid remove_fails delete_fails s [] v = v
  cleanup_all-IsValid remove_fails delete_fails s (id ∷ ids) v =
      cleanup_all-IsValid remove_fails delete_fails (cleanup_one env remove_fails delete_fails s id)
        ids (cleanup_one-IsValid remove_fails delete_fails s id v)

  cleanup-IsValid :
      (remove_fails delete_fails : Str → Bool) (now : ℕ) (s : Uploads env)
      → IsValid env s
      → IsValid env (cleanup env remove_fails delete_fails now s)
  unfolding cleanup
  cleanup-IsValid remove_fails delete_fails now s v =
      cleanup_all-IsValid remove_fails delete_fails s
        (list_expired_sessions env.bolt now s.sessions) v

  unfoldable pub step : Uploads env → Call → Uploads env
  step s (creates faults req expiry id) = (handle_create_session env faults s req expiry id).0
  step s (describes now req) = (handle_head env now s req).0
  step s (appends faults req) = (handle_patch env faults s req).0
  step s (finalizes faults req) = (handle_finalize env faults s req).0
  step s (cleans remove_fails delete_fails now) = cleanup env remove_fails delete_fails now s

  step-IsValid : (s : Uploads env) (c : Call) → IsValid env s → IsValid env (step s c)
  unfolding step
  step-IsValid s (creates faults req expiry id) v =
      handle_create_session-IsValid env faults s req expiry id v
  step-IsValid s (describes now req) v = handle_head-IsValid env now s req v
  step-IsValid s (appends faults req) v = handle_patch-IsValid env faults s req v
  step-IsValid s (finalizes faults req) v = handle_finalize-IsValid env faults s req v
  step-IsValid s (cleans remove_fails delete_fails now) v =
      cleanup-IsValid remove_fails delete_fails now s v

  unfoldable pub run_uploads : Uploads env → List Call → Uploads env
  run_uploads s [] = s
  run_uploads s (c ∷ cs) = run_uploads (step s c) cs

  -- The handler before the first call.
  abbrev pub new_uploads : Objects → Uploads env
  new_uploads objects = record { sessions = env.bolt.empty; files = []; objects = objects }

  run_uploads-IsValid :
      (s : Uploads env) (cs : List Call) → IsValid env s → IsValid env (run_uploads s cs)
  unfolding run_uploads
  run_uploads-IsValid s [] v = v
  run_uploads-IsValid s (c ∷ cs) v = run_uploads-IsValid (step s c) cs (step-IsValid s c v)

  new_uploads-IsValid : (objects : Objects) → IsValid env (new_uploads objects)
  new_uploads-IsValid objects id session e = absurd (cc (env.bolt.get-empty id, e))

  -- After any calls in any order, one after the other and none overlapping, with any faults of the disk and the stores on the way, every session of a
  -- resumable upload stands under its own id, and its temporary file, where it is there, has all the bytes up
  -- to the session's offset.
  pub run_uploads-new_uploads-IsValid :
      (objects : Objects) (cs : List Call) → IsValid env (run_uploads (new_uploads objects) cs)
  run_uploads-new_uploads-IsValid objects cs =
      run_uploads-IsValid (new_uploads objects) cs (new_uploads-IsValid objects)
