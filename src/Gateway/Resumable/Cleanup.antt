-- ===== src/Gateway/Resumable/Cleanup.antt =====
-- The cleaner of overdue sessions in internal/gateway/resumable_cleanup.go.
use cipher_lake.Prelude.{ℕ, Bool, List, [], ◌∷◌, Str, remove, str_key, if◌then◌else◌}
use cipher_lake.Gateway.Sessions.{list_expired_sessions}
use cipher_lake.Gateway.Requests.{Outside}
use cipher_lake.Gateway.Resumable.{Uploads}

module _ (env : Outside) where
  -- Each overdue session loses its file, then its record; one whose file or record stays is passed over.
  unfoldable pub cleanup_one : (Str → Bool) → (Str → Bool) → Uploads env → Str → Uploads env
  cleanup_one remove_fails delete_fails s id =
      if remove_fails id
      then s
      else if delete_fails id
      then record s { files = remove id s.files }
      else record s { files = remove id s.files; sessions = env.bolt.delete id s.sessions }

  abbrev pub cleanup_all : (Str → Bool) → (Str → Bool) → Uploads env → List Str → Uploads env
  cleanup_all remove_fails delete_fails s [] = s
  cleanup_all remove_fails delete_fails s (id ∷ ids) =
      cleanup_all remove_fails delete_fails (cleanup_one remove_fails delete_fails s id) ids

  unfoldable pub cleanup : (Str → Bool) → (Str → Bool) → ℕ → Uploads env → Uploads env
  cleanup remove_fails delete_fails now s =
      cleanup_all remove_fails delete_fails s (list_expired_sessions env.bolt now s.sessions)
