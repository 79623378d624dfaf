-- ===== src/Gateway/Sessions.antt =====
-- Sessions of resumable uploads in internal/metadata/store.go: a bucket of bbolt keyed by upload ids. Records
-- are kept as values in place of their JSON.
use cipher_lake.Prelude.{
  ℕ, Bool, false, ◌&&◌, not, Option, none, some, List, [], ◌∷◌, Str, ltb, if◌then◌else◌, ℤ,
}
use cipher_lake.Loader.Bolt.{Bolt}

-- `offset` and times are never negative; `total_size` is -1 where it is not known.
pub record ResumableSession : Type 0 where
  pub upload_id : Str
  pub bucket : Str
  pub key : Str
  pub offset : ℕ
  pub total_size : ℤ
  pub content_type : Str
  pub metadata : List (Str × Str)
  pub created_at : ℕ
  pub expires_at : ℕ
  pub checksum : Str
  pub finalized : Bool

module _ (bolt : Bolt) where
  abbrev pub Sessions : Type 0
  Sessions = bolt.Bucket ResumableSession

  -- The outcome of a transaction of bbolt: it fails on a key that is refused, or when the disk does.
  unfoldable pub put_resumable_session : Bool → ResumableSession → Sessions → Option Sessions
  put_resumable_session disk_fails session b =
      if bolt.key_allowed session.upload_id && not disk_fails
      then some (bolt.put session.upload_id session b)
      else none

  abbrev pub get_resumable_session : Str → Sessions → Option ResumableSession
  get_resumable_session id b = bolt.get id b

  abbrev pub delete_resumable_session : Bool → Str → Sessions → Option Sessions
  delete_resumable_session disk_fails id b = if disk_fails then none else some (bolt.delete id b)

  -- Past its time and not finalized.
  abbrev pub is_overdue : ℕ → Option ResumableSession → Bool
  is_overdue now none = false
  is_overdue now (some session) = ltb session.expires_at now && not session.finalized

  abbrev pub overdue : ℕ → Sessions → List Str → List Str
  overdue now b [] = []
  overdue now b (id ∷ ids) =
      let rest = overdue now b ids in if is_overdue now (bolt.get id b) then id ∷ rest else rest

  -- The ids of the sessions that `ForEach` of the whole bucket finds, which is the cursor at the empty
  -- prefix.
  unfoldable pub list_expired_sessions : ℕ → Sessions → List Str
  list_expired_sessions now b = overdue now b (bolt.seek_prefix [] b)
