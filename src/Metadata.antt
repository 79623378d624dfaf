-- ===== src/Metadata.antt =====
-- The metadata store of internal/metadata/store.go over buckets of bbolt: its records, and the operations on
-- buckets. Records are kept as values in place of their JSON; the write-ahead log, which nothing reads back, and
-- the counters of the statistics are left out.
pub mod Object
pub mod Listing
pub mod Deletes
pub mod Counted
pub mod Writes
pub mod Pages
mod Examples
use cipher_lake.Prelude.{
  ℕ, ◌+◌, ◌-◌, Bool, true, false, not, ◌&&◌, ◌||◌, Option, none, some, List, [], ◌∷◌, ◌++◌, Str,
  bytes, is_nil, str_eq, has_prefix, ltb, leb, if◌then◌else◌, ℤ, pos, negsuc, above, below, lt_int,
  get_or, map,
}
use cipher_lake.Loader.Bolt.{Bolt}
use cipher_lake.Loader.Deletion.{delete_all, keys_where}
use cipher_lake.Gateway.Sessions.{ResumableSession}
use cipher_lake.Gateway.Multipart.{MultipartUpload, UploadPart}

-- `other` holds the fields that the store only carries.
pub record ObjectRecord : Type 0 where
  pub key : Str
  pub bucket : Str
  pub size : ℕ
  pub version_id : Str
  pub created_at : ℕ
  pub modified_at : ℕ
  pub is_latest : Bool
  pub delete_marker : Bool
  pub other : List (Str × Str)

-- A limit of 0 or less is none.
pub record QuotaConfig : Type 0 where
  pub max_objects : ℕ
  pub max_size_bytes : ℕ

pub record BucketInfo : Type 0 where
  pub name : Str
  pub created_at : ℕ
  pub quota : Option QuotaConfig
  pub object_count : ℕ
  pub total_size : ℤ
  pub other : List (Str × Str)

pub data StoreError : Type 0 where
  key_not_found : StoreError
  bucket_not_found : StoreError
  bucket_exists : StoreError
  invalid_key : StoreError
  quota_exceeded : StoreError
  version_not_found : StoreError
  not_committed : StoreError

abbrev pub object_key : Str → Str → Str
object_key bucket key = bucket ++ bytes "/" ++ key

abbrev pub version_key : Str → Str → Str → Str
version_key bucket key version_id = bucket ++ bytes "/" ++ key ++ bytes "/" ++ version_id

module _ (bolt : Bolt) where
  pub record Store : Type 0 where
    pub objects : bolt.Bucket ObjectRecord
    pub object_index : bolt.Bucket ObjectRecord
    pub object_versions : bolt.Bucket ObjectRecord
    pub buckets : bolt.Bucket BucketInfo
    pub uploads : bolt.Bucket MultipartUpload
    pub upload_parts : bolt.Bucket UploadPart
    pub resumable_uploads : bolt.Bucket ResumableSession

  -- A transaction's outcome: an error takes its writes back.
  abbrev pub Outcome : Type 0
  Outcome = Store × Option StoreError

  unfoldable pub put_allowed : {V : Type 0} → Str → V → bolt.Bucket V → Option (bolt.Bucket V)
  put_allowed k v b = if bolt.key_allowed k then some (bolt.put k v b) else none

  abbrev pub with_buckets : Store → Option (bolt.Bucket BucketInfo) → Outcome
  with_buckets s none = (s, some not_committed)
  with_buckets s (some b) = (record s { buckets = b }, none)

  abbrev pub is_there : {V : Type 0} → Option V → Bool
  is_there none = false
  is_there (some v) = true

  unfoldable pub create_bucket : Store → Str → BucketInfo → Outcome
  create_bucket s bucket info =
      if is_nil bucket
      then (s, some invalid_key)
      else if is_there (bolt.get bucket s.buckets)
      then (s, some bucket_exists)
      else with_buckets s (put_allowed bucket (record info { name = bucket }) s.buckets)

  unfoldable pub update_bucket : Store → Str → BucketInfo → Outcome
  update_bucket s bucket info = with_buckets s (put_allowed bucket info s.buckets)

  abbrev pub get_bucket : Store → Str → Option BucketInfo
  get_bucket s bucket = bolt.get bucket s.buckets

  abbrev pub bucket_prefix : Str → Str
  bucket_prefix bucket = bucket ++ bytes "/"

  -- Keys under a bucket, in a scan of all keys.
  abbrev pub is_under : {V : Type 0} → Str → Str → Option V → Bool
  is_under bucket k v = has_prefix k (bucket_prefix bucket)

  abbrev pub is_session_of : Str → Str → Option ResumableSession → Bool
  is_session_of bucket k none = false
  is_session_of bucket k (some session) = str_eq session.bucket bucket

  abbrev pub with_id : Option MultipartUpload → List Str → List Str
  with_id none ids = ids
  with_id (some upload) ids = if is_nil upload.upload_id then ids else upload.upload_id ∷ ids

  -- The ids of the uploads under these keys, if they have one.
  abbrev pub ids_at : bolt.Bucket MultipartUpload → List Str → List Str
  ids_at b [] = []
  ids_at b (k ∷ ks) = with_id (bolt.get k b) (ids_at b ks)

  abbrev pub delete_parts : List Str → bolt.Bucket UploadPart → bolt.Bucket UploadPart
  delete_parts [] b = b
  delete_parts (id ∷ ids) b =
      delete_parts ids (delete_all bolt (bolt.seek_prefix (id ++ bytes "/") b) b)

  -- Objects, versions, uploads with their parts and sessions go with the bucket, whether or not it is there.
  unfoldable pub delete_bucket : Store → Str → Store
  delete_bucket s bucket =
      let under = keys_where bolt (is_under bucket) s.uploads in
      record {
        objects = delete_all bolt (keys_where bolt (is_under bucket) s.objects) s.objects;
        object_index = s.object_index;
        object_versions =
            delete_all bolt (keys_where bolt (is_under bucket) s.object_versions) s.object_versions;
        buckets = bolt.delete bucket s.buckets;
        uploads = delete_all bolt under s.uploads;
        upload_parts = delete_parts (ids_at s.uploads under) s.upload_parts;
        resumable_uploads =
            delete_all bolt (keys_where bolt (is_session_of bucket) s.resumable_uploads)
              s.resumable_uploads;
      }

  abbrev pub records_at : {V : Type 0} → bolt.Bucket V → List Str → List V
  records_at b [] = []
  records_at b (k ∷ ks) =
      let rest = records_at b ks in elim (bolt.get k b) [ none ↦ rest | some v ↦ v ∷ rest ]

  unfoldable pub list_buckets : Store → List BucketInfo
  list_buckets s = records_at s.buckets (bolt.seek_prefix [] s.buckets)
