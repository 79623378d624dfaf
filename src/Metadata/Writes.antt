-- ===== src/Metadata/Writes.antt =====
-- What a put of internal/metadata/store.go leaves of objects and of the counts of their bucket.
use cipher_lake.Prelude.{
  Bool, true, false, ◌||◌, Option, none, some, Str, str_eq, is_nil, if◌then◌else◌, ◌≡◌, ◌⊎◌,
}
use cipher_lake.Loader.Bolt.{Bolt}
use cipher_lake.Metadata.{
  ObjectRecord, BucketInfo, StoreError, invalid_key, quota_exceeded, not_committed, object_key,
  Store, Outcome,
}
use cipher_lake.Metadata.Object.{extract_prefix}
use cipher_lake.Metadata.Counted.{IsCounted, IsOver, first_of}

module _ (bolt : Bolt) where
  -- What makes the database refuse: a key of the object or of its index entry, where this is new, or the bucket's name.
  abbrev pub IsUnwritable : Store bolt → Str → Str → Type 0
  IsUnwritable s bucket key =
      (bolt.key_allowed (object_key bucket key) ≡ false)
      ⊎ ((bolt.get (object_key bucket (extract_prefix key)) s.object_index ≡ none)
          × (bolt.key_allowed (object_key bucket (extract_prefix key)) ≡ false))
      ⊎ ((bolt.key_allowed bucket ≡ false)
          × ((info : BucketInfo) × (bolt.get bucket s.buckets ≡ some info)))

  -- Why a put is refused, and with which error.
  abbrev pub IsRefusal : Bool → Store bolt → Str → Str → ObjectRecord → StoreError → Type 0
  IsRefusal log_fails s bucket key o e =
      ((e ≡ invalid_key) × ((is_nil bucket || is_nil key) ≡ true))
      ⊎ ((e ≡ not_committed) × ((log_fails ≡ true) ⊎ IsUnwritable s bucket key))
      ⊎ ((e ≡ quota_exceeded)
          × ((info after : BucketInfo) × (bolt.get bucket s.buckets ≡ some info)
              × IsCounted (bolt.get (object_key bucket key) s.objects) o info after
              × IsOver info.quota after))

  -- The records of buckets after a put, from the bucket's before.
  abbrev pub IsBucketPut :
      Store bolt → Str → Str → ObjectRecord → bolt.Bucket BucketInfo → Option BucketInfo → Type 0
  IsBucketPut s bucket key o buckets none = (b : Str) → bolt.get b buckets ≡ bolt.get b s.buckets
  IsBucketPut s bucket key o buckets (some info) =
      (after : BucketInfo) × IsCounted (bolt.get (object_key bucket key) s.objects) o info after
      × (¬ IsOver info.quota after)
      × ((b : Str)
          → bolt.get b buckets ≡ (if str_eq bucket b then some after else bolt.get b s.buckets))

  -- What a put that stores `o` leaves, or what it is refused for.
  abbrev pub IsObjectPut : Bool → Store bolt → Str → Str → ObjectRecord → Outcome bolt → Type 0
  IsObjectPut log_fails s bucket key o (after, some e) =
      (after ≡ s) × IsRefusal log_fails s bucket key o e
  IsObjectPut log_fails s bucket key o (after, none) =
      let index_key = object_key bucket (extract_prefix key) in
      ((is_nil bucket || is_nil key) ≡ false)
      × (log_fails ≡ false)
      × ((k : Str)
          → bolt.get k after.objects
            ≡ (if str_eq (object_key bucket key) k then some o else bolt.get k s.objects))
      × ((k : Str)
          → bolt.get k after.object_index ≡ (
              if str_eq index_key k
              then some (first_of (bolt.get index_key s.object_index) o)
              else bolt.get k s.object_index))
      × IsBucketPut s bucket key o after.buckets (bolt.get bucket s.buckets)
      × (after.object_versions ≡ s.object_versions)
      × (after.uploads ≡ s.uploads)
      × (after.upload_parts ≡ s.upload_parts)
      × (after.resumable_uploads ≡ s.resumable_uploads)

  -- The index after the write.
  abbrev IsIndexed : Store bolt → Str → ObjectRecord → bolt.Bucket ObjectRecord → Type 0
  IsIndexed s k o index =
      (j : Str)
      → bolt.get j index ≡ (
          if str_eq k j
          then some (first_of (bolt.get k s.object_index) o)
          else bolt.get j s.object_index)

  -- The objects after the write, as the bucket's record decides.
  abbrev written : Store bolt → Str → Str → ObjectRecord → bolt.Bucket ObjectRecord → Store bolt
  written s bucket key o index = record s {
    objects = bolt.put (object_key bucket key) o s.objects;
    object_index = index;
  }

  module _ (s : Store bolt) (bucket key : Str) (o : ObjectRecord)
      (named : (is_nil bucket || is_nil key) ≡ false) where
    abbrev Puts : Outcome bolt → Type 0
    Puts = IsObjectPut false s bucket key o
