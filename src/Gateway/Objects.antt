-- ===== src/Gateway/Objects.antt =====
-- How internal/gateway/object_metadata.go describes a new object and stores it: the bytes first, then the
-- metadata, the bytes being deleted when the metadata cannot be written. `store.Put` and `store.Delete` choose a backend
-- by tier: `data_` is what the backend of the hot tier holds, which all handlers here put to and delete from; what is
-- in other tiers is left alone by them and is not in the model. Bucket and key name an object: two keys are two objects,
-- where the file backend makes paths of them and takes the keys "a" and "a/" for one.
use cipher_lake.Prelude.{
  ℕ, Bool, true, Option, none, some, List, Str, bytes, is_nil, insert, remove, lookup, pair_key,
  nat_beq, if◌then◌else◌,
}

pub record ObjectMetadata : Type 0 where
  pub key : Str
  pub bucket : Str
  pub size : ℕ
  pub content_type : Str
  pub etag : Str
  pub user_metadata : List (Str × Str)
  pub storage_tier : ℕ
  pub created_at : ℕ
  pub modified_at : ℕ
  pub access_count : ℕ
  pub last_accessed_at : ℕ
  pub encrypted : Bool
  pub version_id : Str
  pub is_latest : Bool
  pub object_status : Str
  pub checksum : Str
  pub checksum_type : Str
  pub ssec_used : Bool
  pub ssec_key_sha256 : Str
  pub ssec_algorithm : Str
  pub encrypted_dek : Option Str

pub record ActiveObject : Type 0 where
  pub bucket : Str
  pub key : Str
  pub size : ℕ
  pub content_type : Str
  pub etag : Str
  pub user_metadata : List (Str × Str)
  pub storage_tier : ℕ
  pub encrypted : Bool
  pub version_id : Str
  pub checksum : Str
  pub checksum_type : Str
  pub encrypted_dek : Option Str
  pub ssec_used : Bool
  pub ssec_key_sha256 : Str
  pub server_side_encryption : Str
  pub now : ℕ

abbrev pub tier_hot : ℕ
tier_hot = 0

-- The metadata that is kept. A missing time or version is the clock's or a new one; a tier of 0 is the hot one.
unfoldable pub build_active_object_metadata : ℕ → Str → ActiveObject → ObjectMetadata
build_active_object_metadata clock new_id input =
    let now = if nat_beq input.now 0 then clock else input.now in
    record {
      key = input.key;
      bucket = input.bucket;
      size = input.size;
      content_type = input.content_type;
      etag = input.etag;
      user_metadata = input.user_metadata;
      storage_tier = if nat_beq input.storage_tier 0 then tier_hot else input.storage_tier;
      created_at = now;
      modified_at = now;
      access_count = 0;
      last_accessed_at = now;
      encrypted = input.encrypted;
      version_id = if is_nil input.version_id then new_id else input.version_id;
      is_latest = true;
      object_status = bytes "active";
      checksum = input.checksum;
      checksum_type = input.checksum_type;
      ssec_used = input.ssec_used;
      ssec_key_sha256 = input.ssec_key_sha256;
      ssec_algorithm = input.server_side_encryption;
      encrypted_dek = input.encrypted_dek;
    }

pub record Objects : Type 0 where
  pub data_ : List ((Str × Str) × Str)
  pub metadata : List ((Str × Str) × ObjectMetadata)

-- Which of the two stores refuse, and whether the backend refuses to delete. A put that the backend refuses leaves of
-- the object's bytes what `torn` makes of them: the old ones, none, or some mixture.
pub record StoreFaults : Type 0 where
  pub data_fails : Bool
  pub torn : Option Str → Option Str
  pub metadata_fails : Bool
  pub delete_fails : Bool

pub data StoreResult : Type 0 where
  stored data_refused metadata_refused : StoreResult

abbrev pub data_at : Objects → Str → Str → Option Str
data_at o bucket key = lookup (bucket, key) o.data_

abbrev pub metadata_at : Objects → Str → Str → Option ObjectMetadata
metadata_at o bucket key = lookup (bucket, key) o.metadata

abbrev pub with_data : Str × Str → Option Str → Objects → Objects
with_data k none o = record o { data_ = remove k o.data_ }
with_data k (some content) o = record o { data_ = insert k content o.data_ }

unfoldable pub put_object_metadata_after_store :
    StoreFaults → Objects → Str → Str → ObjectMetadata → Objects × StoreResult
put_object_metadata_after_store faults o bucket key meta =
    if faults.metadata_fails
    then (
      if faults.delete_fails then o else record o { data_ = remove (bucket, key) o.data_ },
      metadata_refused,
    )
    else (record o { metadata = insert (bucket, key) meta o.metadata }, stored)

unfoldable pub put_stored_object_with_metadata :
    StoreFaults → Objects → Str → Str → Str → ObjectMetadata → Objects × StoreResult
unfolding put_object_metadata_after_store
put_stored_object_with_metadata faults o bucket key content meta =
    let written = with_data (bucket, key) (some content) o in
    if faults.data_fails
    then (with_data (bucket, key) (faults.torn (data_at o bucket key)) o, data_refused)
    else put_object_metadata_after_store faults written bucket key meta
