-- ===== src/Metadata/Examples.antt =====
-- The metadata store of internal/metadata/store.go on small stores.
use cipher_lake.Prelude.{
  ℕ, true, false, none, some, [], ◌∷◌, Str, bytes, str_eq, has_prefix, lookup, str_key, pos,
  if◌then◌else◌, ◌≡◌, refl, arith,
}
use cipher_lake.Loader.Lists.{lists, prefixed}
use cipher_lake.Metadata.{
  ObjectRecord, BucketInfo, Store, bucket_prefix, is_session_of, delete_bucket, quota_exceeded,
  put_allowed,
}
use cipher_lake.Metadata.Object.{delete_object, put_object, get_object_version, extract_prefix}
use cipher_lake.Metadata.Listing.{list_objects_with_delimiter}
use cipher_lake.Metadata.Deletes.{IsDeleted, IsPartOf, delete_object_removes, delete_bucket_removes}
use cipher_lake.Metadata.Pages.{list_objects_with_delimiter_panics}

abbrev object : Str → ℕ → ObjectRecord
object key size = record {
  key = key;
  bucket = bytes "b";
  size = size;
  version_id = bytes "v";
  created_at = 1;
  modified_at = 1;
  is_latest = true;
  delete_marker = false;
  other = [];
}

abbrev info : BucketInfo
info = record {
  name = bytes "b";
  created_at = 1;
  quota = some (record { max_objects = 3; max_size_bytes = 9 });
  object_count = 2;
  total_size = pos 5;
  other = [];
}

-- Objects "a" and "a/b", and a version of the second.
abbrev small : Store lists
small = record {
  objects = (bytes "b/a", object (bytes "a") 2) ∷ (bytes "b/a/b", object (bytes "a/b") 3) ∷ [];
  object_index = [];
  object_versions = (bytes "b/a/b/v", object (bytes "a/b") 3) ∷ [];
  buckets = (bytes "b", info) ∷ [];
  uploads = [];
  upload_parts = [];
  resumable_uploads = [];
}

delete_object_removes_example :
    IsDeleted lists small
      (bytes "b")
      (bytes "a")
      (delete_object lists small (bytes "b") (bytes "a"))
unfolding lookup str_eq
delete_object_removes_example =
    delete_object_removes lists small (bytes "b") (bytes "a") (object (bytes "a") 2) refl

-- The deletion of "a" takes the version of "a/b" with it.
version_lost :
    (get_object_version lists small (bytes "b") (bytes "a/b") (bytes "v")
      ≡ some (object (bytes "a/b") 3))
    × (get_object_version lists
          (delete_object lists small (bytes "b") (bytes "a"))
          (bytes "b")
          (bytes "a/b")
          (bytes "v")
        ≡ none)
unfolding lookup str_eq has_prefix
version_lost = (
  refl,
  (delete_object_removes lists small (bytes "b") (bytes "a") (object (bytes "a") 2) refl
      (bytes "b/a/b/v")).1,
)

delete_bucket_removes_example :
    let after = delete_bucket lists small (bytes "b") in
    (lookup (bytes "b") after.buckets
      ≡ (if str_eq (bytes "b") (bytes "b") then none else lookup (bytes "b") small.buckets))
    × (lookup (bytes "b") after.objects ≡ (
        if has_prefix (bytes "b") (bucket_prefix lists (bytes "b"))
        then none
        else lookup (bytes "b") small.objects))
    × (lookup (bytes "b") after.object_versions ≡ (
        if has_prefix (bytes "b") (bucket_prefix lists (bytes "b"))
        then none
        else lookup (bytes "b") small.object_versions))
    × (lookup (bytes "b") after.uploads ≡ (
        if has_prefix (bytes "b") (bucket_prefix lists (bytes "b"))
        then none
        else lookup (bytes "b") small.uploads))
    × (lookup (bytes "b") after.resumable_uploads ≡ (
        if is_session_of lists (bytes "b") (bytes "b") (lookup (bytes "b") small.resumable_uploads)
        then none
        else lookup (bytes "b") small.resumable_uploads))
    × (IsPartOf lists small (bytes "b") (bytes "b") → lookup (bytes "b") after.upload_parts ≡ none)
    × (¬ IsPartOf lists small (bytes "b") (bytes "b")
        → lookup (bytes "b") after.upload_parts ≡ lookup (bytes "b") small.upload_parts)
    × (lookup (bytes "b") after.object_index ≡ lookup (bytes "b") small.object_index)
delete_bucket_removes_example = delete_bucket_removes lists small (bytes "b") (bytes "b")

-- An object of 5 bytes would make 10, above the quota of 9.
over_quota :
    (put_object lists false 7 (bytes "w") small (bytes "b") (bytes "c") (object (bytes "c") 5)).1
    ≡ some quota_exceeded
unfolding put_object put_allowed extract_prefix lookup str_eq
over_quota = refl

-- Under the prefix "a/" there is "a/b", whose rest is one byte long.
list_objects_with_delimiter_panics_example :
    list_objects_with_delimiter lists small (bytes "b") (bytes "a/") (bytes "/") 10 ≡ none
unfolding lookup str_eq has_prefix prefixed
list_objects_with_delimiter_panics_example =
    list_objects_with_delimiter_panics lists small (bytes "b") (bytes "a/") (bytes "b") (bytes "/")
      10 (object (bytes "a/b") 3) [] refl (omega arith) (omega arith)
