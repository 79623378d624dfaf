-- ===== src/Metadata/Object.antt =====
-- Objects and their versions in internal/metadata/store.go.
use cipher_lake.Prelude.{
  ℕ, ◌+◌, ◌-◌, Bool, true, false, not, ◌&&◌, ◌||◌, Option, none, some, [], ◌∷◌, ◌++◌, Str, bytes,
  is_nil, nat_beq, ltb, leb, if◌then◌else◌, ℤ, pos, negsuc, above, below, lt_int,
}
use cipher_lake.Loader.Bolt.{Bolt}
use cipher_lake.Loader.Deletion.{delete_all}
use cipher_lake.Metadata.{
  ObjectRecord, QuotaConfig, BucketInfo, invalid_key, quota_exceeded, not_committed, object_key,
  version_key, Store, Outcome, put_allowed,
}

-- `a - b` of two sizes.
abbrev pub difference : ℕ → ℕ → ℤ
difference a b = if leb b a then pos (a - b) else negsuc (b - a - 1)

-- `extractPrefix`: up to the last slash, with it.
unfoldable pub extract_prefix : Str → Str
extract_prefix [] = []
extract_prefix (c ∷ key) =
    let rest = extract_prefix key in if is_nil rest && not (nat_beq c 47) then [] else c ∷ rest

-- The defaults, the clock and the mark of the latest version.
abbrev pub stamped : ℕ → Str → ObjectRecord → ObjectRecord
stamped now new_id o = record o {
  version_id = if is_nil o.version_id then new_id else o.version_id;
  created_at = if nat_beq o.created_at 0 then now else o.created_at;
  modified_at = now;
  is_latest = true;
}

abbrev pub size_of : Option ObjectRecord → ℕ
size_of none = 0
size_of (some o) = o.size

-- A bucket with an object more, or with another size of one.
abbrev pub recount : Option ObjectRecord → ObjectRecord → BucketInfo → BucketInfo
recount old o info = record info {
  object_count = elim old [ none ↦ info.object_count + 1 | some _ ↦ info.object_count ];
  total_size = difference (above info.total_size + o.size) (below info.total_size + size_of old);
}

abbrev pub exceeds : Option QuotaConfig → BucketInfo → Bool
exceeds none info = false
exceeds (some q) info =
    (ltb 0 q.max_objects && ltb q.max_objects info.object_count)
    || (ltb 0 q.max_size_bytes && lt_int (pos q.max_size_bytes) info.total_size)

-- A bucket with an object less; counts and sizes stop at 0.
abbrev pub discounted : ObjectRecord → BucketInfo → BucketInfo
discounted o info = record info {
  object_count = info.object_count - 1;
  total_size = pos (above info.total_size - (below info.total_size + o.size));
}

module _ (bolt : Bolt) where
  abbrev pub with_info : Store bolt → Store bolt → Str → BucketInfo → Outcome bolt
  with_info s written bucket info =
      if exceeds info.quota info
      then (s, some quota_exceeded)
      else elim (put_allowed bolt bucket info written.buckets) [
        | none ↦ (s, some not_committed)
        | some b ↦ (record written { buckets = b }, none)
      ]

  -- The bucket's counts, where it has a record.
  abbrev pub count_object :
      Store bolt
      → Store bolt
      → Str
      → Option ObjectRecord
      → ObjectRecord
      → Option BucketInfo
      → Outcome bolt
  count_object s written bucket old o none = (written, none)
  count_object s written bucket old o (some info) = with_info s written bucket (recount old o info)

  -- The first object under a prefix stands in the index.
  abbrev pub index_object :
      Str
      → ObjectRecord
      → Option ObjectRecord
      → bolt.Bucket ObjectRecord
      → Option (bolt.Bucket ObjectRecord)
  index_object k o none b = put_allowed bolt k o b
  index_object k o (some old) b = some b

  abbrev pub commit_object :
      Store bolt
      → Str
      → Str
      → ObjectRecord
      → Option (bolt.Bucket ObjectRecord)
      → Option (bolt.Bucket ObjectRecord)
      → Outcome bolt
  commit_object s bucket key o none index = (s, some not_committed)
  commit_object s bucket key o (some objects) none = (s, some not_committed)
  commit_object s bucket key o (some objects) (some index) =
      count_object s (record s { objects = objects; object_index = index }) bucket
        (bolt.get (object_key bucket key) s.objects) o (bolt.get bucket s.buckets)

  -- `log_fails` is an error of the write-ahead log.
  unfoldable pub put_object : Bool → ℕ → Str → Store bolt → Str → Str → ObjectRecord → Outcome bolt
  put_object log_fails now new_id s bucket key given =
      let o = stamped now new_id given in
      let index_key = object_key bucket (extract_prefix key) in
      if is_nil bucket || is_nil key
      then (s, some invalid_key)
      else if log_fails
      then (s, some not_committed)
      else commit_object s bucket key o (put_allowed bolt (object_key bucket key) o s.objects)
          (index_object index_key o (bolt.get index_key s.object_index) s.object_index)

  abbrev pub get_object : Store bolt → Str → Str → Option ObjectRecord
  get_object s bucket key = bolt.get (object_key bucket key) s.objects

  abbrev pub discount_object :
      Str → ObjectRecord → Option BucketInfo → bolt.Bucket BucketInfo → bolt.Bucket BucketInfo
  discount_object bucket o none b = b
  discount_object bucket o (some info) b = bolt.put bucket (discounted o info) b

  abbrev pub delete_versions : Str → Str → bolt.Bucket ObjectRecord → bolt.Bucket ObjectRecord
  delete_versions bucket key b =
      delete_all bolt (bolt.seek_prefix (object_key bucket key ++ bytes "/") b) b

  abbrev pub delete_existing : Store bolt → Str → Str → Option ObjectRecord → Store bolt
  delete_existing s bucket key none = s
  delete_existing s bucket key (some o) = record s {
    buckets = discount_object bucket o (bolt.get bucket s.buckets) s.buckets;
    objects = bolt.delete (object_key bucket key) s.objects;
    object_versions = delete_versions bucket key s.object_versions;
  }

  unfoldable pub delete_object : Store bolt → Str → Str → Store bolt
  delete_object s bucket key = delete_existing s bucket key (get_object s bucket key)

  unfoldable pub put_object_version : ℕ → Str → Store bolt → Str → Str → ObjectRecord → Outcome bolt
  put_object_version now new_id s bucket key given =
      let o = record (stamped now new_id given) { is_latest = given.is_latest } in
      elim (put_allowed bolt (version_key bucket key o.version_id) o s.object_versions) [
        | none ↦ (s, some not_committed)
        | some b ↦ (record s { object_versions = b }, none)
      ]

  abbrev pub get_object_version : Store bolt → Str → Str → Str → Option ObjectRecord
  get_object_version s bucket key version_id =
      bolt.get (version_key bucket key version_id) s.object_versions
