-- ===== src/Metadata/Listing.antt =====
-- The listings of internal/metadata/store.go. Where a slice of the code is out of range it panics, which is no result
-- here.
use cipher_lake.Prelude.{
  ℕ, zero, suc, ◌+◌, Bool, true, not, ◌&&◌, Option, none, some, List, [], ◌∷◌, ◌++◌, Str, bytes,
  is_nil, has_prefix, str_eq, length, take, drop, any, ltb, leb, nat_beq, if◌then◌else◌,
}
use cipher_lake.Loader.Bolt.{Bolt}
use cipher_lake.Metadata.{ObjectRecord, object_key, Store}

-- What the cursor still has to give, with the records.
abbrev pub entries_at : {V : Type 0} → (Str → Option V) → List Str → List (Str × V)
entries_at read [] = []
entries_at read (k ∷ ks) =
    let rest = entries_at read ks in elim (read k) [ none ↦ rest | some v ↦ (k, v) ∷ rest ]

-- `s[n:]`.
abbrev pub slice_from : ℕ → Str → Option Str
slice_from n s = if leb n (length s) then some (drop n s) else none

-- `indexOf`.
unfoldable pub index_of : Str → Str → Option ℕ
index_of [] part = if is_nil part then some 0 else none
index_of (c ∷ s) part =
    let later = index_of s part in
    if has_prefix (c ∷ s) part then some 0 else elim later [ none ↦ none | some n ↦ some (suc n) ]

abbrev pub is_shown : ObjectRecord → Bool
is_shown o = o.is_latest && not o.delete_marker

pub record Listing : Type 0 where
  pub shown : List ObjectRecord
  pub common_prefixes : List Str

abbrev pub add_object : ObjectRecord → Option Listing → Option Listing
add_object o none = none
add_object o (some l) = some (record l { shown = o ∷ l.shown })

abbrev pub add_prefix : Bool → Str → Option Listing → Option Listing
add_prefix seen p none = none
add_prefix seen p (some l) =
    some (if seen then l else record l { common_prefixes = p ∷ l.common_prefixes })

-- Where the delimiter is in what follows the prefix; an empty one is nowhere.
abbrev pub delimiter_at : Str → Str → Option ℕ
delimiter_at delimiter remainder = if is_nil delimiter then none else index_of remainder delimiter

-- The key behind the prefix is cut by the prefix's length again.
abbrev pub remainder_of : Str → Str → Str → Option Str
remainder_of root prefix k = slice_from (length prefix) (drop (length root) k)

-- The loop, with the prefixes seen and the number of objects so far.
unfoldable pub list_entries :
    Str → Str → Str → ℕ → List Str → ℕ → List (Str × ObjectRecord) → Option Listing
list_entries root prefix delimiter max_keys seen count [] =
    some (record { shown = []; common_prefixes = [] })
list_entries root prefix delimiter max_keys seen count ((k, o) ∷ entries) =
    let hidden = list_entries root prefix delimiter max_keys seen count entries in
    let tallied = list_entries root prefix delimiter max_keys seen (suc count) entries in
    let grouped : Str → Option Listing =
      λ p. list_entries root prefix delimiter max_keys (p ∷ seen) count entries in
    if not (ltb count max_keys)
    then some (record { shown = []; common_prefixes = [] })
    else elim (remainder_of root prefix k) [
      | none ↦ none
      | some remainder ↦ elim (delimiter_at delimiter remainder) [
        | some n ↦
            let p = prefix ++ take (n + length delimiter) remainder in
            add_prefix (any (str_eq p) seen) p (grouped p)
        | none ↦ if is_shown o then add_object o tallied else hidden
      ]
    ]

-- `ListObjects` and `ListObjectVersions`: the records that pass, up to so many.
unfoldable pub list_records :
    (ObjectRecord → Bool) → ℕ → List (Str × ObjectRecord) → List ObjectRecord
list_records passes zero entries = []
list_records passes (suc n) [] = []
list_records passes (suc n) ((k, o) ∷ entries) =
    let kept = list_records passes n entries in
    let others = list_records passes (suc n) entries in if passes o then o ∷ kept else others

-- A listing with what the caller is told of more.
pub record ListResult : Type 0 where
  pub listing : Listing
  pub is_truncated : Bool
  pub next_marker : Str

abbrev pub last_key : List ObjectRecord → Str
last_key [] = []
last_key (o ∷ []) = o.key
last_key (o ∷ p ∷ os) = last_key (p ∷ os)

abbrev pub finished : ℕ → Option Listing → Option ListResult
finished max_keys none = none
finished max_keys (some l) =
    let truncated = nat_beq (length l.shown) max_keys in
    some (record {
      listing = l;
      is_truncated = truncated;
      next_marker = if truncated then last_key l.shown else [];
    })

module _ (bolt : Bolt) where
  abbrev pub entries_under : {V : Type 0} → Str → bolt.Bucket V → List (Str × V)
  entries_under prefix b = entries_at (λ k. bolt.get k b) (bolt.seek_prefix prefix b)

  unfoldable pub list_objects : Store bolt → Str → Str → ℕ → List ObjectRecord
  list_objects s bucket prefix max_keys =
      list_records is_shown max_keys (entries_under (object_key bucket prefix) s.objects)

  unfoldable pub list_object_versions : Store bolt → Str → Str → ℕ → List ObjectRecord
  list_object_versions s bucket key max_versions =
      list_records (λ o. true) max_versions
        (entries_under (object_key bucket key ++ bytes "/") s.object_versions)

  unfoldable pub list_objects_with_delimiter : Store bolt → Str → Str → Str → ℕ → Option ListResult
  list_objects_with_delimiter s bucket prefix delimiter max_keys =
      let root = object_key bucket prefix in
      finished max_keys
        (list_entries root prefix delimiter max_keys [] 0 (entries_under root s.objects))
