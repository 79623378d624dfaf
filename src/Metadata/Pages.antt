-- ===== src/Metadata/Pages.antt =====
-- The listings of internal/metadata/store.go against each other, and where the one with a delimiter panics.
use cipher_lake.Prelude.{
  ℕ, zero, suc, ◌+◌, ◌<◌, Bool, true, false, none, some, List, [], ◌∷◌, ◌++◌, Str, bytes, length,
  drop, ltb, leb, if◌then◌else◌, ◌≡◌, arith, refl, ◌∙◌, ap, sym, subst, drop-append, Bool-cases,
  inl, inr,
}
use mathlib.Core.List.{append_assoc}
use cipher_lake.Loader.Bolt.{Bolt}
use cipher_lake.Metadata.{ObjectRecord, object_key, Store}
use cipher_lake.Metadata.Listing.{
  add_object, is_shown, remainder_of, list_entries, list_records, finished, entries_under,
  list_objects, list_objects_with_delimiter,
}

nothing : (n : ℕ) → list_records is_shown n [] ≡ []
unfolding list_records
nothing zero = refl
nothing (suc n) = refl

list_entries_plain :
    (root : Str) (n count limit : ℕ) (seen : List Str) (entries : List (Str × ObjectRecord))
    → limit ≡ count + n
    → list_entries root [] [] limit seen count entries
      ≡ some (record { shown = list_records is_shown n entries; common_prefixes = [] })
unfolding list_entries list_records
list_entries_plain root n count limit seen [] e =
    ap (λ l. some (record { shown = l; common_prefixes = [] })) (sym (nothing n))
list_entries_plain root zero count limit seen ((k, o) ∷ entries) e =
    let full : ltb count limit ≡ false = ground (arith, e) in rw full refl
list_entries_plain root (suc n) count limit seen ((k, o) ∷ entries) e =
    let free : ltb count limit ≡ true = ground (arith, e) in
    let long : leb 0 (length (drop (length root) k)) ≡ true = ground arith in
    elim (Bool-cases (is_shown o)) [
      | inl shown_ ↦
          rw (free, long, shown_)
            (ap (add_object o)
              (list_entries_plain root n (suc count) limit seen entries (omega (arith, e))))
      | inr hidden ↦
          rw (free, long, hidden) (list_entries_plain root (suc n) count limit seen entries e)
    ]

short_slice :
    (root prefix tail : Str)
    → length tail < length prefix
    → remainder_of root prefix (root ++ tail) ≡ none
short_slice root prefix tail h =
    rw (drop-append root tail) (go (leb (length prefix) (length tail)) (ground arith))
  where
    go : (b : Bool) → b ≡ false → (if b then some (drop (length prefix) tail) else none) ≡ none
    go b e = rw e refl

list_entries_panics :
    (root prefix delimiter k : Str) (max_keys : ℕ) (o : ObjectRecord)
    (entries : List (Str × ObjectRecord))
    → remainder_of root prefix k ≡ none
    → ltb 0 max_keys ≡ true
    → list_entries root prefix delimiter max_keys [] 0 ((k, o) ∷ entries) ≡ none
unfolding list_entries
list_entries_panics root prefix delimiter k max_keys o entries out free = rw free (rw out refl)

module _ (bolt : Bolt) where
  -- Without a prefix and a delimiter, the listing with a delimiter is the plain one.
  pub list_objects_with_delimiter_plain :
      (s : Store bolt) (bucket : Str) (max_keys : ℕ)
      → list_objects_with_delimiter bolt s bucket [] [] max_keys
        ≡ finished max_keys
            (some (record { shown = list_objects bolt s bucket [] max_keys; common_prefixes = [] }))
  unfolding list_objects_with_delimiter list_objects
  list_objects_with_delimiter_plain s bucket max_keys = ap (finished max_keys) (
      list_entries_plain (object_key bucket []) max_keys 0 max_keys []
        (entries_under bolt (object_key bucket []) s.objects) (omega arith))

  -- The bug of the listing with a delimiter: it cuts the prefix's length off a key twice. Where the first key under
  -- the prefix goes on by fewer bytes than the prefix has, a listing of at least one key has no result: the slice
  -- is out of range and the code panics.
  pub list_objects_with_delimiter_panics :
      (s : Store bolt) (bucket prefix tail delimiter : Str) (max_keys : ℕ) (o : ObjectRecord)
      (entries : List (Str × ObjectRecord))
      → entries_under bolt (object_key bucket prefix) s.objects
        ≡ (object_key bucket (prefix ++ tail), o) ∷ entries
      → length tail < length prefix
      → 0 < max_keys
      → list_objects_with_delimiter bolt s bucket prefix delimiter max_keys ≡ none
  unfolding list_objects_with_delimiter
  list_objects_with_delimiter_panics s bucket prefix tail delimiter max_keys o entries e short
        some_key =
      let root = object_key bucket prefix in
      let key : object_key bucket (prefix ++ tail) ≡ root ++ tail =
        sym (append_assoc (bucket ++ bytes "/") prefix tail) in
      let out : remainder_of root prefix (object_key bucket (prefix ++ tail)) ≡ none =
        subst (λ k. remainder_of root prefix k ≡ none) (sym key)
          (short_slice root prefix tail short) in
      ap (λ es. finished max_keys (list_entries root prefix delimiter max_keys [] 0 es)) e
      ∙ ap (finished max_keys) (
          list_entries_panics root prefix delimiter (object_key bucket (prefix ++ tail)) max_keys o
            entries out (ground (arith, some_key)))
