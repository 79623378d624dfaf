-- ===== src/Loader/Bolt.antt =====
-- The buckets of bbolt that internal/pluginloader/fsm.go relies on: what reads give after writes, which
-- keys may be written, and what a cursor finds that starts at a prefix.
use cipher_lake.Prelude.{
  Str, str_eq, has_prefix, Bool, true, Option, none, some, List, any, if◌then◌else◌, ◌≡◌,
}

pub record Bolt : Type 1 where
  pub Bucket : Type 0 → Type 0
  pub empty : {V : Type 0} → Bucket V
  pub get : {V : Type 0} → Str → Bucket V → Option V
  pub put : {V : Type 0} → Str → V → Bucket V → Bucket V
  pub delete : {V : Type 0} → Str → Bucket V → Bucket V
  -- Empty and very long keys are refused, and so are names of buckets.
  pub key_allowed : Str → Bool
  -- The keys that `Seek` of a prefix and `Next` give while they have the prefix.
  pub seek_prefix : {V : Type 0} → Str → Bucket V → List Str
  pub get-empty : {V : Type 0} (k : Str) → get {V = V} k empty ≡ none
  pub get-put :
      {V : Type 0} (j k : Str) (v : V) (b : Bucket V)
      → get k (put j v b) ≡ (if str_eq j k then some v else get k b)
  pub get-delete :
      {V : Type 0} (j k : Str) (b : Bucket V)
      → get k (delete j b) ≡ (if str_eq j k then none else get k b)
  pub seek_finds :
      {V : Type 0} (prefix k : Str) (b : Bucket V) (v : V)
      → get k b ≡ some v
      → has_prefix k prefix ≡ true
      → any (str_eq k) (seek_prefix prefix b) ≡ true
  pub seek_keeps :
      {V : Type 0} (prefix k : Str) (b : Bucket V)
      → any (str_eq k) (seek_prefix prefix b) ≡ true
      → has_prefix k prefix ≡ true
