-- ===== src/Cache/Query.antt =====
-- `QueryResultCache` of internal/cache/cache.go, for results of any type. Times are nanoseconds, and never
-- the zero time.
pub mod Size
pub mod Bound
pub mod Reads
use text.Mathlib.Text.{◌==◌}
use cipher_lake.Prelude.{
  ℕ, ◌+◌, ◌*◌, ◌^◌, Bool, Option, none, some, List, [], ◌∷◌, String, ltb, leb, nat_beq, length,
  lookup, insert, remove, text_key, if◌then◌else◌,
}

pub record QueryCacheItem (V : Type 0) : Type 0 where
  pub results : V
  pub created_at : ℕ

pub record QueryResultCache (V : Type 0) : Type 0 where
  pub items : List (String × QueryCacheItem V)
  pub ttl : ℕ
  pub max_size : ℕ

-- The older of what the loop has and an item.
abbrev pub older : Option (String × ℕ) → String → ℕ → Option (String × ℕ)
older none k t = some (k, t)
older (some (j, u)) k t = if ltb t u then some (k, t) else some (j, u)

module _ {V : Type 0} where
  -- A time to live or a size of 0 stands for one that is not positive.
  unfoldable pub new_query_result_cache : ℕ → ℕ → QueryResultCache V
  new_query_result_cache ttl max_size = record {
    items = [];
    ttl = if nat_beq ttl 0 then 300 * 10 ^ 9 else ttl;
    max_size = if nat_beq max_size 0 then 10000 else max_size;
  }

  -- An item's results, unless it is missing or out of date.
  abbrev pub current : ℕ → ℕ → Option (QueryCacheItem V) → Option V
  current ttl now none = none
  current ttl now (some item) = if ltb (item.created_at + ttl) now then none else some item.results

  unfoldable pub query_get : QueryResultCache V → String → ℕ → Option V
  query_get q key now = current q.ttl now (lookup key q.items)

  unfoldable pub oldest_from :
      Option (String × ℕ) → List (String × QueryCacheItem V) → Option (String × ℕ)
  oldest_from acc [] = acc
  oldest_from acc ((k, item) ∷ entries) = oldest_from (older acc k item.created_at) entries

  -- `evictOldest`: an item under the empty key is never deleted.
  unfoldable pub evict : List (String × QueryCacheItem V) → List (String × QueryCacheItem V)
  evict entries = elim (oldest_from none entries) [
    | none ↦ entries
    | some (k, t) ↦ if k == "" then entries else remove k entries
  ]

  unfoldable pub query_set : QueryResultCache V → String → V → ℕ → QueryResultCache V
  query_set q key results now =
      let kept = if leb q.max_size (length q.items) then evict q.items else q.items in
      record q { items = insert key (record { results = results; created_at = now }) kept }

  unfoldable pub query_clear : QueryResultCache V → QueryResultCache V
  query_clear q = record q { items = [] }
