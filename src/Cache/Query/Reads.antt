-- ===== src/Cache/Query/Reads.antt =====
-- What `QueryResultCache` of internal/cache/cache.go gives back.
use text.Mathlib.TextEquality.{eq_iff}
use cipher_lake.Prelude.{
  ℕ, ◌+◌, none, some, String, ltb, leb, length, lookup, insert, text_key, if◌then◌else◌, ◌≡◌, arith,
  ap, lookup-insert,
}
use cipher_lake.Cache.Query.{QueryCacheItem, QueryResultCache, current, query_get, query_set, evict}

module _ {V : Type 0} where
  -- The results that were stored are read back until the time to live has passed, and no longer.
  pub query_get-query_set :
      (q : QueryResultCache V) (key : String) (results : V) (stored now : ℕ)
      → query_get (query_set q key results stored) key now
        ≡ (if ltb (stored + q.ttl) now then none else some results)
  unfolding query_get query_set
  query_get-query_set q key results stored now =
      let kept = if leb q.max_size (length q.items) then evict q.items else q.items in
      let item : QueryCacheItem V = record { results = results; created_at = stored } in
      let law = lookup-insert key key item kept in
      let written : lookup key (insert key item kept) ≡ some item =
        ground (arith, law, eq_iff key key) in
      ap (current q.ttl now) written
