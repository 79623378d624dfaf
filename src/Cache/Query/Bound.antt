-- ===== src/Cache/Query/Bound.antt =====
-- The bound on the entries of `QueryResultCache` of internal/cache/cache.go.
use text.Mathlib.Text.{◌==◌}
use cipher_lake.Prelude.{
  ℕ, ◌+◌, ◌≤◌, ◌<◌, true, false, none, some, List, [], ◌∷◌, String, leb, length, lookup, insert,
  text_key, ◌≡◌, refl, arith, Bool-cases, inl, inr, lookup-insert,
}
use cipher_lake.Cache.Query.{
  QueryCacheItem, QueryResultCache, new_query_result_cache, oldest_from, evict, query_set,
  query_clear,
}
use cipher_lake.Cache.Query.Size.{
  evict-no_blank, length-remove_absent, evict-blank, insert-length, evict-shrinks,
}

pub data QueryCall (V : Type 0) : Type 0 where
  stores : String → V → ℕ → QueryCall V
  clears : QueryCall V

module _ {V : Type 0} where
  -- No entry stands under the empty key, and there are at most `max_size`.
  pub record IsWithin (q : QueryResultCache V) : Type 0 where
    pub room : 1 ≤ q.max_size
    pub no_blank : lookup "" q.items ≡ none
    pub size : length q.items ≤ q.max_size

  insert-IsWithin :
      (q : QueryResultCache V) (key : String) (item : QueryCacheItem V)
      (kept : List (String × QueryCacheItem V))
      → (key == "") ≡ false
      → 1 ≤ q.max_size
      → lookup "" kept ≡ none
      → length kept + 1 ≤ q.max_size
      → IsWithin (record q { items = insert key item kept })
  insert-IsWithin q key item kept named room fresh fits = record {
    room = room;
    no_blank = ground (arith, lookup-insert key "" item kept, named, fresh);
    size = let grown = insert-length key item kept in omega (arith, grown, fits);
  }

  query_set-IsWithin :
      (q : QueryResultCache V) (key : String) (results : V) (now : ℕ)
      → (key == "") ≡ false
      → IsWithin q
      → IsWithin (query_set q key results now)
  unfolding query_set
  query_set-IsWithin q key results now named within =
      let item : QueryCacheItem V = record { results = results; created_at = now } in
      elim (Bool-cases (leb q.max_size (length q.items))) [
        | inl full ↦
            let some_there : 1 ≤ length q.items = ground (arith, full, within.room) in
            let shrinks = evict-shrinks q.items some_there within.no_blank in
            rw full (
              insert-IsWithin q key item (evict q.items) named within.room
                (evict-no_blank q.items within.no_blank) (omega (arith, shrinks, within.size)))
        | inr roomy ↦
            let below : length q.items < q.max_size = ground (arith, roomy) in
            rw roomy (
              insert-IsWithin q key item q.items named within.room within.no_blank
                (omega (arith, below)))
      ]

  new-IsWithin : (ttl max_size : ℕ) → IsWithin (new_query_result_cache ttl max_size)
  unfolding new_query_result_cache lookup
  new-IsWithin ttl max_size = record { room = ground arith; no_blank = refl; size = omega arith }

  unfoldable pub run_calls : QueryResultCache V → List (QueryCall V) → QueryResultCache V
  run_calls q [] = q
  run_calls q (stores key results now ∷ calls) = run_calls (query_set q key results now) calls
  run_calls q (clears ∷ calls) = run_calls (query_clear q) calls

  -- No call stores under the empty key.
  abbrev pub AllNamed : List (QueryCall V) → Type 0
  AllNamed [] = Unit {0}
  AllNamed (stores key results now ∷ calls) = ((key == "") ≡ false) × AllNamed calls
  AllNamed (clears ∷ calls) = AllNamed calls

  run_calls-IsWithin :
      (q : QueryResultCache V) (calls : List (QueryCall V))
      → AllNamed calls
      → IsWithin q
      → IsWithin (run_calls q calls)
  unfolding run_calls query_clear lookup
  run_calls-IsWithin q [] named within = within
  run_calls-IsWithin q (stores key results now ∷ calls) named within =
      run_calls-IsWithin (query_set q key results now) calls named.1
        (query_set-IsWithin q key results now named.0 within)
  run_calls-IsWithin q (clears ∷ calls) named within =
      run_calls-IsWithin (record q { items = [] }) calls named
        (record { room = within.room; no_blank = refl; size = omega arith })

  -- After any stores under keys that are not empty and any clears of a new cache, it has no entry under the
  -- empty key and at most its maximum of entries, which is positive.
  pub run_calls-new_query_result_cache-IsWithin :
      (ttl max_size : ℕ) (calls : List (QueryCall V))
      → AllNamed calls
      → IsWithin (run_calls (new_query_result_cache ttl max_size) calls)
  run_calls-new_query_result_cache-IsWithin ttl max_size calls named =
      run_calls-IsWithin (new_query_result_cache ttl max_size) calls named
        (new-IsWithin ttl max_size)

  -- Where the oldest entry is under the empty key, a full cache evicts nothing, and a store under a new key
  -- makes it larger than its maximum.
  pub blank_key_overflows :
      (q : QueryResultCache V) (key : String) (results : V) (now t : ℕ)
      → oldest_from none q.items ≡ some ("", t)
      → q.max_size ≤ length q.items
      → lookup key q.items ≡ none
      → q.max_size < length (query_set q key results now).items
  unfolding query_set insert
  blank_key_overflows q key results now t oldest full absent =
      let kept = length-remove_absent key q.items absent in
      let is_full : leb q.max_size (length q.items) ≡ true = ground (arith, full) in
      let all : evict q.items ≡ q.items = evict-blank q.items t oldest in
      rw is_full (rw all (omega (arith, kept, full)))
