-- ===== src/Cache/Examples.antt =====
-- The theorems on internal/cache at concrete calls.
use cipher_lake.Prelude.{ℕ, length, lookup, refl, arith, ◌<◌, List, [], ◌∷◌}
use cipher_lake.Cache.Object.{ObjectCache, Call, sets, gets, new_object_cache, run}
use cipher_lake.Cache.Object.Invariant.{IsValid, run_new-IsValid}
use cipher_lake.Cache.Query.{QueryResultCache, new_query_result_cache, oldest_from, query_set}
use cipher_lake.Cache.Query.Bound.{
  QueryCall, stores, run_calls, IsWithin, run_calls-new_query_result_cache-IsWithin,
  blank_key_overflows,
}

abbrev calls : List Call
calls = sets "a" (1 ∷ 2 ∷ []) 5 ∷ sets "b" (3 ∷ []) 6 ∷ gets "a" 7 ∷ []

-- Four bytes, ten nanoseconds.
abbrev small : ObjectCache
small = run (new_object_cache 4 10) calls

small-IsValid : IsValid small
small-IsValid = run_new-IsValid 4 10 calls

run_new-IsValid_example : IsValid (run (new_object_cache 4 10) calls)
run_new-IsValid_example = run_new-IsValid 4 10 calls

-- A full cache of two results.
abbrev two_results : QueryResultCache ℕ
two_results = record {
  items =
      ("", record { results = 1; created_at = 5 })
      ∷ ("a", record { results = 2; created_at = 6 })
      ∷ [];
  ttl = 100;
  max_size = 2;
}

abbrev three_stores : List (QueryCall ℕ)
three_stores = stores "a" 1 5 ∷ stores "b" 2 6 ∷ stores "c" 3 7 ∷ []

run_calls-new_query_result_cache-IsWithin_example :
    IsWithin (run_calls (new_query_result_cache 100 2) three_stores)
run_calls-new_query_result_cache-IsWithin_example =
    run_calls-new_query_result_cache-IsWithin 100 2 three_stores (refl, (refl, (refl, tt)))

blank_key_overflows_example : 2 < length (query_set two_results "b" 3 9).items
unfolding oldest_from lookup
blank_key_overflows_example = blank_key_overflows two_results "b" 3 9 5 refl (omega arith) refl
