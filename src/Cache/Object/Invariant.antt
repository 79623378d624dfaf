-- ===== src/Cache/Object/Invariant.antt =====
-- What holds of `ObjectCache` of internal/cache/cache.go between two calls.
use text.Mathlib.Text.{◌==◌}
use text.Mathlib.TextEquality.{eq_iff}
use cipher_lake.Prelude.{
  ℕ, zero, suc, ◌+◌, false, none, some, List, [], ◌∷◌, String, lookup, lookup-remove, lookup-insert,
  text_key, ◌≡◌, refl, arith, Option-cases, inl, inr, is_nil, sym, ◌∙◌, Bool-cases, ltb, ◌&&◌, not,
}
use cipher_lake.Cache.Object.Elements.{
  CacheItem, find_id, last, find_key, total, has_key, Distinct, Distinct-remove_id,
  find_key-remove_id, find_key-find_id, total-remove_id, find_id-id, find_id-last, has_key_removed,
  has_key-remove_id, find_key_found, has_id-fresh, Distinct-grow, find_key-none,
}
use cipher_lake.Cache.Object.{
  ObjectCache, new_object_cache, delete_element, miss, hit, element, expired, get, evict_oldest,
  evict_loop, unlink, push_front, set, delete, clear, Call, gets, deletes, sets, clears, step, run,
}

-- The map leads each key to the element that holds it, no two elements share a key or an address, and
-- the size is the sum of the elements' sizes.
pub record IsValid (c : ObjectCache) : Type 0 where
  pub agree : (k : String) → lookup k c.items ≡ find_key k c.lru_list
  pub distinct : Distinct c.next_id c.lru_list
  pub counted : c.size ≡ total c.lru_list

-- The same while `Set` has taken the key's old element out of the list, and not out of the map.
pub record IsValidBut (key : String) (c : ObjectCache) : Type 0 where
  pub agree : (k : String) → (key == k) ≡ false → lookup k c.items ≡ find_key k c.lru_list
  pub absent : has_key key c.lru_list ≡ false
  pub distinct : Distinct c.next_id c.lru_list
  pub counted : c.size ≡ total c.lru_list

-- A key leads to an element with that key.
pub element-found :
    (c : ObjectCache) (key : String) (item : CacheItem)
    → IsValid c
    → element c key ≡ some item
    → (find_id item.id c.lru_list ≡ some item) × (item.key ≡ key)
unfolding element
element-found c key item v h = elim (Option-cases (lookup key c.items)) [
  | inl e ↦ ground arith
  | inr (i, e) ↦
      let (x, found, same) =
        find_key-find_id c.next_id i c.lru_list key v.distinct (sym (v.agree key) ∙ e) in
      ground (arith, find_id-id i c.lru_list x)
]

element-absent :
    (c : ObjectCache) (key : String)
    → IsValid c
    → element c key ≡ none
    → has_key key c.lru_list ≡ false
unfolding element
element-absent c key v h = elim (Option-cases (lookup key c.items)) [
  | inl e ↦ find_key-none key c.lru_list (sym (v.agree key) ∙ e)
  | inr (i, e) ↦
      let (x, found, same) =
        find_key-find_id c.next_id i c.lru_list key v.distinct (sym (v.agree key) ∙ e) in
      ground arith
]

delete_element-IsValid :
    (c : ObjectCache) (item : CacheItem)
    → IsValid c
    → find_id item.id c.lru_list ≡ some item
    → IsValid (delete_element c item)
unfolding delete_element
delete_element-IsValid c item v h = record {
  agree = λ k. ground (
    arith,
    v.agree k,
    lookup-remove item.key k c.items,
    find_key-remove_id c.next_id item.id c.lru_list item k v.distinct h,
  );
  distinct = Distinct-remove_id c.next_id item.id c.lru_list v.distinct;
  counted = omega (arith, v.counted, total-remove_id item.id c.lru_list item h);
}

hit-IsValid :
    (c : ObjectCache) (item : CacheItem) (now : ℕ)
    → IsValid c
    → find_id item.id c.lru_list ≡ some item
    → IsValid (hit c item now)
unfolding hit find_key total
hit-IsValid c item now v h =
    let (known, below) = find_key_found c.next_id item.id c.lru_list item v.distinct h in
    let (no_key, no_id) = has_key_removed c.next_id item.id c.lru_list item v.distinct h in
    record {
      agree = λ k. ground (
        arith,
        v.agree k,
        known,
        find_key-remove_id c.next_id item.id c.lru_list item k v.distinct h,
        eq_iff item.key k,
      );
      distinct = (below, no_id, no_key, Distinct-remove_id c.next_id item.id c.lru_list v.distinct);
      counted = omega (arith, v.counted, total-remove_id item.id c.lru_list item h);
    }

miss-IsValid : (c : ObjectCache) → IsValid c → IsValid (miss c)
unfolding miss
miss-IsValid c v = record { agree = v.agree; distinct = v.distinct; counted = v.counted }

pub get-IsValid : (c : ObjectCache) (key : String) (now : ℕ) → IsValid c → IsValid (get c key now).0
unfolding get
get-IsValid c key now v = elim (Option-cases (element c key)) [
  | inl e ↦ rw (e, get) (miss-IsValid c v)
  | inr (item, e) ↦
      let (found, same) = element-found c key item v e in
      rw (e, get)
        (elim (Bool-cases (expired c item now)) [
          | inl x ↦ rw x (miss-IsValid _ (delete_element-IsValid c item v found))
          | inr x ↦ rw x (hit-IsValid c item now v found)
        ])
]

pub delete-IsValid : (c : ObjectCache) (key : String) → IsValid c → IsValid (delete c key)
unfolding delete
delete-IsValid c key v = elim (Option-cases (element c key)) [
  | inl e ↦ rw (e, delete) v
  | inr (item, e) ↦
      rw (e, delete) (delete_element-IsValid c item v (element-found c key item v e).0)
]

pub clear-IsValid : (c : ObjectCache) → IsValid (clear c)
unfolding clear find_key total lookup
clear-IsValid c = record { agree = λ k. refl; distinct = tt; counted = refl }

pub unlink-IsValidBut : (c : ObjectCache) (key : String) → IsValid c → IsValidBut key (unlink c key)
unfolding unlink
unlink-IsValidBut c key v = elim (Option-cases (element c key)) [
  | inl e ↦
      rw (e, unlink)
        (record {
          agree = λ k _. v.agree k;
          absent = element-absent c key v e;
          distinct = v.distinct;
          counted = v.counted;
        })
  | inr (item, e) ↦
      let (found, same) = element-found c key item v e in
      rw (e, unlink)
        (record {
          agree = λ k ne. ground (
            arith,
            v.agree k,
            find_key-remove_id c.next_id item.id c.lru_list item k v.distinct found,
          );
          absent =
              ground (arith, has_key_removed c.next_id item.id c.lru_list item v.distinct found);
          distinct = Distinct-remove_id c.next_id item.id c.lru_list v.distinct;
          counted = omega (arith, v.counted, total-remove_id item.id c.lru_list item found);
        })
]

pub evict_oldest-IsValidBut :
    (key : String) (c : ObjectCache) → IsValidBut key c → IsValidBut key (evict_oldest c)
unfolding evict_oldest delete_element
evict_oldest-IsValidBut key c v = elim (Option-cases (last c.lru_list)) [
  | inl e ↦ rw (e, evict_oldest) v
  | inr (item, e) ↦
      let found = find_id-last c.next_id c.lru_list item v.distinct e in
      rw (e, evict_oldest)
        (record {
          agree = λ k ne. ground (
            arith,
            v.agree k ne,
            lookup-remove item.key k c.items,
            find_key-remove_id c.next_id item.id c.lru_list item k v.distinct found,
          );
          absent = has_key-remove_id key item.id c.lru_list v.absent;
          distinct = Distinct-remove_id c.next_id item.id c.lru_list v.distinct;
          counted = omega (arith, v.counted, total-remove_id item.id c.lru_list item found);
        })
]

pub evict_loop-IsValidBut :
    (key : String) (rounds : ℕ) (c : ObjectCache) (n : ℕ)
    → IsValidBut key c
    → IsValidBut key (evict_loop rounds c n)
unfolding evict_loop
evict_loop-IsValidBut key zero c n v = v
evict_loop-IsValidBut key (suc rounds) c n v =
    elim (Bool-cases (ltb c.max_bytes (c.size + n) && not (is_nil c.lru_list))) [
      | inl e ↦
          rw e
            (evict_loop-IsValidBut key rounds (evict_oldest c) n (evict_oldest-IsValidBut key c v))
      | inr e ↦ rw e v
    ]

push_front-IsValid :
    (c : ObjectCache) (key : String) (value : List ℕ) (now : ℕ)
    → IsValidBut key c
    → IsValid (push_front c key value now)
unfolding push_front find_key total
push_front-IsValid c key value now v = record {
  agree = λ k. ground (arith, v.agree k, lookup-insert key k c.next_id c.items);
  distinct = (
    omega arith,
    has_id-fresh c.next_id c.lru_list v.distinct,
    v.absent,
    Distinct-grow c.next_id c.lru_list v.distinct,
  );
  counted = omega (arith, v.counted);
}

pub set-IsValid :
    (c : ObjectCache) (key : String) (value : List ℕ) (now : ℕ)
    → IsValid c
    → IsValid (set c key value now)
unfolding set
set-IsValid c key value now v =
    push_front-IsValid _ key value now (evict_loop-IsValidBut key _ _ _ (unlink-IsValidBut c key v))

step-IsValid : (c : ObjectCache) (call : Call) → IsValid c → IsValid (step c call)
unfolding step
step-IsValid c (gets key now) v = get-IsValid c key now v
step-IsValid c (deletes key now) v = delete-IsValid c key v
step-IsValid c (sets key value now) v = set-IsValid c key value now v
step-IsValid c clears v = clear-IsValid c

run-IsValid : (c : ObjectCache) (calls : List Call) → IsValid c → IsValid (run c calls)
unfolding run
run-IsValid c [] v = v
run-IsValid c (call ∷ calls) v = run-IsValid (step c call) calls (step-IsValid c call v)

-- After any calls on a new cache the map leads each key to the element that holds it, no two elements
-- share a key or an address, and the size is the sum of the elements' sizes.
pub run_new-IsValid :
    (max_bytes ttl : ℕ) (calls : List Call) → IsValid (run (new_object_cache max_bytes ttl) calls)
unfolding new_object_cache find_key total lookup
run_new-IsValid max_bytes ttl calls =
    run-IsValid _ calls (record { agree = λ k. refl; distinct = tt; counted = refl })
