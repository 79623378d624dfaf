-- ===== src/Cache/Object/Behaviour.antt =====
-- What a client of `ObjectCache` of internal/cache/cache.go sees.
use mathlib.Core.List.{append_assoc, append-nil}
use text.Mathlib.TextEquality.{eq_iff}
use cipher_lake.Prelude.{
  ℕ, zero, suc, ◌+◌, ◌≤◌, ◌<◌, Bool, false, none, some, List, [], ◌∷◌, ◌++◌, String, lookup-insert,
  text_key, length, if◌then◌else◌, ◌≡◌, refl, arith, Option-cases, inl, inr, is_nil, sym, ◌∙◌,
  Bool-cases, ltb, ◌&&◌, not, ◌⊎◌, tail, ap,
}
use cipher_lake.Cache.Object.Elements.{
  CacheItem, find_id, last, last-none, total, remove_id-last, length-remove_id, find_id-last,
}
use cipher_lake.Cache.Object.{
  ObjectCache, element, expired, get, evict_oldest, delete_element, evict_loop, unlink, push_front,
  set,
}
use cipher_lake.Cache.Object.Invariant.{
  IsValid, IsValidBut, evict_oldest-IsValidBut, unlink-IsValidBut, evict_loop-IsValidBut,
}

-- The limits of a cache never change.
abbrev SameLimits : ObjectCache → ObjectCache → Type 0
SameLimits c d = (c.ttl ≡ d.ttl) × (c.max_bytes ≡ d.max_bytes)

evict_loop-SameLimits :
    (rounds : ℕ) (c : ObjectCache) (n : ℕ) → SameLimits (evict_loop rounds c n) c
unfolding evict_loop evict_oldest delete_element
evict_loop-SameLimits zero c n = (refl, refl)
evict_loop-SameLimits (suc rounds) c n =
    ground (arith, evict_loop-SameLimits rounds (evict_oldest c) n)

unlink-SameLimits : (c : ObjectCache) (key : String) → SameLimits (unlink c key) c
unfolding unlink
unlink-SameLimits c key = ground arith

element-push_front :
    (c : ObjectCache) (key : String) (value : List ℕ) (now later : ℕ)
    → (get (push_front c key value now) key later).1
      ≡ (if ltb (now + c.ttl) later then none else some value)
unfolding get element expired push_front find_id
element-push_front c key value now later =
    ground (arith, lookup-insert key key c.next_id c.items, eq_iff key key)

-- What was stored is read back until its time to live has passed, and no longer.
pub get-set :
    (c : ObjectCache) (key : String) (value : List ℕ) (now later : ℕ)
    → (get (set c key value now) key later).1
      ≡ (if ltb (now + c.ttl) later then none else some value)
unfolding set
get-set c key value now later = ground (
  arith,
  element-push_front (evict_loop (length (unlink c key).lru_list) (unlink c key) (length value)) key
      value now later,
  evict_loop-SameLimits (length (unlink c key).lru_list) (unlink c key) (length value),
  unlink-SameLimits c key,
)

-- What one eviction takes from the list.
evict_oldest_shorter :
    (key : String) (c : ObjectCache)
    → IsValidBut key c
    → is_nil c.lru_list ≡ false
    → (item : CacheItem) × ((evict_oldest c).lru_list ++ (item ∷ []) ≡ c.lru_list)
      × (length c.lru_list ≡ suc (length (evict_oldest c).lru_list))
unfolding evict_oldest delete_element
evict_oldest_shorter key c v h = elim (Option-cases (last c.lru_list)) [
  | inl e ↦ absurd (ground (arith, last-none c.lru_list e))
  | inr (item, e) ↦
      let found = find_id-last c.next_id c.lru_list item v.distinct e in
      rw (e, evict_oldest)
        (
          item,
          remove_id-last c.next_id c.lru_list item v.distinct e,
          length-remove_id item.id c.lru_list item found,
        )
]

length_of_is_nil : (es : List CacheItem) → length es ≤ 0 → es ≡ []
length_of_is_nil [] h = refl
length_of_is_nil (e ∷ es) h = absurd (omega arith)

evict_oldest-max_bytes : (c : ObjectCache) → (evict_oldest c).max_bytes ≡ c.max_bytes
unfolding evict_oldest delete_element
evict_oldest-max_bytes c = ground arith

abbrev keeps_evicting : ObjectCache → ℕ → Bool
keeps_evicting c n = ltb c.max_bytes (c.size + n) && not (is_nil c.lru_list)

stopped :
    (c : ObjectCache) (n : ℕ)
    → keeps_evicting c n ≡ false
    → (c.size + n ≤ c.max_bytes) ⊎ (c.lru_list ≡ [])
stopped c n h = ground arith

-- The loop stops with room for the item, or with nothing left to evict, and what it evicts stood at
-- the back of the list.
evict_loop_ends :
    (key : String) (rounds : ℕ) (c : ObjectCache) (n : ℕ)
    → IsValidBut key c
    → length c.lru_list ≤ rounds
    → ((evict_loop rounds c n).size + n ≤ c.max_bytes) ⊎ ((evict_loop rounds c n).lru_list ≡ [])
unfolding evict_loop
evict_loop_ends key zero c n v h = inr (length_of_is_nil c.lru_list h)
evict_loop_ends key (suc rounds) c n v h = elim (Bool-cases (keeps_evicting c n)) [
  | inl e ↦
      let (item, _, shorter) = evict_oldest_shorter key c v (ground arith) in
      rw e (
        ground (
          arith,
          evict_oldest-max_bytes c,
          evict_loop_ends key rounds (evict_oldest c) n (evict_oldest-IsValidBut key c v)
              (omega arith),
        ))
  | inr e ↦ rw e (stopped c n e)
]

evict_loop-prefix :
    (key : String) (rounds : ℕ) (c : ObjectCache) (n : ℕ)
    → IsValidBut key c
    → (evicted : List CacheItem) × ((evict_loop rounds c n).lru_list ++ evicted ≡ c.lru_list)
unfolding evict_loop
evict_loop-prefix key zero c n v = ([], append-nil c.lru_list)
evict_loop-prefix key (suc rounds) c n v = elim (Bool-cases (keeps_evicting c n)) [
  | inl e ↦
      let (item, front, _) = evict_oldest_shorter key c v (ground arith) in
      let (evicted, rest) =
        evict_loop-prefix key rounds (evict_oldest c) n (evict_oldest-IsValidBut key c v) in
      rw e (
        evicted ++ (item ∷ []),
        sym (append_assoc (evict_loop rounds (evict_oldest c) n).lru_list evicted (item ∷ []))
            ∙ (ap (λ (es : List CacheItem). es ++ (item ∷ [])) rest ∙ front),
      )
  | inr e ↦ rw e ([], append-nil c.lru_list)
]

-- After `Set` the cache is within its limit, or the item alone is larger than the limit and nothing
-- else is left.
pub set-size :
    (c : ObjectCache) (key : String) (value : List ℕ) (now : ℕ)
    → IsValid c
    → ((set c key value now).size ≤ c.max_bytes)
      ⊎ ((c.max_bytes < length value) × ((set c key value now).size ≡ length value))
unfolding set push_front total
set-size c key value now v =
    let u = unlink c key in
    let v' = unlink-IsValidBut c key v in
    let r = evict_loop (length u.lru_list) u (length value) in
    let w = evict_loop-IsValidBut key (length u.lru_list) u (length value) v' in
    ground (
      arith,
      evict_loop_ends key (length u.lru_list) u (length value) v' (omega arith),
      unlink-SameLimits c key,
      w.counted,
    )

-- `Set` puts the item at the front, and what it evicts to make room is the back of the list: the
-- elements that were used the longest ago.
pub set_evicts_oldest :
    (c : ObjectCache) (key : String) (value : List ℕ) (now : ℕ)
    → IsValid c
    → (evicted : List CacheItem) × (tail (set c key value now).lru_list ++ evicted
        ≡ (unlink c key).lru_list)
unfolding set push_front
set_evicts_oldest c key value now v =
    evict_loop-prefix key (length (unlink c key).lru_list) (unlink c key) (length value)
      (unlink-IsValidBut c key v)
