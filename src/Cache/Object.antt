-- ===== src/Cache/Object.antt =====
-- `ObjectCache` of internal/cache/cache.go: a size-bounded cache with a time to live, least recently
-- used out first. A list element is known by the `id` that it got when it was pushed, which stands for
-- its address; the map takes a key to such an address. Times are nanoseconds, and each call gets the
-- clock's reading as `now`. Counters and sizes are unbounded, where the source has int64.
pub mod Elements
pub mod Invariant
pub mod Behaviour
use text.Mathlib.Text.{◌==◌}
use cipher_lake.Prelude.{
  ℕ, zero, suc, ◌+◌, ◌-◌, ◌*◌, ◌^◌, Bool, true, false, Option, none, some, List, [], ◌∷◌, String,
  ltb, nat_beq, length, lookup, remove, insert, text_key, if◌then◌else◌, ◌&&◌, not, is_nil,
}
use Elements.{CacheItem, find_id, remove_id, last}

pub record ObjectCache : Type 0 where
  pub items : List (String × ℕ)
  pub lru_list : List CacheItem
  pub next_id : ℕ
  pub max_bytes : ℕ
  pub ttl : ℕ
  pub size : ℕ
  pub hits : ℕ
  pub misses : ℕ

-- 5 minutes, in nanoseconds.
abbrev pub default_ttl : ℕ
default_ttl = 300 * 10 ^ 9

abbrev pub default_max_bytes : ℕ
default_max_bytes = 30 * 2 ^ 30

-- A limit of 0 stands for one that is not positive.
pub new_object_cache : ℕ → ℕ → ObjectCache
new_object_cache max_bytes ttl = record {
  items = [];
  lru_list = [];
  next_id = 0;
  max_bytes = if nat_beq max_bytes 0 then default_max_bytes else max_bytes;
  ttl = if nat_beq ttl 0 then default_ttl else ttl;
  size = 0;
  hits = 0;
  misses = 0;
}

-- `deleteElement`.
pub delete_element : ObjectCache → CacheItem → ObjectCache
delete_element c item = record c {
  items = remove item.key c.items;
  lru_list = remove_id item.id c.lru_list;
  size = c.size - item.size;
}

miss : ObjectCache → ObjectCache
miss c = record c { misses = c.misses + 1 }

hit : ObjectCache → CacheItem → ℕ → ObjectCache
hit c item now = record c {
  lru_list =
      record item { accessed_at = now; access_count = item.access_count + 1 }
      ∷ remove_id item.id c.lru_list;
  hits = c.hits + 1;
}

-- The element that a key's address leads to.
pub element : ObjectCache → String → Option CacheItem
element c key = elim (lookup key c.items) [ none ↦ none | some id ↦ find_id id c.lru_list ]

pub expired : ObjectCache → CacheItem → ℕ → Bool
expired c item now = ltb (item.created_at + c.ttl) now

pub get : ObjectCache → String → ℕ → ObjectCache × Option (List ℕ)
get c key now = elim (element c key) [
  | none ↦ (miss c, none)
  | some item ↦
      if expired c item now
      then (miss (delete_element c item), none)
      else (hit c item now, some item.value)
]

-- One round of the loop in `Set`: the element at the back goes.
pub evict_oldest : ObjectCache → ObjectCache
evict_oldest c = elim (last c.lru_list) [ none ↦ c | some item ↦ delete_element c item ]

-- The eviction loop of `Set`, with a round for each element of the list.
pub evict_loop : ℕ → ObjectCache → ℕ → ObjectCache
evict_loop zero c item_size = c
evict_loop (suc rounds) c item_size =
    let rest = evict_loop rounds (evict_oldest c) item_size in
    if ltb c.max_bytes (c.size + item_size) && not (is_nil c.lru_list) then rest else c

-- The old element of the key leaves the list, and not the map.
pub unlink : ObjectCache → String → ObjectCache
unlink c key = elim (element c key) [
  | none ↦ c
  | some item ↦ record c { size = c.size - item.size; lru_list = remove_id item.id c.lru_list }
]

pub push_front : ObjectCache → String → List ℕ → ℕ → ObjectCache
push_front c key value now = record c {
  items = insert key c.next_id c.items;
  lru_list =
      record {
        id = c.next_id;
        key = key;
        value = value;
        size = length value;
        created_at = now;
        accessed_at = now;
        access_count = 1;
      }
      ∷ c.lru_list;
  next_id = c.next_id + 1;
  size = c.size + length value;
}

pub set : ObjectCache → String → List ℕ → ℕ → ObjectCache
set c key value now =
    let unlinked = unlink c key in
    push_front (evict_loop (length unlinked.lru_list) unlinked (length value)) key value now

pub delete : ObjectCache → String → ObjectCache
delete c key = elim (element c key) [ none ↦ c | some item ↦ delete_element c item ]

pub clear : ObjectCache → ObjectCache
clear c = record c { items = []; lru_list = []; size = 0 }

pub data Call : Type 0 where
  gets deletes : String → ℕ → Call
  sets : String → List ℕ → ℕ → Call
  clears : Call

pub step : ObjectCache → Call → ObjectCache
step c (gets key now) = (get c key now).0
step c (deletes key now) = delete c key
step c (sets key value now) = set c key value now
step c clears = clear c

pub run : ObjectCache → List Call → ObjectCache
run c [] = c
run c (call ∷ calls) = run (step c call) calls
