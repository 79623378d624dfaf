-- ===== src/TaskQueue/Store.antt =====
-- `MemoryStore` of internal/taskqueue/store.go. Each call holds the lock from its first access of the
-- map to its last, and so is one step; `now` is the clock's reading in it. The map is walked in the
-- order of its entries, which is any order.
pub mod Claims
pub mod Exclusive
pub mod Keys
use cipher_lake.Prelude.{
  ℕ, ◌+◌, Bool, true, false, ◌&&◌, Option, none, some, List, [], ◌∷◌, String, ltb, length, take,
  lookup, insert, remove, text_key, if◌then◌else◌, is_some,
}
use cipher_lake.TaskQueue.Task.{Status, pending, processing, completed, failed, dead_letter, Task}
use cipher_lake.TaskQueue.Order.{sort_tasks}

pub data StoreError : Type 0 where
  store_closed task_not_found : StoreError

pub data StoreResult {ℓ} (A : Type ℓ) : Type ℓ where
  ok : A → StoreResult A
  err : StoreError → StoreResult A

pub record MemoryStore : Type 0 where
  pub tasks : List (String × Task)
  pub closed : Bool

unfoldable pub new_memory_store : MemoryStore
new_memory_store = record { tasks = []; closed = false }

abbrev pub status_beq : Status → Status → Bool
status_beq pending pending = true
status_beq processing processing = true
status_beq completed completed = true
status_beq failed failed = true
status_beq dead_letter dead_letter = true
status_beq _ _ = false

-- The loop that gathers the tasks of a status.
unfoldable pub with_status : Status → List (String × Task) → List Task
with_status s [] = []
with_status s ((id, t) ∷ entries) =
    let rest = with_status s entries in if status_beq t.status s then t ∷ rest else rest

-- A limit of 0 stands for one that is not positive.
unfoldable pub limited : ℕ → List Task → List Task
limited limit ts = if ltb 0 limit && ltb limit (length ts) then take limit ts else ts

abbrev pub listed : Status → ℕ → List (String × Task) → List Task
listed s limit entries = limited limit (sort_tasks (with_status s entries))

unfoldable pub put : MemoryStore → ℕ → Task → StoreResult MemoryStore
put s now t =
    if s.closed
    then err store_closed
    else ok (record s { tasks = insert t.id (record t { updated_at = now }) s.tasks })

unfoldable pub get_pending : MemoryStore → ℕ → StoreResult (List Task)
get_pending s limit = if s.closed then err store_closed else ok (listed pending limit s.tasks)

abbrev pub claimed : ℕ → Task → Task
claimed now t = record t { status = processing; attempts = t.attempts + 1; updated_at = now }

-- The second loop of `ClaimPending`. A task whose id were no key would be a nil pointer there.
unfoldable pub claim_all : ℕ → List (String × Task) → List Task → List (String × Task) × List Task
claim_all now entries [] = (entries, [])
claim_all now entries (t ∷ ts) = elim (lookup t.id entries) [
  | none ↦ (entries, [])
  | some stored ↦
      let (after, rest) = claim_all now (insert t.id (claimed now stored) entries) ts in
      (after, claimed now stored ∷ rest)
]

unfoldable pub claim_pending : MemoryStore → ℕ → ℕ → StoreResult (MemoryStore × List Task)
claim_pending s now limit =
    if s.closed
    then err store_closed
    else let (after, ts) = claim_all now s.tasks (listed pending limit s.tasks) in
      ok (record s { tasks = after }, ts)

unfoldable pub recover_entries : ℕ → List (String × Task) → List (String × Task)
recover_entries now [] = []
recover_entries now ((id, t) ∷ entries) =
    let rest = recover_entries now entries in
    if status_beq t.status processing
    then (id, record t { status = pending; updated_at = now }) ∷ rest
    else (id, t) ∷ rest

unfoldable pub recover_processing : MemoryStore → ℕ → StoreResult MemoryStore
recover_processing s now =
    if s.closed then err store_closed else ok (record s { tasks = recover_entries now s.tasks })

unfoldable pub get_by_id : MemoryStore → String → StoreResult Task
get_by_id s id =
    if s.closed
    then err store_closed
    else elim (lookup id s.tasks) [ none ↦ err task_not_found | some t ↦ ok t ]

unfoldable pub update : MemoryStore → ℕ → Task → StoreResult MemoryStore
update s now t =
    if s.closed
    then err store_closed
    else if is_some (lookup t.id s.tasks)
    then ok (record s { tasks = insert t.id (record t { updated_at = now }) s.tasks })
    else err task_not_found

unfoldable pub delete : MemoryStore → String → StoreResult MemoryStore
delete s id = if s.closed then err store_closed else ok (record s { tasks = remove id s.tasks })

unfoldable pub list_dead_letter : MemoryStore → ℕ → StoreResult (List Task)
list_dead_letter s limit =
    if s.closed then err store_closed else ok (listed dead_letter limit s.tasks)

unfoldable pub close : MemoryStore → MemoryStore
close s = record s { closed = true }
