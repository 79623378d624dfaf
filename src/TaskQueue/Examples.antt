-- ===== src/TaskQueue/Examples.antt =====
-- Runs of the task queue (internal/taskqueue) on small inputs.
use cipher_lake.Prelude.{
  ℕ, ◌*◌, ◌^◌, true, false, none, [], ◌∷◌, String, pos, ◌≡◌, insert, refl, ◌⊎◌, lookup, text_key,
  if◌then◌else◌,
}
use text.Mathlib.Text.{◌==◌}
use cipher_lake.TaskQueue.Task.{pending, no_error, Task}
use cipher_lake.TaskQueue.Order.{sort_tasks}
use cipher_lake.TaskQueue.Store.{ok, MemoryStore, new_memory_store, claimed, claim_pending}
use cipher_lake.TaskQueue.Store.Claims.{HasNone, IsClaim, IsStored, IsNext, claim_pending_next}
use cipher_lake.TaskQueue.Queue.{
  HandlerResult, succeeded, returned, Queue, new_queue, process_one, retry_delay,
}
use cipher_lake.TaskQueue.Queue.Rounds.{fate, process_one_lem}
use cipher_lake.TaskQueue.Queue.Retries.{alone, rounds, IsFailing, IsGivenUp, failing_task_ends}
use cipher_lake.TaskQueue.Queue.Delay.{retry_delay_vanishes}

abbrev task : String → ℕ → ℕ → Task
task id priority created_at = record {
  id = id;
  kind = "vectorize";
  payload = [];
  priority = pos priority;
  status = pending;
  attempts = 0;
  max_attempts = 3;
  created_at = created_at;
  updated_at = created_at;
  deadline = none;
  error = no_error;
}

abbrev old : Task
old = task "old" 0 1

abbrev urgent : Task
urgent = task "urgent" 5 2

abbrev two_tasks : MemoryStore
two_tasks = record { tasks = ("old", old) ∷ ("urgent", urgent) ∷ []; closed = false }

abbrev done : Task → HandlerResult
done t = succeeded

abbrev broken : Task → HandlerResult
broken t = returned "no index"

abbrev queue_of : MemoryStore → (Task → HandlerResult) → Queue
queue_of store handler = record (new_queue new_memory_store) {
  store = store;
  handlers = ("vectorize", handler) ∷ [];
}

test_sort_tasks : sort_tasks (old ∷ urgent ∷ []) ≡ urgent ∷ old ∷ []
unfolding sort_tasks
test_sort_tasks = refl

claim_pending_next_example :
    (HasNone two_tasks.tasks × (claim_pending two_tasks 7 1 ≡ ok (two_tasks, [])))
    ⊎ ((t : Task) × IsClaim two_tasks 7 t)
unfolding lookup
claim_pending_next_example = claim_pending_next two_tasks 7 refl (refl, refl, (refl, refl, tt))

process_one_lem_example :
    (HasNone two_tasks.tasks
      × (process_one (queue_of two_tasks done) 7 ≡ (queue_of two_tasks done, false)))
    ⊎ ((t : Task) × (IsStored two_tasks.tasks pending t
          × (IsNext two_tasks.tasks t
              × (((process_one (queue_of two_tasks done) 7).1 ≡ true)
                  × ((id : String)
                      → lookup id (process_one (queue_of two_tasks done) 7).0.store.tasks ≡ (
                          if t.id == id
                          then fate (("vectorize", done) ∷ []) 7 (claimed 7 t)
                          else lookup id two_tasks.tasks))))))
unfolding lookup
process_one_lem_example =
    process_one_lem (queue_of two_tasks done) 7 refl (refl, refl, (refl, refl, tt))

failing_task_ends_example :
    IsGivenUp
      (queue_of (alone old) broken)
      old
      2
      (rounds (queue_of (alone old) broken) (3 ∷ 4 ∷ 5 ∷ []))
unfolding IsFailing lookup
failing_task_ends_example =
    failing_task_ends (queue_of (alone old) broken) old "no index" 3 (4 ∷ 5 ∷ [])
      (refl, refl, refl, refl) refl

retry_delay_vanishes_example : retry_delay (10 ^ 9) (300 * 10 ^ 9) 70 ≡ pos 0
retry_delay_vanishes_example = retry_delay_vanishes (10 ^ 9) (300 * 10 ^ 9) 5

-- The store after the first claim, and after the second.
abbrev after_first : MemoryStore
after_first = record two_tasks { tasks = insert "urgent" (claimed 7 urgent) two_tasks.tasks }

abbrev after_second : MemoryStore
after_second = record two_tasks {
  tasks = insert "old" (claimed 8 old) (insert "urgent" (claimed 7 urgent) two_tasks.tasks);
}
