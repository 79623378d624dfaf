-- ===== src/TaskQueue/Queue.antt =====
-- `Queue` of internal/taskqueue/queue.go over `MemoryStore`: `Submit`, `Start`, `processOne` and
-- `retryDelay`. A handler is what it returns for a task, which it leaves as it is; a worker's round is
-- one step, with one reading of the clock, and the wait after a failure takes no part in the state.
-- Counters are unbounded, where the source has int64.
pub mod Rounds
pub mod Retries
pub mod Keys
pub mod Delay
use cipher_lake.Prelude.{
  ℕ, zero, suc, ◌+◌, ◌-◌, ◌*◌, ◌^◌, ◌%◌, Bool, true, false, Option, none, some, List, [], ◌∷◌,
  String, ℤ, pos, negsuc, ltb, leb, nat_beq, lt_int, lookup, insert, text_key, if◌then◌else◌,
}
use cipher_lake.TaskQueue.Task.{
  pending, completed, dead_letter, TaskError, no_error, deadline_exceeded, no_handler,
  handler_failed, handler_panicked, cleanup_failed, Task, InvalidTask, validate, is_expired,
}
use cipher_lake.TaskQueue.Store.{
  MemoryStore, StoreError, StoreResult, ok, err, put, claim_pending, recover_processing, update,
  delete,
}

pub data HandlerResult : Type 0 where
  succeeded : HandlerResult
  returned panicked : String → HandlerResult

pub record Metrics : Type 0 where
  pub submitted : ℕ
  pub completions : ℕ
  pub failures : ℕ
  pub retried : ℕ
  pub dead_lettered : ℕ

pub record Queue : Type 0 where
  pub store : MemoryStore
  pub handlers : List (String × (Task → HandlerResult))
  pub started : Bool
  pub metrics : Metrics

unfoldable pub new_queue : MemoryStore → Queue
new_queue store = record {
  store = store;
  handlers = [];
  started = false;
  metrics = record { submitted = 0; completions = 0; failures = 0; retried = 0; dead_lettered = 0 };
}

unfoldable pub register : Queue → String → (Task → HandlerResult) → Queue
register q kind handler = record q { handlers = insert kind handler q.handlers }

pub data SubmitResult : Type 0 where
  accepted : SubmitResult
  invalid : InvalidTask → SubmitResult
  not_persisted : StoreError → SubmitResult

-- `Submit` once the store has answered.
abbrev pub persisted : Queue → StoreResult MemoryStore → Queue × SubmitResult
persisted q (err e) = (q, not_persisted e)
persisted q (ok after) = (
  record q { store = after; metrics = record q.metrics { submitted = q.metrics.submitted + 1 } },
  accepted,
)

unfoldable pub submit : Queue → ℕ → Task → Queue × SubmitResult
submit q now t = elim (validate t).1 [
  | some e ↦ (q, invalid e)
  | none ↦ persisted q (put q.store now (validate t).0)
]

-- An error of the store is logged, and the store stays as it is.
abbrev pub kept_or : MemoryStore → StoreResult MemoryStore → MemoryStore
kept_or s (ok after) = after
kept_or s (err e) = s

unfoldable pub start : Queue → ℕ → Queue
start q now =
    if q.started
    then q
    else record q { store = kept_or q.store (recover_processing q.store now); started = true }

abbrev pub count_dead_letter : Metrics → Metrics
count_dead_letter ms = record ms { dead_lettered = ms.dead_lettered + 1 }

unfoldable pub bury : Queue → ℕ → Task → Queue
bury q now t = record q {
  store = kept_or q.store (update q.store now t);
  metrics = count_dead_letter q.metrics;
}

-- The store after the deletion of a completed task: where it fails, the record is kept.
abbrev pub cleaned : MemoryStore → ℕ → Task → StoreResult MemoryStore → MemoryStore
cleaned s now t (ok after) = after
cleaned s now t (err e) =
    kept_or s (update s now (record t { status = completed; error = cleanup_failed }))

-- The branch in which the handler succeeds.
unfoldable pub complete : Queue → ℕ → Task → Queue
complete q now t = record q {
  store = cleaned q.store now t (delete q.store t.id);
  metrics = record q.metrics { completions = q.metrics.completions + 1 };
}

-- The branch in which it fails: its attempts are used up, or the task waits for another round.
unfoldable pub fail : Queue → ℕ → Task → TaskError → Queue
fail q now t e =
    let counted = record q { metrics = record q.metrics { failures = q.metrics.failures + 1 } } in
    if leb t.max_attempts t.attempts
    then bury counted now (record t { status = dead_letter; error = e })
    else record counted {
      store = kept_or q.store (update q.store now (record t { status = pending; error = e }));
      metrics = record counted.metrics { retried = counted.metrics.retried + 1 };
    }

unfoldable pub settle : Queue → ℕ → Task → HandlerResult → Queue
settle q now t succeeded = complete q now t
settle q now t (returned e) = fail q now t (handler_failed e)
settle q now t (panicked e) = fail q now t (handler_panicked e)

unfoldable pub execute : Queue → ℕ → Task → Queue
execute q now t =
    if is_expired t now
    then bury q now
        (record t { status = dead_letter; error = deadline_exceeded; attempts = t.attempts + 1 })
    else elim (lookup t.kind q.handlers) [
      | none ↦ bury q now (record t { status = dead_letter; error = no_handler t.kind })
      | some handler ↦ settle q now t (handler t)
    ]

unfoldable pub process_one : Queue → ℕ → Queue × Bool
process_one q now = elim (claim_pending q.store now 1) [
  | err e ↦ (q, false)
  | ok (after, []) ↦ (record q { store = after }, false)
  | ok (after, t ∷ ts) ↦ (execute (record q { store = after }) now t, true)
]

pub stats : Queue → List (String × ℕ)
stats q =
    ("submitted", q.metrics.submitted)
    ∷ ("completed", q.metrics.completions)
    ∷ ("failed", q.metrics.failures)
    ∷ ("retried", q.metrics.retried)
    ∷ ("dead_lettered", q.metrics.dead_lettered)
    ∷ []

-- The value of an int64 whose bits are those of `n`.
unfoldable pub to_int64 : ℕ → ℤ
to_int64 n = let m = n % 2 ^ 64 in if ltb m (2 ^ 63) then pos m else negsuc (2 ^ 64 - 1 - m)

-- `1 << k` on 64 bits.
unfoldable pub shl_one : ℕ → ℕ
shl_one zero = 1
shl_one (suc k) = 2 * shl_one k % 2 ^ 64

abbrev pub capped : ℕ → ℤ → ℤ
capped max_retry_delay delay =
    if lt_int (pos max_retry_delay) delay then pos max_retry_delay else delay

-- `retryDelay` of a positive base delay and a cap, in nanoseconds. The clauses are `attempt <= 0`,
-- which counts as 1, and `attempt - 1` from 0 on.
unfoldable pub retry_delay : ℕ → ℕ → ℕ → ℤ
retry_delay retry_base max_retry_delay zero =
    capped max_retry_delay (to_int64 (retry_base * shl_one 0))
retry_delay retry_base max_retry_delay (suc shift) =
    capped max_retry_delay (to_int64 (retry_base * shl_one shift))
