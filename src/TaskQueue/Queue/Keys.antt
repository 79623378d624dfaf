-- ===== src/TaskQueue/Queue/Keys.antt =====
-- Tasks under their ids in the queue of internal/taskqueue/queue.go, which the claims of its store rely on, and its
-- count of failures.
use cipher_lake.Prelude.{
  ℕ, ◌+◌, ◌≤◌, Bool, true, false, List, [], ◌∷◌, String, ◌≡◌, refl, subst, sym, arith, Bool-cases,
  Option-cases, inl, inr, lookup, text_key, leb,
}
use cipher_lake.TaskQueue.Task.{
  pending, completed, dead_letter, TaskError, cleanup_failed, handler_failed, handler_panicked,
  Task, validate, is_expired,
}
use cipher_lake.TaskQueue.Store.{
  MemoryStore, StoreResult, ok, err, new_memory_store, put, claim_pending, recover_processing,
  update, delete,
}
use cipher_lake.TaskQueue.Store.Claims.{IsKeyed}
use cipher_lake.TaskQueue.Store.Keys.{
  IsKept, IsKeptClaim, put-IsKeyed, update-IsKeyed, delete-IsKeyed, recover_processing-IsKeyed,
  claim_pending-IsKeyed,
}
use cipher_lake.TaskQueue.Queue.{
  HandlerResult, succeeded, returned, panicked, Queue, new_queue, register, persisted, submit,
  start, kept_or, cleaned, bury, complete, fail, settle, execute, process_one,
}

pub data QueueOp : Type 0 where
  registering : String → (Task → HandlerResult) → QueueOp
  submitting : ℕ → Task → QueueOp
  starting round : ℕ → QueueOp

pub apply_op : Queue → QueueOp → Queue
apply_op q (registering kind handler) = register q kind handler
apply_op q (submitting now t) = (submit q now t).0
apply_op q (starting now) = start q now
apply_op q (round now) = (process_one q now).0

pub run : Queue → List QueueOp → Queue
run q [] = q
run q (o ∷ ops) = run (apply_op q o) ops

-- Every task stands under its own id, and each failure was retried or ended in a dead letter.
pub record IsValid (q : Queue) : Type 0 where
  pub keyed : IsKeyed q.store.tasks
  pub counted : q.metrics.failures ≤ q.metrics.retried + q.metrics.dead_lettered

kept_or-IsKeyed :
    (s : MemoryStore) (result : StoreResult MemoryStore)
    → IsKeyed s.tasks
    → IsKept (λ after. IsKeyed after.tasks) result
    → IsKeyed (kept_or s result).tasks
unfolding IsKept
kept_or-IsKeyed s (ok after) keyed kept = kept
kept_or-IsKeyed s (err e) keyed kept = keyed

updated-IsKeyed :
    (s : MemoryStore) (now : ℕ) (t : Task)
    → IsKeyed s.tasks
    → IsKeyed (kept_or s (update s now t)).tasks
updated-IsKeyed s now t keyed =
    kept_or-IsKeyed s (update s now t) keyed (update-IsKeyed s now t keyed)

bury-IsValid : (q : Queue) (now : ℕ) (t : Task) → IsValid q → IsValid (bury q now t)
unfolding bury
bury-IsValid q now t valid = record {
  keyed = updated-IsKeyed q.store now t valid.keyed;
  counted = omega (arith, valid.counted);
}

deleted-IsKeyed :
    (s : MemoryStore) (now : ℕ) (t : Task) (result : StoreResult MemoryStore)
    → IsKeyed s.tasks
    → IsKept (λ after. IsKeyed after.tasks) result
    → IsKeyed (cleaned s now t result).tasks
unfolding IsKept
deleted-IsKeyed s now t (ok after) keyed kept = kept
deleted-IsKeyed s now t (err e) keyed kept =
    updated-IsKeyed s now (record t { status = completed; error = cleanup_failed }) keyed

-- `delete` of the branch that ends a task, or the note that it failed.
complete-IsValid : (q : Queue) (now : ℕ) (t : Task) → IsValid q → IsValid (complete q now t)
unfolding complete
complete-IsValid q now t valid = record {
  keyed =
      deleted-IsKeyed q.store now t (delete q.store t.id) valid.keyed
        (delete-IsKeyed q.store t.id valid.keyed);
  counted = valid.counted;
}

fail-IsValid :
    (q : Queue) (now : ℕ) (t : Task) (e : TaskError) → IsValid q → IsValid (fail q now t e)
unfolding fail bury
fail-IsValid q now t e valid = elim (Bool-cases (leb t.max_attempts t.attempts)) [
  | inl used_up ↦ rw used_up (record {
    keyed = updated-IsKeyed q.store now (record t { status = dead_letter; error = e }) valid.keyed;
    counted = omega (arith, valid.counted);
  })
  | inr left ↦ rw left (record {
    keyed = updated-IsKeyed q.store now (record t { status = pending; error = e }) valid.keyed;
    counted = omega (arith, valid.counted);
  })
]

settle-IsValid :
    (q : Queue) (now : ℕ) (t : Task) (result : HandlerResult)
    → IsValid q
    → IsValid (settle q now t result)
unfolding settle
settle-IsValid q now t succeeded valid = complete-IsValid q now t valid
settle-IsValid q now t (returned e) valid = fail-IsValid q now t (handler_failed e) valid
settle-IsValid q now t (panicked e) valid = fail-IsValid q now t (handler_panicked e) valid

execute-IsValid : (q : Queue) (now : ℕ) (t : Task) → IsValid q → IsValid (execute q now t)
unfolding execute
execute-IsValid q now t valid = elim (Bool-cases (is_expired t now)) [
  | inl late ↦ rw late (bury-IsValid q now _ valid)
  | inr in_time ↦ elim (Option-cases (lookup t.kind q.handlers)) [
    | inl missing ↦ rw in_time (rw missing (bury-IsValid q now _ valid))
    | inr (handler, known) ↦ rw in_time (rw known (settle-IsValid q now t (handler t) valid))
  ]
]

round_from : Queue → ℕ → StoreResult (MemoryStore × List Task) → Queue × Bool
round_from q now (err e) = (q, false)
round_from q now (ok (after, [])) = (record q { store = after }, false)
round_from q now (ok (after, t ∷ ts)) = (execute (record q { store = after }) now t, true)

process_one-round_from :
    (q : Queue) (now : ℕ) → process_one q now ≡ round_from q now (claim_pending q.store now 1)
unfolding process_one round_from
process_one-round_from q now = refl

round_from-IsValid :
    (q : Queue) (now : ℕ) (claim : StoreResult (MemoryStore × List Task))
    → IsValid q
    → IsKeptClaim claim
    → IsValid (round_from q now claim).0
unfolding round_from IsKeptClaim
round_from-IsValid q now (err e) valid kept = valid
round_from-IsValid q now (ok (after, [])) valid kept = record {
  keyed = kept;
  counted = valid.counted;
}
round_from-IsValid q now (ok (after, t ∷ ts)) valid kept =
    execute-IsValid (record q { store = after }) now t
      (record { keyed = kept; counted = valid.counted })

persisted-IsValid :
    (q : Queue) (result : StoreResult MemoryStore)
    → IsValid q
    → IsKept (λ after. IsKeyed after.tasks) result
    → IsValid (persisted q result).0
unfolding IsKept
persisted-IsValid q (ok after) valid kept = record { keyed = kept; counted = valid.counted }
persisted-IsValid q (err e) valid kept = valid

submit-IsValid : (q : Queue) (now : ℕ) (t : Task) → IsValid q → IsValid (submit q now t).0
unfolding submit
submit-IsValid q now t valid = elim (Option-cases (validate t).1) [
  | inl e ↦
      rw (submit, e)
        (persisted-IsValid q (put q.store now (validate t).0) valid
          (put-IsKeyed q.store now (validate t).0 valid.keyed))
  | inr (missing, e) ↦ rw (submit, e) valid
]

start-IsValid : (q : Queue) (now : ℕ) → IsValid q → IsValid (start q now)
unfolding start
start-IsValid q now valid = elim (Bool-cases q.started) [
  | inl e ↦ rw e (record { keyed = valid.keyed; counted = valid.counted })
  | inr e ↦ rw e (record {
    keyed =
        kept_or-IsKeyed q.store (recover_processing q.store now) valid.keyed
          (recover_processing-IsKeyed q.store now valid.keyed);
    counted = valid.counted;
  })
]

apply_op-IsValid : (q : Queue) (o : QueueOp) → IsValid q → IsValid (apply_op q o)
unfolding apply_op register
apply_op-IsValid q (registering kind handler) valid = record {
  keyed = valid.keyed;
  counted = valid.counted;
}
apply_op-IsValid q (submitting now t) valid = submit-IsValid q now t valid
apply_op-IsValid q (starting now) valid = start-IsValid q now valid
apply_op-IsValid q (round now) valid =
    subst (λ r. IsValid r.0) (sym (process_one-round_from q now))
      (round_from-IsValid q now (claim_pending q.store now 1) valid
        (claim_pending-IsKeyed q.store now 1 valid.keyed))

run-IsValid : (q : Queue) (ops : List QueueOp) → IsValid q → IsValid (run q ops)
unfolding run
run-IsValid q [] valid = valid
run-IsValid q (o ∷ ops) valid = run-IsValid (apply_op q o) ops (apply_op-IsValid q o valid)

-- After any registrations, submissions, starts and rounds on a new queue with a new store, each task
-- of the map stands under its own id, no id stands twice, and there are no more failures than retries
-- and dead letters.
pub run-new_queue-IsValid : (ops : List QueueOp) → IsValid (run (new_queue new_memory_store) ops)
unfolding new_queue new_memory_store
run-new_queue-IsValid ops =
    run-IsValid (new_queue new_memory_store) ops (record { keyed = tt; counted = omega arith })
