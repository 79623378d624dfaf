-- ===== src/TaskQueue/Queue/Rounds.antt =====
-- What a worker's round of internal/taskqueue/queue.go does to the tasks.
use cipher_lake.Prelude.{
  ℕ, ◌+◌, true, false, Option, none, some, List, [], ◌∷◌, String, leb, lookup, insert, text_key,
  if◌then◌else◌, ◌≡◌, refl, sym, ap, subst, arith, Bool-cases, Option-cases, inl, inr, ◌⊎◌,
  lookup-remove, lookup-insert,
}
use text.Mathlib.TextEquality.{eq_iff}
use text.Mathlib.Text.{◌==◌}
use cipher_lake.TaskQueue.Task.{
  pending, dead_letter, TaskError, deadline_exceeded, no_handler, handler_failed, handler_panicked,
  Task, is_expired,
}
use cipher_lake.TaskQueue.Store.{
  MemoryStore, StoreResult, ok, claimed, claim_pending, update, delete,
}
use cipher_lake.TaskQueue.Store.Claims.{
  IsKeyed, IsStored, IsNext, IsClaim, HasNone, claim_pending_next,
}
use cipher_lake.TaskQueue.Queue.{
  HandlerResult, succeeded, returned, panicked, Queue, kept_or, bury, complete, fail, settle,
  execute, process_one,
}

-- The entry of a claimed task that a failed run leaves.
after_failure : ℕ → Task → TaskError → Task
after_failure now t e = record t {
  status = if leb t.max_attempts t.attempts then dead_letter else pending;
  error = e;
  updated_at = now;
}

fate_of : ℕ → Task → HandlerResult → Option Task
fate_of now t succeeded = none
fate_of now t (returned e) = some (after_failure now t (handler_failed e))
fate_of now t (panicked e) = some (after_failure now t (handler_panicked e))

-- The entry of a claimed task after its round.
pub fate : List (String × (Task → HandlerResult)) → ℕ → Task → Option Task
fate handlers now t =
    if is_expired t now
    then some (record t {
      status = dead_letter;
      error = deadline_exceeded;
      attempts = t.attempts + 1;
      updated_at = now;
    })
    else elim (lookup t.kind handlers) [
      | none ↦ some (record t { status = dead_letter; error = no_handler t.kind; updated_at = now })
      | some handler ↦ fate_of now t (handler t)
    ]

-- `o` is the entry of the id `own` in `after`, and every other entry is as in `s`.
abbrev IsOnly : MemoryStore → String → Option Task → MemoryStore → Type 0
IsOnly s own o after =
    (id : String) → lookup id after.tasks ≡ (if own == id then o else lookup id s.tasks)

update-IsOnly :
    (s : MemoryStore) (now : ℕ) (u t : Task)
    → s.closed ≡ false
    → lookup u.id s.tasks ≡ some t
    → IsOnly s u.id (some (record u { updated_at = now })) (kept_or s (update s now u))
unfolding update
update-IsOnly s now u t is_open e id =
    rw is_open (rw e (lookup-insert u.id id (record u { updated_at = now }) s.tasks))

complete-IsOnly :
    (q : Queue) (now : ℕ) (t : Task)
    → q.store.closed ≡ false
    → IsOnly q.store t.id none (complete q now t).store
unfolding complete delete
complete-IsOnly q now t is_open id =
    rw (complete, delete, is_open) (lookup-remove t.id id q.store.tasks)

fail-IsOnly :
    (q : Queue) (now : ℕ) (t stored : Task) (e : TaskError)
    → q.store.closed ≡ false
    → lookup t.id q.store.tasks ≡ some stored
    → IsOnly q.store t.id (some (after_failure now t e)) (fail q now t e).store
unfolding fail bury after_failure
fail-IsOnly q now t stored e is_open found = elim (Bool-cases (leb t.max_attempts t.attempts)) [
  | inl used_up ↦ rw used_up (
      update-IsOnly q.store now (record t { status = dead_letter; error = e }) stored is_open found)
  | inr left ↦
      rw left
        (update-IsOnly q.store now (record t { status = pending; error = e }) stored is_open found)
]

run_handler-IsOnly :
    (q : Queue) (now : ℕ) (t stored : Task) (result : HandlerResult)
    → q.store.closed ≡ false
    → lookup t.id q.store.tasks ≡ some stored
    → IsOnly q.store t.id (fate_of now t result) (settle q now t result).store
unfolding fate_of settle
run_handler-IsOnly q now t stored succeeded is_open found = complete-IsOnly q now t is_open
run_handler-IsOnly q now t stored (returned e) is_open found =
    fail-IsOnly q now t stored (handler_failed e) is_open found
run_handler-IsOnly q now t stored (panicked e) is_open found =
    fail-IsOnly q now t stored (handler_panicked e) is_open found

execute-IsOnly :
    (q : Queue) (now : ℕ) (t stored : Task)
    → q.store.closed ≡ false
    → lookup t.id q.store.tasks ≡ some stored
    → IsOnly q.store t.id (fate q.handlers now t) (execute q now t).store
unfolding execute bury fate
execute-IsOnly q now t stored is_open found = elim (Bool-cases (is_expired t now)) [
  | inl late ↦ rw late (
      update-IsOnly q.store now
        (record t { status = dead_letter; error = deadline_exceeded; attempts = t.attempts + 1 })
        stored is_open found)
  | inr in_time ↦ elim (Option-cases (lookup t.kind q.handlers)) [
    | inl missing ↦ rw in_time (
        rw missing (
          update-IsOnly q.store now (record t { status = dead_letter; error = no_handler t.kind })
            stored is_open found))
    | inr (handler, known) ↦
        rw in_time (rw known (run_handler-IsOnly q now t stored (handler t) is_open found))
  ]
]

process_one-none :
    (q : Queue) (now : ℕ)
    → claim_pending q.store now 1 ≡ ok (q.store, [])
    → process_one q now ≡ (q, false)
unfolding process_one
process_one-none q now e = rw (process_one, e) refl

pub process_one-some :
    (q : Queue) (now : ℕ) (after : MemoryStore) (t : Task)
    → claim_pending q.store now 1 ≡ ok (after, t ∷ [])
    → process_one q now ≡ (execute (record q { store = after }) now t, true)
unfolding process_one
process_one-some q now after t e = rw (process_one, e) refl

-- The round of a task that the store gives.
round-IsOnly :
    (q : Queue) (now : ℕ) (t : Task)
    → q.store.closed ≡ false
    → IsOnly q.store t.id
        (fate q.handlers now (claimed now t))
        (execute
          (record q {
            store = record q.store { tasks = insert t.id (claimed now t) q.store.tasks };
          })
          now
          (claimed now t)).store
round-IsOnly q now t is_open id =
    let after = record q.store { tasks = insert t.id (claimed now t) q.store.tasks } in
    let written = lookup-insert t.id t.id (claimed now t) q.store.tasks in
    let other = lookup-insert t.id id (claimed now t) q.store.tasks in
    let found : lookup t.id after.tasks ≡ some (claimed now t) =
      ground (arith, written, eq_iff t.id t.id) in
    let all =
      execute-IsOnly (record q { store = after }) now (claimed now t) (claimed now t) is_open found
        id in
    ground (arith, all, other)

-- A worker's round on an open store: where no task is pending, it changes nothing and returns
-- false. Otherwise it takes the stored pending task that no other pending one goes before, returns
-- true, leaves the entry that `fate` tells for the task with one attempt more, or none, and leaves
-- every other entry as it is.
pub process_one_lem :
    (q : Queue) (now : ℕ)
    → q.store.closed ≡ false
    → IsKeyed q.store.tasks
    → (HasNone q.store.tasks × (process_one q now ≡ (q, false)))
      ⊎ ((t : Task) × (IsStored q.store.tasks pending t
            × (IsNext q.store.tasks t
                × (((process_one q now).1 ≡ true)
                    × IsOnly q.store t.id
                        (fate q.handlers now (claimed now t))
                        (process_one q now).0.store))))
unfolding cipher_lake.TaskQueue.Store.Claims.IsClaim
process_one_lem q now is_open keyed = elim (claim_pending_next q.store now is_open keyed) [
  | inl (no_task, e) ↦ inl (no_task, process_one-none q now e)
  | inr (t, (stored, is_next, e)) ↦
      let after = record q.store { tasks = insert t.id (claimed now t) q.store.tasks } in
      let round = process_one-some q now after (claimed now t) e in
      inr (
        t,
        (
          stored,
          (
            is_next,
            (
              ap (λ r. r.1) round,
              subst (λ r. IsOnly q.store t.id (fate q.handlers now (claimed now t)) r.0.store)
                  (sym round) (round-IsOnly q now t is_open),
            ),
          ),
        ),
      )
]
