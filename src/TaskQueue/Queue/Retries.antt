-- ===== src/TaskQueue/Queue/Retries.antt =====
-- A task whose handler always fails, from its submission to the dead letters (`processOne` of
-- internal/taskqueue/queue.go).
use cipher_lake.Prelude.{
  ℕ, suc, ◌+◌, ◌≤◌, ◌<◌, true, false, none, some, List, [], ◌∷◌, String, leb, lookup, insert,
  remove, text_key, ◌≡◌, refl, arith, subst, sym, length, ap, ◌∙◌,
}
use cipher_lake.TaskQueue.Task.{pending, dead_letter, handler_failed, Task, is_expired}
use cipher_lake.TaskQueue.Order.{sort_tasks, sort_rounds, select}
use cipher_lake.TaskQueue.Store.{
  MemoryStore, ok, claimed, claim_pending, limited, with_status, status_beq, update,
}
use cipher_lake.TaskQueue.Store.Claims.{same_refl, with_status-hit, claim_all-one}
use cipher_lake.TaskQueue.Queue.Rounds.{process_one-some}
use cipher_lake.TaskQueue.Queue.{
  HandlerResult, returned, Queue, kept_or, bury, fail, settle, execute, process_one,
}

-- A worker's rounds, at the given readings of the clock.
pub rounds : Queue → List ℕ → Queue
rounds q [] = q
rounds q (now ∷ nows) = rounds (process_one q now).0 nows

-- The open store that holds `t` alone.
abbrev pub alone : Task → MemoryStore
alone t = record { tasks = (t.id, t) ∷ []; closed = false }

insert-own : (id : String) (t u : Task) → insert id u ((id, t) ∷ []) ≡ (id, u) ∷ []
unfolding insert remove
insert-own id t u = rw (same_refl id) refl

lookup-own : (id : String) (t : Task) → lookup id ((id, t) ∷ []) ≡ some t
unfolding lookup
lookup-own id t = rw (same_refl id) refl

limited-single : (t : Task) → limited 1 (sort_tasks (t ∷ with_status pending [])) ≡ t ∷ []
unfolding limited sort_tasks sort_rounds select with_status
limited-single t = refl

claim-alone :
    (t : Task) (now : ℕ)
    → status_beq t.status pending ≡ true
    → claim_pending (alone t) now 1 ≡ ok (alone (claimed now t), claimed now t ∷ [])
unfolding claim_pending
claim-alone t now e =
    let entries : List (String × Task) = (t.id, t) ∷ [] in
    rw (with_status-hit pending t.id t [] e) (
      rw (limited-single t) (
        rw (claim_all-one now entries t (lookup-own t.id t))
          (rw (insert-own t.id t (claimed now t)) refl)))

update-alone :
    (t u : Task) (now : ℕ)
    → u.id ≡ t.id
    → kept_or (alone t) (update (alone t) now u) ≡ alone (record u { updated_at = now })
unfolding update
update-alone t u now e =
    subst
      (λ id.
        kept_or (record { tasks = (id, t) ∷ []; closed = false })
          (update (record { tasks = (id, t) ∷ []; closed = false }) now u)
        ≡ alone (record u { updated_at = now }))
      e (rw (lookup-own u.id t) (rw (insert-own u.id t (record u { updated_at = now })) refl))

execute-returned :
    (q : Queue) (now : ℕ) (t : Task) (handler : Task → HandlerResult) (e : String)
    → is_expired t now ≡ false
    → lookup t.kind q.handlers ≡ some handler
    → handler t ≡ returned e
    → execute q now t ≡ fail q now t (handler_failed e)
unfolding execute settle
execute-returned q now t handler e in_time known failed = rw in_time (rw known (rw failed refl))

-- The entry and the queue after a failure: with attempts left, and with none.
abbrev pub waiting : ℕ → Task → String → Task
waiting now t e = record t {
  status = pending;
  attempts = t.attempts + 1;
  error = handler_failed e;
  updated_at = now;
}

abbrev pub buried : ℕ → Task → String → Task
buried now t e = record (waiting now t e) { status = dead_letter }

abbrev retry : Queue → ℕ → Task → String → Queue
retry q now t e = record q {
  store = alone (waiting now t e);
  metrics = record q.metrics { failures = q.metrics.failures + 1; retried = q.metrics.retried + 1 };
}

abbrev give_up : Queue → ℕ → Task → String → Queue
give_up q now t e = record q {
  store = alone (buried now t e);
  metrics = record q.metrics {
    failures = q.metrics.failures + 1;
    dead_lettered = q.metrics.dead_lettered + 1;
  };
}

fail-left :
    (q : Queue) (now : ℕ) (t : Task) (e : String)
    → leb t.max_attempts (t.attempts + 1) ≡ false
    → fail (record q { store = alone (claimed now t) }) now (claimed now t) (handler_failed e)
      ≡ retry q now t e
unfolding fail
fail-left q now t e left = rw left (
    rw
      (update-alone (claimed now t)
        (record (claimed now t) { status = pending; error = handler_failed e }) now refl)
      refl)

fail-used_up :
    (q : Queue) (now : ℕ) (t : Task) (e : String)
    → leb t.max_attempts (t.attempts + 1) ≡ true
    → fail (record q { store = alone (claimed now t) }) now (claimed now t) (handler_failed e)
      ≡ give_up q now t e
unfolding fail bury
fail-used_up q now t e used_up = rw used_up (
    rw
      (update-alone (claimed now t)
        (record (claimed now t) { status = dead_letter; error = handler_failed e }) now refl)
      refl)

-- `q` holds `t` alone, which waits, has no deadline, and whose handler returns `e` whatever it gets.
unfoldable pub IsFailing : Queue → Task → String → Type 0
IsFailing q t e =
    (q.store ≡ alone t)
    × (t.status ≡ pending)
    × (t.deadline ≡ none)
    × (lookup t.kind q.handlers ≡ some (λ u. returned e))

process_one-failing :
    (q : Queue) (now : ℕ) (t : Task) (e : String)
    → IsFailing q t e
    → process_one q now ≡ (
      fail (record q { store = alone (claimed now t) }) now (claimed now t) (handler_failed e),
      true,
    )
unfolding IsFailing
process_one-failing q now t e (store, waits, no_deadline, known) =
    let pends : status_beq t.status pending ≡ true = rw waits refl in
    let claim : claim_pending q.store now 1 ≡ ok (alone (claimed now t), claimed now t ∷ []) =
      rw store (claim-alone t now pends) in
    let in_time : is_expired (claimed now t) now ≡ false = rw no_deadline refl in
    process_one-some q now (alone (claimed now t)) (claimed now t) claim
    ∙ ap (λ r. (r, true))
        (execute-returned (record q { store = alone (claimed now t) }) now (claimed now t)
          (λ u. returned e) e in_time known refl)

round-left :
    (q : Queue) (now : ℕ) (t : Task) (e : String)
    → IsFailing q t e
    → t.attempts + 1 < t.max_attempts
    → (process_one q now).0 ≡ retry q now t e
round-left q now t e failing left =
    ap (λ r. r.0) (process_one-failing q now t e failing)
    ∙ fail-left q now t e (ground (arith, left))

round-used_up :
    (q : Queue) (now : ℕ) (t : Task) (e : String)
    → IsFailing q t e
    → t.max_attempts ≤ t.attempts + 1
    → (process_one q now).0 ≡ give_up q now t e
round-used_up q now t e failing used_up =
    ap (λ r. r.0) (process_one-failing q now t e failing)
    ∙ fail-used_up q now t e (ground (arith, used_up))

-- What `n` failures and one more, the last, make of `q` and of its task `t`.
pub IsGivenUp : Queue → Task → ℕ → Queue → Type 0
IsGivenUp q t n after =
    ((u : Task) × ((after.store ≡ alone u)
        × ((u.id ≡ t.id) × ((u.status ≡ dead_letter) × (u.attempts ≡ t.attempts + n + 1)))))
    × (after.metrics.failures ≡ q.metrics.failures + n + 1)
    × (after.metrics.retried ≡ q.metrics.retried + n)
    × (after.metrics.dead_lettered ≡ q.metrics.dead_lettered + 1)
    × (after.metrics.completions ≡ q.metrics.completions)

give_up-IsGivenUp :
    (q : Queue) (now : ℕ) (t : Task) (e : String) → IsGivenUp q t 0 (give_up q now t e)
unfolding IsGivenUp
give_up-IsGivenUp q now t e = (
  (buried now t e, (refl, (refl, (refl, omega arith)))),
  omega arith,
  omega arith,
  omega arith,
  refl,
)

retry-IsFailing :
    (q : Queue) (now : ℕ) (t : Task) (e : String)
    → IsFailing q t e
    → IsFailing (retry q now t e) (waiting now t e) e
unfolding IsFailing
retry-IsFailing q now t e (store, waits, no_deadline, known) = (refl, refl, no_deadline, known)

retry-IsGivenUp :
    (q : Queue) (now : ℕ) (t : Task) (e : String) (n : ℕ) (after : Queue)
    → IsGivenUp (retry q now t e) (waiting now t e) n after
    → IsGivenUp q t (suc n) after
unfolding IsGivenUp
retry-IsGivenUp q now t e n after ((u, (store, (own, (dead, count)))), f, r, d, c) =
    ((u, (store, (own, (dead, omega arith)))), omega arith, omega arith, omega arith, c)

-- A queue that holds one task, which waits, has no deadline and has attempts left, and whose handler
-- always fails: after exactly as many rounds as attempts are left, the store holds that task alone, as a
-- dead letter whose attempts are its maximum; each round counts as a failure, each but the last as a
-- retry, and the last as a dead letter.
pub failing_task_ends :
    (q : Queue) (t : Task) (e : String) (now : ℕ) (nows : List ℕ)
    → IsFailing q t e
    → t.attempts + length nows + 1 ≡ t.max_attempts
    → IsGivenUp q t (length nows) (rounds q (now ∷ nows))
unfolding rounds
failing_task_ends q t e now [] failing left =
    subst (IsGivenUp q t 0) (sym (round-used_up q now t e failing (omega arith)))
      (give_up-IsGivenUp q now t e)
failing_task_ends q t e now (next ∷ nows) failing left =
    let once = round-left q now t e failing (omega arith) in
    let again =
      failing_task_ends (retry q now t e) (waiting now t e) e next nows
        (retry-IsFailing q now t e failing) (omega arith) in
    subst (λ r. IsGivenUp q t (suc (length nows)) (rounds r (next ∷ nows))) (sym once)
      (retry-IsGivenUp q now t e (length nows) (rounds (retry q now t e) (next ∷ nows)) again)
