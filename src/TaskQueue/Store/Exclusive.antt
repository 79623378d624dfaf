-- ===== src/TaskQueue/Store/Exclusive.antt =====
-- Two workers that claim one after the other (`ClaimPending` of internal/taskqueue/store.go).
use cipher_lake.Prelude.{
  ℕ, Bool, true, false, some, List, [], ◌∷◌, String, lookup, insert, text_key, ◌≡◌, ◌≢◌, refl,
  arith, ap, subst, sym, ◌∙◌, inl, inr, lookup-insert,
}
use text.Mathlib.Text.{◌==◌}
use text.Mathlib.TextEquality.{eq_iff}
use cipher_lake.TaskQueue.Task.{pending, Task}
use cipher_lake.TaskQueue.Store.{
  MemoryStore, StoreResult, ok, err, status_beq, claimed, claim_pending,
}
use cipher_lake.TaskQueue.Store.Claims.{IsKeyed, IsStored, IsClaim, claim_pending_next}
use cipher_lake.TaskQueue.Store.Keys.{insert-IsKeyed}

answer_or :
    MemoryStore × List Task → StoreResult (MemoryStore × List Task) → MemoryStore × List Task
answer_or d (ok r) = r
answer_or d (err e) = d

ok-inj :
    (r q : MemoryStore × List Task)
    → ◌≡◌ {A = StoreResult (MemoryStore × List Task)} (ok r) (ok q)
    → r ≡ q
unfolding answer_or
ok-inj r q e = ap (answer_or r) e

first_or : Task → List Task → Task
first_or d [] = d
first_or d (t ∷ ts) = t

is_empty : List Task → Bool
is_empty [] = true
is_empty (t ∷ ts) = false

empty_not_one : (t : Task) → [] ≢ t ∷ []
unfolding is_empty
empty_not_one t e = let clash = ap is_empty e in absurd (cc)

-- A claim of one task, seen from its answer.
claim-IsClaim :
    (s after : MemoryStore) (now : ℕ) (t : Task)
    → s.closed ≡ false
    → IsKeyed s.tasks
    → claim_pending s now 1 ≡ ok (after, t ∷ [])
    → (old : Task) × ((IsStored s.tasks pending old)
        × ((t ≡ claimed now old)
            × (after ≡ record s { tasks = insert old.id (claimed now old) s.tasks })))
unfolding IsClaim first_or
claim-IsClaim s after now t is_open keyed e = elim (claim_pending_next s now is_open keyed) [
  | inl (no_task, none_given) ↦
      absurd (empty_not_one t (ap (λ r. r.1) (ok-inj (s, []) (after, t ∷ []) (sym none_given ∙ e))))
  | inr (old, (stored, is_next, given)) ↦
      let same =
        ok-inj (after, t ∷ [])
          (record s { tasks = insert old.id (claimed now old) s.tasks }, claimed now old ∷ [])
          (sym e ∙ given) in
      (old, (stored, (ap (λ r. first_or t r.1) same, ap (λ r. r.0) same)))
]

-- The claimed task is not pending in the store after the claim.
claimed_not_pending :
    (entries : List (String × Task)) (now : ℕ) (old found : Task)
    → lookup found.id (insert old.id (claimed now old) entries) ≡ some found
    → status_beq found.status pending ≡ true
    → old.id ≢ found.id
claimed_not_pending entries now old found e waits same =
    let law = lookup-insert old.id found.id (claimed now old) entries in
    let one : (old.id == found.id) ≡ true = (eq_iff old.id found.id).1 same in
    let written : found ≡ claimed now old = ground (arith, e, law, one) in
    let clash : status_beq (claimed now old).status pending ≡ true =
      subst (λ t. status_beq t.status pending ≡ true) written waits in
    absurd (cc)

-- Two claims of one task each, one after the other on an open store whose tasks stand under their ids,
-- never give tasks of the same id.
pub claims_differ :
    (s after last : MemoryStore) (now later : ℕ) (t u : Task)
    → s.closed ≡ false
    → IsKeyed s.tasks
    → claim_pending s now 1 ≡ ok (after, t ∷ [])
    → claim_pending after later 1 ≡ ok (last, u ∷ [])
    → t.id ≢ u.id
claims_differ s after last now later t u is_open keyed first second same =
    let (old, (stored, (gives, writes))) = claim-IsClaim s after now t is_open keyed first in
    let next = record s { tasks = insert old.id (claimed now old) s.tasks } in
    let again = ap (λ x. claim_pending x later 1) (sym writes) ∙ second in
    let next_keyed = insert-IsKeyed old.id (claimed now old) s.tasks refl keyed in
    let (found, (waiting, (takes, rest))) =
      claim-IsClaim next last later u is_open next_keyed again in
    claimed_not_pending s.tasks now old found waiting.0 waiting.1
      (ap (λ x. x.id) (sym gives) ∙ same ∙ ap (λ x. x.id) takes)
