-- ===== src/TaskQueue/Store/Keys.antt =====
-- The map of `MemoryStore` (internal/taskqueue/store.go): every task stands under its own id.
use cipher_lake.Prelude.{
  ℕ, false, none, some, List, [], ◌∷◌, String, lookup, is_some, insert, remove, text_key, ◌≡◌, refl,
  arith, Bool-cases, inl, inr, lookup-remove, subst, sym, ◌∙◌, Option-cases,
}
use text.Mathlib.TextEquality.{eq_iff}
use text.Mathlib.Text.{◌==◌}
use cipher_lake.TaskQueue.Task.{processing, pending, Task}
use cipher_lake.TaskQueue.Store.{
  StoreResult, ok, err, MemoryStore, status_beq, claimed, claim_all, claim_pending, put, update,
  delete, recover_entries, recover_processing, listed,
}
use cipher_lake.TaskQueue.Store.Claims.{IsKeyed}

remove-IsKeyed :
    (id : String) (entries : List (String × Task)) → IsKeyed entries → IsKeyed (remove id entries)
unfolding remove
remove-IsKeyed id [] keyed = tt
remove-IsKeyed id ((j, t) ∷ entries) (own, fresh, keyed) =
    let rest = remove-IsKeyed id entries keyed in
    let still = lookup-remove id j entries in
    elim (Bool-cases (id == j)) [
      | inl e ↦ rw e rest
      | inr e ↦ rw e (own, ground (arith, still, fresh), rest)
    ]

pub insert-IsKeyed :
    (id : String) (t : Task) (entries : List (String × Task))
    → t.id ≡ id
    → IsKeyed entries
    → IsKeyed (insert id t entries)
unfolding insert
insert-IsKeyed id t entries own keyed = (
  own,
  ground (arith, lookup-remove id id entries, eq_iff id id),
  remove-IsKeyed id entries keyed,
)

pub lookup-id :
    (id : String) (t : Task) (entries : List (String × Task))
    → IsKeyed entries
    → lookup id entries ≡ some t
    → t.id ≡ id
unfolding lookup
lookup-id id t [] keyed e = absurd (cc)
lookup-id id t ((j, u) ∷ entries) (own, fresh, keyed) e = elim (Bool-cases (id == j)) [
  | inl here ↦
      let found : u ≡ t = ground (arith, e, here) in
      let same = eq_iff id j in subst (λ v. v.id ≡ id) found (own ∙ sym (same.0 here))
  | inr there ↦ lookup-id id t entries keyed (ground (arith, e, there))
]

claim_all-IsKeyed :
    (now : ℕ) (entries : List (String × Task)) (ts : List Task)
    → IsKeyed entries
    → IsKeyed (claim_all now entries ts).0
unfolding claim_all
claim_all-IsKeyed now entries [] keyed = keyed
claim_all-IsKeyed now entries (t ∷ ts) keyed = elim (Option-cases (lookup t.id entries)) [
  | inl e ↦ rw (claim_all, e) keyed
  | inr (u, e) ↦
      let written =
        insert-IsKeyed t.id (claimed now u) entries (lookup-id t.id u entries keyed e) keyed in
      rw (claim_all, e) (claim_all-IsKeyed now (insert t.id (claimed now u) entries) ts written)
]

recover_entries-lookup :
    (now : ℕ) (id : String) (entries : List (String × Task))
    → lookup id entries ≡ none
    → lookup id (recover_entries now entries) ≡ none
unfolding recover_entries lookup
recover_entries-lookup now id [] e = refl
recover_entries-lookup now id ((j, t) ∷ entries) e =
    let rest : lookup id entries ≡ none = ground (arith, e) in
    let other : (id == j) ≡ false = ground (arith, e) in
    let later = recover_entries-lookup now id entries rest in
    elim (Bool-cases (status_beq t.status processing)) [
      | inl has ↦ rw has (rw other later)
      | inr has ↦ rw has (rw other later)
    ]

recover_entries-IsKeyed :
    (now : ℕ) (entries : List (String × Task))
    → IsKeyed entries
    → IsKeyed (recover_entries now entries)
unfolding recover_entries
recover_entries-IsKeyed now [] keyed = tt
recover_entries-IsKeyed now ((j, t) ∷ entries) (own, fresh, keyed) =
    let rest = recover_entries-IsKeyed now entries keyed in
    let still = recover_entries-lookup now j entries fresh in
    elim (Bool-cases (status_beq t.status processing)) [
      | inl e ↦ rw e (own, still, rest)
      | inr e ↦ rw e (own, still, rest)
    ]

-- The store that a call gives, or the old one where it gives an error.
unfoldable pub IsKept : (MemoryStore → Type 0) → StoreResult MemoryStore → Type 0
IsKept P (ok after) = P after
IsKept P (err e) = Unit {0}

abbrev Keyed : MemoryStore → Type 0
Keyed s = IsKeyed s.tasks

pub put-IsKeyed : (s : MemoryStore) (now : ℕ) (t : Task) → Keyed s → IsKept Keyed (put s now t)
unfolding put IsKept
put-IsKeyed s now t keyed = elim (Bool-cases s.closed) [
  | inl e ↦ rw e tt
  | inr e ↦ rw e (insert-IsKeyed t.id (record t { updated_at = now }) s.tasks refl keyed)
]

pub update-IsKeyed :
    (s : MemoryStore) (now : ℕ) (t : Task) → Keyed s → IsKept Keyed (update s now t)
unfolding update IsKept
update-IsKeyed s now t keyed = elim (Bool-cases s.closed) [
  | inl e ↦ rw e tt
  | inr e ↦ elim (Bool-cases (is_some (lookup t.id s.tasks))) [
    | inl has ↦
        rw e (rw has (insert-IsKeyed t.id (record t { updated_at = now }) s.tasks refl keyed))
    | inr has ↦ rw e (rw has tt)
  ]
]

pub delete-IsKeyed : (s : MemoryStore) (id : String) → Keyed s → IsKept Keyed (delete s id)
unfolding delete IsKept
delete-IsKeyed s id keyed = elim (Bool-cases s.closed) [
  | inl e ↦ rw e tt
  | inr e ↦ rw e (remove-IsKeyed id s.tasks keyed)
]

pub recover_processing-IsKeyed :
    (s : MemoryStore) (now : ℕ) → Keyed s → IsKept Keyed (recover_processing s now)
unfolding recover_processing IsKept
recover_processing-IsKeyed s now keyed = elim (Bool-cases s.closed) [
  | inl e ↦ rw e tt
  | inr e ↦ rw e (recover_entries-IsKeyed now s.tasks keyed)
]

unfoldable pub IsKeptClaim : StoreResult (MemoryStore × List Task) → Type 0
IsKeptClaim (ok (after, ts)) = Keyed after
IsKeptClaim (err e) = Unit {0}

pub claim_pending-IsKeyed :
    (s : MemoryStore) (now limit : ℕ) → Keyed s → IsKeptClaim (claim_pending s now limit)
unfolding claim_pending IsKeptClaim
claim_pending-IsKeyed s now limit keyed = elim (Bool-cases s.closed) [
  | inl e ↦ rw e tt
  | inr e ↦ rw e (claim_all-IsKeyed now s.tasks (listed pending limit s.tasks) keyed)
]
