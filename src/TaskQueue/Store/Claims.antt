-- ===== src/TaskQueue/Store/Claims.antt =====
-- What `ClaimPending` of internal/taskqueue/store.go gives to a worker that asks for one task.
use cipher_lake.Prelude.{
  ℕ, true, false, none, some, List, [], ◌∷◌, String, lookup, insert, text_key, ◌≡◌, refl, arith,
  subst, sym, Bool-cases, inl, inr, ◌⊎◌,
}
use text.Mathlib.TextEquality.{eq_iff}
use text.Mathlib.Text.{◌==◌}
use cipher_lake.TaskQueue.Task.{Status, pending, Task}
use cipher_lake.TaskQueue.Order.{sort_tasks, goes_before}
use cipher_lake.TaskQueue.Order.Sorted.{All, sort_tasks-All, sort_tasks-All_back, sort_tasks_first}
use cipher_lake.TaskQueue.Store.{
  ok, MemoryStore, status_beq, with_status, limited, claimed, claim_all, claim_pending,
}

-- Each entry stands under its task's id, and no id has two entries.
abbrev pub IsKeyed : List (String × Task) → Type 0
IsKeyed [] = Unit {0}
IsKeyed ((id, t) ∷ entries) = (t.id ≡ id) × (lookup id entries ≡ none) × IsKeyed entries

-- `t` is the stored task of its id, and has the status `s`.
abbrev pub IsStored : List (String × Task) → Status → Task → Type 0
IsStored entries s t = (lookup t.id entries ≡ some t) × (status_beq t.status s ≡ true)

All-map : {P R : Task → Type 0} (ts : List Task) → ((t : Task) → P t → R t) → All P ts → All R ts
All-map [] f h = tt
All-map (t ∷ ts) f h = (f t h.0, All-map ts f h.1)

pub same_refl : (id : String) → (id == id) ≡ true
same_refl id = (eq_iff id id).1 refl

IsStored-cons :
    (id : String) (u : Task) (entries : List (String × Task)) (s : Status) (t : Task)
    → lookup id entries ≡ none
    → IsStored entries s t
    → IsStored ((id, u) ∷ entries) s t
unfolding lookup
IsStored-cons id u entries s t fresh h =
    let (stored, has) = h in let ids = eq_iff t.id id in (ground arith, has)

with_status-IsStored :
    (s : Status) (entries : List (String × Task))
    → IsKeyed entries
    → All (IsStored entries s) (with_status s entries)
unfolding with_status lookup
with_status-IsStored s [] keyed = tt
with_status-IsStored s ((id, u) ∷ entries) keyed =
    let rest =
      All-map (with_status s entries) (λ t h. IsStored-cons id u entries s t keyed.1 h)
        (with_status-IsStored s entries keyed.2) in
    elim (Bool-cases (status_beq u.status s)) [
      | inl e ↦ rw e ((rw keyed.0 (rw (same_refl id) refl), e), rest)
      | inr e ↦ rw e rest
    ]

pub with_status-hit :
    (s : Status) (j : String) (t : Task) (entries : List (String × Task))
    → status_beq t.status s ≡ true
    → with_status s ((j, t) ∷ entries) ≡ t ∷ with_status s entries
unfolding with_status
with_status-hit s j t entries e = rw e refl

with_status-miss :
    (s : Status) (j : String) (t : Task) (entries : List (String × Task))
    → status_beq t.status s ≡ false
    → with_status s ((j, t) ∷ entries) ≡ with_status s entries
unfolding with_status
with_status-miss s j t entries e = rw e refl

with_status-All_tail :
    (P : Task → Type 0) (s : Status) (j : String) (t : Task) (entries : List (String × Task))
    → All P (with_status s ((j, t) ∷ entries))
    → All P (with_status s entries)
with_status-All_tail P s j t entries all = elim (Bool-cases (status_beq t.status s)) [
  | inl e ↦ (subst (All P) (with_status-hit s j t entries e) all).1
  | inr e ↦ subst (All P) (with_status-miss s j t entries e) all
]

-- A predicate of all the gathered tasks holds of every stored task of the status.
with_status-All :
    (P : Task → Type 0) (s : Status) (entries : List (String × Task)) (id : String) (u : Task)
    → All P (with_status s entries)
    → lookup id entries ≡ some u
    → status_beq u.status s ≡ true
    → P u
unfolding lookup
with_status-All P s [] id u all e has = absurd (cc)
with_status-All P s ((j, t) ∷ entries) id u all e has = elim (Bool-cases (id == j)) [
  | inl here ↦
      let found : t ≡ u = ground (arith, e, here) in
      let first = subst (λ v. status_beq v.status s ≡ true) (sym found) has in
      subst P found (subst (All P) (with_status-hit s j t entries first) all).0
  | inr there ↦
      let later : lookup id entries ≡ some u = ground (arith, e, there) in
      with_status-All P s entries id u (with_status-All_tail P s j t entries all) later has
]

-- No stored task of the status goes before `m`.
unfoldable pub IsNext : List (String × Task) → Task → Type 0
IsNext entries m =
    (id : String) (u : Task)
    → lookup id entries ≡ some u
    → status_beq u.status pending ≡ true
    → goes_before u m ≡ false

-- What a worker that asks for one task gets from an open store.
unfoldable pub IsClaim : MemoryStore → ℕ → Task → Type 0
IsClaim s now t =
    IsStored s.tasks pending t
    × IsNext s.tasks t
    × (claim_pending s now 1
        ≡ ok (record s { tasks = insert t.id (claimed now t) s.tasks }, (claimed now t) ∷ []))

abbrev pub HasNone : List (String × Task) → Type 0
HasNone entries =
    (id : String) (u : Task) → lookup id entries ≡ some u → status_beq u.status pending ≡ false

limited-one : (m : Task) (rest : List Task) → limited 1 (m ∷ rest) ≡ m ∷ []
unfolding limited
limited-one m [] = refl
limited-one m (t ∷ ts) = ground arith

claims_none :
    (s : MemoryStore) (now : ℕ)
    → s.closed ≡ false
    → sort_tasks (with_status pending s.tasks) ≡ []
    → HasNone s.tasks × (claim_pending s now 1 ≡ ok (s, []))
unfolding claim_pending claim_all limited
claims_none s now is_open e =
    let IsOther = λ (u : Task). status_beq u.status pending ≡ false in
    let others =
      sort_tasks-All_back IsOther (with_status pending s.tasks) (subst (All IsOther) (sym e) tt) in
    (
      λ id u stored. elim (Bool-cases (status_beq u.status pending)) [
        | inl has ↦ with_status-All IsOther pending s.tasks id u others stored has
        | inr other ↦ other
      ],
      rw is_open (rw e refl),
    )

pub claim_all-one :
    (now : ℕ) (entries : List (String × Task)) (t : Task)
    → lookup t.id entries ≡ some t
    → claim_all now entries (t ∷ []) ≡ (insert t.id (claimed now t) entries, claimed now t ∷ [])
unfolding claim_all
claim_all-one now entries t e = rw (claim_all, e) refl

claims_first :
    (s : MemoryStore) (now : ℕ) (t : Task) (rest : List Task)
    → s.closed ≡ false
    → IsKeyed s.tasks
    → sort_tasks (with_status pending s.tasks) ≡ t ∷ rest
    → IsClaim s now t
unfolding claim_pending IsNext IsClaim
claims_first s now t rest is_open keyed e =
    let stored =
      (subst (All (IsStored s.tasks pending)) e (
        sort_tasks-All (IsStored s.tasks pending) (with_status pending s.tasks)
          (with_status-IsStored pending s.tasks keyed))).0 in
    let firsts = sort_tasks_first (with_status pending s.tasks) t rest e in
    (
      stored,
      λ id u. with_status-All (λ v. goes_before v t ≡ false) pending s.tasks id u firsts,
      rw is_open (rw e (rw (limited-one t rest) (rw (claim_all-one now s.tasks t stored.0) refl))),
    )

List-cases : (ts : List Task) → (ts ≡ []) ⊎ ((t : Task) × ((rest : List Task) × (ts ≡ t ∷ rest)))
List-cases [] = inl refl
List-cases (t ∷ ts) = inr (t, (ts, refl))

-- `ClaimPending` with limit 1 on an open store: where a task is pending, it gives the stored
-- pending task that no other pending one goes before, marked as processing with one attempt more,
-- and writes that entry alone; where none is, the store stays as it is and no task is given.
pub claim_pending_next :
    (s : MemoryStore) (now : ℕ)
    → s.closed ≡ false
    → IsKeyed s.tasks
    → (HasNone s.tasks × (claim_pending s now 1 ≡ ok (s, []))) ⊎ ((t : Task) × IsClaim s now t)
claim_pending_next s now is_open keyed =
    elim (List-cases (sort_tasks (with_status pending s.tasks))) [
      | inl e ↦ inl (claims_none s now is_open e)
      | inr (t, (rest, e)) ↦ inr (t, claims_first s now t rest is_open keyed e)
    ]
