-- ===== src/TaskQueue/Order.antt =====
-- `sortTasks` of internal/taskqueue/store.go: by priority, highest first, then by creation time.
pub mod Sorted
use cipher_lake.Prelude.{
  ℕ, zero, suc, Bool, ◌&&◌, ◌||◌, List, [], ◌∷◌, lt_int, eq_int, ltb, length, if◌then◌else◌,
}
use cipher_lake.TaskQueue.Task.{Task}

-- The test for a swap: does `b` go before `a`?
abbrev pub goes_before : Task → Task → Bool
goes_before b a =
    lt_int a.priority b.priority || eq_int a.priority b.priority && ltb b.created_at a.created_at

-- The inner loop, from `result[i]` and what stands behind it: what `result[i]` and the rest are at
-- its end. A swap puts the old `result[i]` in the place of `result[j]`.
unfoldable pub select : Task → List Task → Task × List Task
select x [] = (x, [])
select x (y ∷ ys) =
    let (m, rest) = select (if goes_before y x then y else x) ys in
    (m, (if goes_before y x then x else y) ∷ rest)

-- The outer loop, with the number of its rounds.
unfoldable pub sort_rounds : ℕ → List Task → List Task
sort_rounds zero ts = ts
sort_rounds (suc n) [] = []
sort_rounds (suc n) (x ∷ xs) = let (m, rest) = select x xs in m ∷ sort_rounds n rest

unfoldable pub sort_tasks : List Task → List Task
unfolding select sort_rounds
sort_tasks ts = sort_rounds (length ts) ts
