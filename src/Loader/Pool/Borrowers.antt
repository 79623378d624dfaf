-- ===== src/Loader/Pool/Borrowers.antt =====
-- The pool of internal/pluginloader/instance_pool.go among its borrowers, as moves in any order.
use cipher_lake.Prelude.{
  ℕ, suc, ◌+◌, ◌-◌, ◌≤◌, Bool, true, false, List, [], ◌∷◌, ltb, nat_beq, length, if◌then◌else◌, ◌≡◌,
}
use cipher_lake.Loader.Pool.{
  InstancePool, new_instance_pool, Taken, reused, to_create, pool_closed, pool_exhausted,
  take_instance, one_less, return_instance, destroy_all,
}

-- The pool with the instances that are borrowed, the number of those that are being created, and the next new one.
pub record Borrowers : Type 0 where
  pub pool : InstancePool
  pub held : List ℕ
  pub creating : ℕ
  pub next : ℕ

pub data PoolMove : Type 0 where
  borrow_move : PoolMove
  created_move : Bool → PoolMove
  return_move : ℕ → Bool → PoolMove
  discard_move : ℕ → PoolMove
  destroy_move : PoolMove

abbrev pub count_id : ℕ → List ℕ → ℕ
count_id i [] = 0
count_id i (j ∷ js) = let rest = count_id i js in if nat_beq j i then suc rest else rest

abbrev pub drop_id : ℕ → List ℕ → List ℕ
drop_id i [] = []
drop_id i (j ∷ js) = let rest = drop_id i js in if nat_beq j i then js else j ∷ rest

-- A borrower gets the instance, or waits for the one that it creates.
abbrev pub taken : Borrowers → InstancePool → Taken → Borrowers
taken b p (reused inst) = record b { pool = p; held = inst ∷ b.held }
taken b p to_create = record b { pool = p; creating = suc b.creating }
taken b p pool_closed = record b { pool = p }
taken b p pool_exhausted = record b { pool = p }

unfoldable pub apply_move : PoolMove → Borrowers → Borrowers
apply_move borrow_move b = taken b (take_instance b.pool).0 (take_instance b.pool).1
apply_move (created_move true) b = record b {
  held = b.next ∷ b.held;
  creating = b.creating - 1;
  next = suc b.next;
}
apply_move (created_move false) b = record b { pool = one_less b.pool; creating = b.creating - 1 }
apply_move (return_move inst healthy) b = record b {
  pool = return_instance inst healthy b.pool;
  held = drop_id inst b.held;
}
apply_move (discard_move inst) b = record b { pool = one_less b.pool; held = drop_id inst b.held }
apply_move destroy_move b = record b { pool = (destroy_all b.pool).0 }

-- A creation ends only where one is under way, and a borrower gives back only what it holds.
abbrev pub IsPossible : PoolMove → Borrowers → Type 0
IsPossible borrow_move b = Unit
IsPossible (created_move ok) b = 1 ≤ b.creating
IsPossible (return_move inst healthy) b = 1 ≤ count_id inst b.held
IsPossible (discard_move inst) b = 1 ≤ count_id inst b.held
IsPossible destroy_move b = Unit

abbrev pub IsPossibleRun : List PoolMove → Borrowers → Type 0
IsPossibleRun [] b = Unit
IsPossibleRun (move ∷ moves) b = IsPossible move b × IsPossibleRun moves (apply_move move b)

unfoldable pub run_moves_of : List PoolMove → Borrowers → Borrowers
run_moves_of [] b = b
run_moves_of (move ∷ moves) b = run_moves_of moves (apply_move move b)

abbrev pub new_borrowers : ℕ → Borrowers
new_borrowers max_size = record {
  pool = new_instance_pool max_size;
  held = [];
  creating = 0;
  next = 0;
}

-- The count of the pool is that of the instances out and under way; with the free ones they are within the maximum; a
-- closed pool has none free; and no instance is free or borrowed twice, or both.
pub record IsSoundPool (max_size : ℕ) (b : Borrowers) : Type 0 where
  pub bound : b.pool.max_size ≡ max_size
  pub counted : b.pool.in_use ≡ length b.held + b.creating
  pub within : length b.pool.free + b.pool.in_use ≤ max_size
  pub emptied : b.pool.closed ≡ true → b.pool.free ≡ []
  pub single :
      (i : ℕ) → count_id i b.pool.free + count_id i b.held ≤ (if ltb i b.next then 1 else 0)
