-- ===== src/Loader/PoolExamples.antt =====
-- A pool of two instances (internal/pluginloader/instance_pool.go): one is returned while another is created, and comes
-- back to the next borrower; the pool is destroyed with both out.
use cipher_lake.Prelude.{none, true, false, List, [], ◌∷◌, ◌≡◌, refl, arith}
use cipher_lake.Loader.Pool.{
  new_instance_pool, tick, wait_free, wait_exhausted, take_instance, return_instance, destroy_all,
}
use cipher_lake.Loader.Pool.Borrowers.{
  PoolMove, borrow_move, created_move, return_move, destroy_move, apply_move, new_borrowers,
  run_moves_of, IsSoundPool,
}
use cipher_lake.Loader.Pool.Sound.{run_moves_of-new_borrowers-IsSoundPool}

abbrev moves : List PoolMove
moves =
    borrow_move
    ∷ borrow_move
    ∷ created_move true
    ∷ return_move 0 true
    ∷ created_move false
    ∷ borrow_move
    ∷ destroy_move
    ∷ return_move 0 true
    ∷ []

-- All instances are out until the deadline.
full_waits :
    wait_free
      (record (new_instance_pool 2) { in_use = 2 })
      5
      none
      (tick (record (new_instance_pool 2) { in_use = 2 }) false
        ∷ tick (record (new_instance_pool 2) { in_use = 2 }) true
        ∷ [])
    ≡ wait_exhausted
unfolding wait_free new_instance_pool
full_waits = refl

run_moves_of-new_borrowers-IsSoundPool_example :
    IsSoundPool 2 (run_moves_of moves (new_borrowers 2))
unfolding apply_move take_instance return_instance destroy_all new_instance_pool
run_moves_of-new_borrowers-IsSoundPool_example =
    run_moves_of-new_borrowers-IsSoundPool 2 moves (omega arith)
      (tt, (tt, (omega arith, (omega arith, (omega arith, (tt, (tt, (omega arith, tt))))))))
