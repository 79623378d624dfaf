-- ===== src/Loader/Pool/Sound.antt =====
-- The counts of the pool of internal/pluginloader/instance_pool.go, in every order of its borrowers' calls.
use cipher_lake.Prelude.{
  ℕ, suc, ◌≤◌, Bool, true, false, not, ◌||◌, List, [], ◌∷◌, leb, nat_beq, nat_beq_iff, length,
  if◌then◌else◌, ◌≡◌, refl, arith, ap, Bool-cases, inl, inr,
}
use cipher_lake.Loader.Pool.{
  new_instance_pool, pool_closed, take_from, take_instance, return_instance, destroy_all,
}
use cipher_lake.Loader.Pool.Borrowers.{
  Borrowers, PoolMove, borrow_move, created_move, return_move, discard_move, destroy_move, count_id,
  drop_id, taken, apply_move, IsPossible, IsPossibleRun, run_moves_of, new_borrowers, IsSoundPool,
}

length-drop_id : (i : ℕ) (js : List ℕ) → 1 ≤ count_id i js → length js ≡ suc (length (drop_id i js))
length-drop_id i [] h = absurd (omega (arith, h))
length-drop_id i (j ∷ js) h = elim (Bool-cases (nat_beq j i)) [
  | inl same ↦ rw same refl
  | inr other ↦
      let inner : 1 ≤ count_id i js = ground (arith, h, other) in
      rw other (ground (arith, length-drop_id i js inner))
]

count_id-drop_id :
    (i z : ℕ) (js : List ℕ) → 1 ≤ count_id i js → count_id z js ≡ count_id z (i ∷ drop_id i js)
count_id-drop_id i z [] h = absurd (omega (arith, h))
count_id-drop_id i z (j ∷ js) h = elim (Bool-cases (nat_beq j i)) [
  | inl same ↦ rw same (ap (λ k. count_id z (k ∷ js)) ((nat_beq_iff j i).0 same))
  | inr other ↦
      let inner : 1 ≤ count_id i js = ground (arith, h, other) in
      rw other (ground (arith, count_id-drop_id i z js inner))
]

taken_open-IsSoundPool :
    (max_size : ℕ) (b : Borrowers) (free : List ℕ)
    → b.pool.closed ≡ false
    → b.pool.free ≡ free
    → IsSoundPool max_size b
    → IsSoundPool max_size (taken b (take_from free b.pool).0 (take_from free b.pool).1)
taken_open-IsSoundPool max_size b (inst ∷ free) open_ e s =
    let held_before : length b.pool.free ≡ suc (length free) = ap length e in
    record {
      bound = s.bound;
      counted = omega (arith, s.counted);
      within = omega (arith, s.within, held_before);
      emptied = λ c. absurd (ground (arith, c, open_));
      single = λ i.
          let before : count_id i b.pool.free ≡ count_id i (inst ∷ free) = ap (count_id i) e in
          ground (arith, s.single i, before);
    }
taken_open-IsSoundPool max_size b [] open_ e s =
    elim (Bool-cases (leb b.pool.max_size b.pool.in_use)) [
      | inl full ↦ rw full s
      | inr room ↦ rw room record {
        bound = s.bound;
        counted = omega (arith, s.counted);
        within = ground (arith, room, s.bound, ap length e);
        emptied = s.emptied;
        single = s.single;
      }
    ]

taken-IsSoundPool :
    (max_size : ℕ) (b : Borrowers)
    → IsSoundPool max_size b
    → IsSoundPool max_size (apply_move borrow_move b)
unfolding apply_move take_instance
taken-IsSoundPool max_size b s = go b.pool.closed refl
  where
    go :
        (shut : Bool)
        → b.pool.closed ≡ shut
        → IsSoundPool max_size (
            taken b
              (if shut then (b.pool, pool_closed) else take_from b.pool.free b.pool).0
              (if shut then (b.pool, pool_closed) else take_from b.pool.free b.pool).1)
    go true e = s
    go false e = taken_open-IsSoundPool max_size b b.pool.free e refl s

created-IsSoundPool :
    (max_size : ℕ) (b : Borrowers) (ok : Bool)
    → 1 ≤ b.creating
    → IsSoundPool max_size b
    → IsSoundPool max_size (apply_move (created_move ok) b)
unfolding apply_move
created-IsSoundPool max_size b true h s = record {
  bound = s.bound;
  counted = omega (arith, s.counted, h);
  within = s.within;
  emptied = s.emptied;
  single = λ i. ground (arith, s.single i);
}
created-IsSoundPool max_size b false h s = record {
  bound = s.bound;
  counted = omega (arith, s.counted, h);
  within = omega (arith, s.within);
  emptied = s.emptied;
  single = s.single;
}

discard-IsSoundPool :
    (max_size : ℕ) (b : Borrowers) (inst : ℕ)
    → 1 ≤ count_id inst b.held
    → IsSoundPool max_size b
    → IsSoundPool max_size (apply_move (discard_move inst) b)
unfolding apply_move
discard-IsSoundPool max_size b inst h s = record {
  bound = s.bound;
  counted = omega (arith, s.counted, length-drop_id inst b.held h);
  within = omega (arith, s.within);
  emptied = s.emptied;
  single = λ i. ground (arith, s.single i, count_id-drop_id inst i b.held h);
}

return-IsSoundPool :
    (max_size : ℕ) (b : Borrowers) (inst : ℕ) (healthy : Bool)
    → 1 ≤ count_id inst b.held
    → IsSoundPool max_size b
    → IsSoundPool max_size (apply_move (return_move inst healthy) b)
unfolding apply_move return_instance
return-IsSoundPool max_size b inst healthy h s = elim (Bool-cases (b.pool.closed || not healthy)) [
  | inl destroyed ↦ rw destroyed (discard-IsSoundPool max_size b inst h s)
  | inr kept ↦ rw kept record {
    bound = s.bound;
    counted = omega (arith, s.counted, length-drop_id inst b.held h);
    within = omega (arith, s.within, s.counted, length-drop_id inst b.held h);
    emptied = λ c. absurd (ground (arith, c, kept));
    single = λ i. ground (arith, s.single i, count_id-drop_id inst i b.held h);
  }
]

destroy-IsSoundPool :
    (max_size : ℕ) (b : Borrowers)
    → IsSoundPool max_size b
    → IsSoundPool max_size (apply_move destroy_move b)
unfolding apply_move destroy_all
destroy-IsSoundPool max_size b s = record {
  bound = s.bound;
  counted = s.counted;
  within = omega (arith, s.within);
  emptied = λ c. refl;
  single = λ i. omega (arith, s.single i);
}

apply_move-IsSoundPool :
    (max_size : ℕ) (move : PoolMove) (b : Borrowers)
    → IsPossible move b
    → IsSoundPool max_size b
    → IsSoundPool max_size (apply_move move b)
apply_move-IsSoundPool max_size borrow_move b h s = taken-IsSoundPool max_size b s
apply_move-IsSoundPool max_size (created_move ok) b h s = created-IsSoundPool max_size b ok h s
apply_move-IsSoundPool max_size (return_move inst healthy) b h s =
    return-IsSoundPool max_size b inst healthy h s
apply_move-IsSoundPool max_size (discard_move inst) b h s = discard-IsSoundPool max_size b inst h s
apply_move-IsSoundPool max_size destroy_move b h s = destroy-IsSoundPool max_size b s

run_from-IsSoundPool :
    (max_size : ℕ) (moves : List PoolMove) (b : Borrowers)
    → IsPossibleRun moves b
    → IsSoundPool max_size b
    → IsSoundPool max_size (run_moves_of moves b)
unfolding run_moves_of
run_from-IsSoundPool max_size [] b h s = s
run_from-IsSoundPool max_size (move ∷ moves) b (h, k) s =
    run_from-IsSoundPool max_size moves (apply_move move b) k
      (apply_move-IsSoundPool max_size move b h s)

-- However borrowers take, return and discard the instances that they hold, while others are being created or fail to
-- be, and even when the pool is destroyed meanwhile: the pool counts the instances out and under way, these and the
-- free ones are within its maximum, a destroyed pool keeps none free, and no instance is with two of them.
pub run_moves_of-new_borrowers-IsSoundPool :
    (max_size : ℕ) (moves : List PoolMove)
    → 1 ≤ max_size
    → IsPossibleRun moves (new_borrowers max_size)
    → IsSoundPool max_size (run_moves_of moves (new_borrowers max_size))
unfolding new_instance_pool
run_moves_of-new_borrowers-IsSoundPool max_size moves positive h =
    let given : (if nat_beq max_size 0 then 16 else max_size) ≡ max_size =
      ground (arith, positive) in
    run_from-IsSoundPool max_size moves (new_borrowers max_size) h record {
      bound = given;
      counted = omega arith;
      within = omega arith;
      emptied = λ c. refl;
      single = λ i. ground arith;
    }
