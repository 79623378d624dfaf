-- ===== src/RateLimit/Concurrency/Exclusion.antt =====
-- However its calls interleave, `ConcurrencyLimiter` of internal/ratelimit/ratelimit.go keeps its limit.
use cipher_lake.Prelude.{
  ℕ, zero, suc, ◌+◌, ◌≤◌, ◌<◌, some, List, [], ◌∷◌, leb, nat_beq, ◌≡◌, refl, arith, Bool-cases, inl,
  inr,
}
use cipher_lake.RateLimit.Concurrency.{
  Phase, outside, holding, loading, swapping, Limiter, limit_now, access, access_at, Move, moves,
  sets_limit, move, run_moves, outsiders, new_limiter,
}

abbrev pub held : Phase → ℕ
held holding = 1
held _ = 0

-- How many calls hold a slot.
unfoldable pub holders : List Phase → ℕ
holders [] = 0
holders (p ∷ ps) = held p + holders ps

-- The limit that a call has read is at most `most`, and a value that it is about to swap is below its limit.
abbrev pub IsBound : ℕ → Phase → Type 0
IsBound most (loading bound) = bound ≤ most
IsBound most (swapping bound loaded) = (bound ≤ most) × (loaded < bound)
IsBound most _ = Unit {0}

abbrev pub AllBound : ℕ → List Phase → Type 0
AllBound most [] = Unit {0}
AllBound most (p ∷ ps) = IsBound most p × AllBound most ps

access-IsBound :
    (most limit counter : ℕ) (p : Phase)
    → limit ≤ most
    → IsBound most p
    → IsBound most (access limit counter p).1
unfolding access
access-IsBound most limit counter outside h bound = h
access-IsBound most limit counter (loading b) h bound = elim (Bool-cases (leb b counter)) [
  | inl full ↦ rw full bound
  | inr free ↦ rw free (bound, ground (arith, free))
]
access-IsBound most limit counter (swapping b loaded) h bound =
    elim (Bool-cases (nat_beq counter loaded)) [
      | inl same ↦ rw same tt
      | inr changed ↦ rw changed bound.0
    ]
access-IsBound most limit counter holding h bound = tt

-- The counter moves with the slots: what it gains or loses, the call does.
access-held :
    (limit counter : ℕ) (p : Phase)
    → held p ≤ counter
    → (access limit counter p).0 + held p ≡ counter + held (access limit counter p).1
unfolding access
access-held limit counter outside h = refl
access-held limit counter (loading b) h = elim (Bool-cases (leb b counter)) [
  | inl full ↦ rw full refl
  | inr free ↦ rw free refl
]
access-held limit counter (swapping b loaded) h = elim (Bool-cases (nat_beq counter loaded)) [
  | inl same ↦ rw same (omega arith)
  | inr changed ↦ rw changed refl
]
access-held limit counter holding h = omega arith

access_at-held :
    (limit counter i : ℕ) (ps : List Phase)
    → holders ps ≤ counter
    → (access_at limit counter i ps).0 + holders ps
      ≡ counter + holders (access_at limit counter i ps).1
unfolding access_at holders
access_at-held limit counter i [] h = refl
access_at-held limit counter zero (p ∷ ps) h =
    let one = access-held limit counter p (omega (arith, h)) in omega (arith, one)
access_at-held limit counter (suc i) (p ∷ ps) h =
    let rest = access_at-held limit counter i ps (omega (arith, h)) in omega (arith, rest)

access_at-AllBound :
    (most limit counter i : ℕ) (ps : List Phase)
    → limit ≤ most
    → AllBound most ps
    → AllBound most (access_at limit counter i ps).1
unfolding access_at
access_at-AllBound most limit counter i [] h bound = tt
access_at-AllBound most limit counter zero (p ∷ ps) h bound =
    (access-IsBound most limit counter p h bound.0, bound.1)
access_at-AllBound most limit counter (suc i) (p ∷ ps) h bound =
    (bound.0, access_at-AllBound most limit counter i ps h bound.1)

-- The counter never passes the largest limit.
access-le :
    (most limit counter : ℕ) (p : Phase)
    → IsBound most p
    → counter ≤ most
    → (access limit counter p).0 ≤ most
unfolding access
access-le most limit counter outside bound h = h
access-le most limit counter (loading b) bound h = elim (Bool-cases (leb b counter)) [
  | inl full ↦ rw full h
  | inr free ↦ rw free h
]
access-le most limit counter (swapping b loaded) bound h =
    elim (Bool-cases (nat_beq counter loaded)) [
      | inl same ↦
          let equal : counter ≡ loaded = ground (arith, same) in
          let (known, below) = bound in rw same (omega (arith, equal, known, below))
      | inr changed ↦ rw changed h
    ]
access-le most limit counter holding bound h = omega (arith, h)

access_at-le :
    (most limit counter i : ℕ) (ps : List Phase)
    → AllBound most ps
    → counter ≤ most
    → (access_at limit counter i ps).0 ≤ most
unfolding access_at
access_at-le most limit counter i [] bound h = h
access_at-le most limit counter zero (p ∷ ps) bound h = access-le most limit counter p bound.0 h
access_at-le most limit counter (suc i) (p ∷ ps) bound h =
    access_at-le most limit counter i ps bound.1 h

-- The counter is the number of calls that hold a slot, and no limit in sight is above `most`.
pub record IsExclusive (most : ℕ) (l : Limiter) : Type 0 where
  pub counted : l.counter ≡ holders l.calls
  pub within_most : l.counter ≤ most
  pub bound : AllBound most l.calls
  pub limit_bound : limit_now l ≤ most

-- Every limit that is set on the way is at most `most`.
abbrev pub LimitsWithin : ℕ → List Move → Type 0
LimitsWithin most [] = Unit {0}
LimitsWithin most (moves i ∷ ms) = LimitsWithin most ms
LimitsWithin most (sets_limit limit ∷ ms) = (limit ≤ most) × LimitsWithin most ms

access_at-IsExclusive :
    (most i : ℕ) (l : Limiter) → IsExclusive most l → IsExclusive most (move l (moves i))
unfolding move
access_at-IsExclusive most i l exclusive =
    let held_before : holders l.calls ≤ l.counter = omega (arith, exclusive.counted) in
    let balance = access_at-held (limit_now l) l.counter i l.calls held_before in
    record {
      counted = omega (arith, balance, exclusive.counted);
      within_most =
          access_at-le most (limit_now l) l.counter i l.calls exclusive.bound exclusive.within_most;
      bound =
          access_at-AllBound most (limit_now l) l.counter i l.calls exclusive.limit_bound
            exclusive.bound;
      limit_bound = exclusive.limit_bound;
    }

run_moves-IsExclusive :
    (most : ℕ) (l : Limiter) (ms : List Move)
    → IsExclusive most l
    → LimitsWithin most ms
    → IsExclusive most (run_moves l ms)
unfolding run_moves move
run_moves-IsExclusive most l [] exclusive within = exclusive
run_moves-IsExclusive most l (moves i ∷ ms) exclusive within =
    run_moves-IsExclusive most (move l (moves i)) ms (access_at-IsExclusive most i l exclusive)
      within
run_moves-IsExclusive most l (sets_limit limit ∷ ms) exclusive within =
    run_moves-IsExclusive most (record l { own_limit = some limit }) ms
      (record {
        counted = exclusive.counted;
        within_most = exclusive.within_most;
        bound = exclusive.bound;
        limit_bound = within.0;
      })
      within.1

holders-outsiders : (n : ℕ) → 0 ≡ holders (outsiders n)
unfolding holders outsiders
holders-outsiders zero = refl
holders-outsiders (suc n) = let ih = holders-outsiders n in omega (arith, ih)

outsiders-AllBound : (most n : ℕ) → AllBound most (outsiders n)
unfolding outsiders
outsiders-AllBound most zero = tt
outsiders-AllBound most (suc n) = (tt, outsiders-AllBound most n)

-- From a new limiter, however the accesses of its calls interleave and the limit is changed on the way:
-- where no limit was above `most`, no more than `most` calls hold a slot at once, and the counter is their
-- number.
pub run_moves-new_limiter-IsExclusive :
    (most max_total n : ℕ) (ms : List Move)
    → max_total ≤ most
    → LimitsWithin most ms
    → IsExclusive most (run_moves (new_limiter max_total n) ms)
unfolding new_limiter
run_moves-new_limiter-IsExclusive most max_total n ms h within =
    run_moves-IsExclusive most (new_limiter max_total n) ms
      (record {
        counted = holders-outsiders n;
        within_most = omega arith;
        bound = outsiders-AllBound most n;
        limit_bound = h;
      })
      within
