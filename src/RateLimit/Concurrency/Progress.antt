-- ===== src/RateLimit/Concurrency/Progress.antt =====
-- A call of `ConcurrencyLimiter.Acquire` of internal/ratelimit/ratelimit.go that is not disturbed gets its slot.
use cipher_lake.Prelude.{
  ℕ, zero, suc, ◌+◌, ◌<◌, true, false, Option, none, some, List, [], ◌∷◌, leb, nat_beq, ◌≡◌, refl,
  arith, ap, ◌∙◌,
}
use cipher_lake.RateLimit.Concurrency.{
  Phase, outside, holding, loading, swapping, Limiter, limit_now, access, access_at, moves, move,
  run_moves,
}

unfoldable pub phase_at : ℕ → List Phase → Option Phase
phase_at i [] = none
phase_at zero (p ∷ ps) = some p
phase_at (suc i) (p ∷ ps) = phase_at i ps

-- An access of a call does to the counter and to its phase what `access` says.
access_at-phase :
    (limit counter i : ℕ) (ps : List Phase) (p : Phase)
    → phase_at i ps ≡ some p
    → ((access_at limit counter i ps).0 ≡ (access limit counter p).0)
      × (phase_at i (access_at limit counter i ps).1 ≡ some (access limit counter p).1)
unfolding access_at phase_at
access_at-phase limit counter i [] p e = absurd (cc)
access_at-phase limit counter zero (q ∷ ps) p e =
    let same : q ≡ p = cc in
    (ap (λ r. (access limit counter r).0) same, ap (λ r. some (access limit counter r).1) same)
access_at-phase limit counter (suc i) (q ∷ ps) p e = access_at-phase limit counter i ps p e

access-outside : (limit counter : ℕ) → access limit counter outside ≡ (counter, loading limit)
unfolding access
access-outside limit counter = refl

access-loading :
    (limit counter bound : ℕ)
    → counter < bound
    → access limit counter (loading bound) ≡ (counter, swapping bound counter)
unfolding access
access-loading limit counter bound h =
    let free : leb bound counter ≡ false = ground (arith, h) in rw free refl

access-swapping :
    (limit counter bound : ℕ)
    → access limit counter (swapping bound counter) ≡ (counter + 1, holding)
unfolding access
access-swapping limit counter bound =
    let same : nat_beq counter counter ≡ true = ground arith in rw same refl

-- The call `i` stands at `p`, and the counter is `c`.
abbrev Stands : Limiter → ℕ → Phase → ℕ → Type 0
Stands l i p c = (phase_at i l.calls ≡ some p) × (l.counter ≡ c)

move-Stands :
    (l : Limiter) (i c : ℕ) (p : Phase) (next : ℕ × Phase)
    → Stands l i p c
    → access (limit_now l) c p ≡ next
    → Stands (move l (moves i)) i next.1 next.0
unfolding move
move-Stands l i c p next (stands, counter) e =
    let (count, phase) = access_at-phase (limit_now l) l.counter i l.calls p stands in
    let same : access (limit_now l) l.counter p ≡ next =
      ap (λ k. access (limit_now l) k p) counter ∙ e in
    (phase ∙ ap (λ r. some r.1) same, count ∙ ap (λ r. r.0) same)

-- Where a slot is free and the counter is touched by no other call, a call that has not begun holds a slot
-- after three accesses: it reads its limit, loads the counter, and swaps it for one more.
pub acquire_undisturbed :
    (l : Limiter) (i : ℕ)
    → phase_at i l.calls ≡ some outside
    → l.counter < limit_now l
    → (phase_at i (run_moves l (moves i ∷ moves i ∷ moves i ∷ [])).calls ≡ some holding)
      × ((run_moves l (moves i ∷ moves i ∷ moves i ∷ [])).counter ≡ l.counter + 1)
unfolding run_moves
acquire_undisturbed l i begins free =
    let once = move l (moves i) in
    let twice = move once (moves i) in
    let limit = limit_now l in
    let begun =
      move-Stands l i l.counter outside (l.counter, loading limit) (begins, refl)
        (access-outside limit l.counter) in
    let loaded =
      move-Stands once i l.counter (loading limit) (l.counter, swapping limit l.counter) begun
        (access-loading (limit_now once) l.counter limit free) in
    move-Stands twice i l.counter (swapping limit l.counter) (l.counter + 1, holding) loaded
      (access-swapping (limit_now twice) l.counter limit)
