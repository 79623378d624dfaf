-- ===== src/RateLimit/Concurrency.antt =====
-- `ConcurrencyLimiter` of internal/ratelimit/ratelimit.go for one key, whose counter is shared by calls that
-- run at the same time. Each access of the counter is one step of one call, and the schedule picks which;
-- a limit that is not positive is 0. A call whose context is done leaves the counter as it is, and its
-- `release` is called at most once.
pub mod Exclusion
pub mod Progress
use cipher_lake.Prelude.{
  ℕ, zero, suc, ◌+◌, ◌-◌, Bool, Option, none, some, List, [], ◌∷◌, leb, nat_beq, get_or,
  if◌then◌else◌,
}

-- Where a call stands: not in `Acquire`, about to load the counter, about to compare and swap the value it
-- loaded, or with its slot taken. The limit is the one that the call read at its start.
pub data Phase : Type 0 where
  outside holding : Phase
  loading : ℕ → Phase
  swapping : ℕ → ℕ → Phase

pub record Limiter : Type 0 where
  pub own_limit : Option ℕ
  pub max_total : ℕ
  pub counter : ℕ
  pub calls : List Phase

abbrev pub limit_now : Limiter → ℕ
limit_now l = get_or l.own_limit l.max_total

-- The counter and the phase after one access.
unfoldable pub access : ℕ → ℕ → Phase → ℕ × Phase
access limit counter outside = (counter, loading limit)
access limit counter (loading bound) =
    if leb bound counter then (counter, loading bound) else (counter, swapping bound counter)
access limit counter (swapping bound loaded) =
    if nat_beq counter loaded then (counter + 1, holding) else (counter, loading bound)
access limit counter holding = (counter - 1, outside)

-- An access of the call number `i`; a number that no call has changes nothing.
unfoldable pub access_at : ℕ → ℕ → ℕ → List Phase → ℕ × List Phase
access_at limit counter i [] = (counter, [])
access_at limit counter zero (p ∷ ps) = let (after, q) = access limit counter p in (after, q ∷ ps)
access_at limit counter (suc i) (p ∷ ps) =
    let (after, qs) = access_at limit counter i ps in (after, p ∷ qs)

pub data Move : Type 0 where
  moves sets_limit : ℕ → Move

unfoldable pub move : Limiter → Move → Limiter
move l (moves i) =
    let (counter, calls) = access_at (limit_now l) l.counter i l.calls in
    record l { counter = counter; calls = calls }
move l (sets_limit limit) = record l { own_limit = some limit }

unfoldable pub run_moves : Limiter → List Move → Limiter
run_moves l [] = l
run_moves l (m ∷ ms) = run_moves (move l m) ms

unfoldable pub outsiders : ℕ → List Phase
outsiders zero = []
outsiders (suc n) = outside ∷ outsiders n

-- A new limiter, and `n` calls that have not begun.
unfoldable pub new_limiter : ℕ → ℕ → Limiter
new_limiter max_total n = record {
  own_limit = none;
  max_total = max_total;
  counter = 0;
  calls = outsiders n;
}
