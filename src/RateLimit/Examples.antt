-- ===== src/RateLimit/Examples.antt =====
-- Runs of the limiters of internal/ratelimit/ratelimit.go on small inputs.
use cipher_lake.Prelude.{ℕ, none, true, false, [], ◌∷◌, text_key, ◌≡◌, refl, arith}
use cipher_lake.RateLimit.Window.{SlidingWindowCounter, new_sliding_window_counter}
use cipher_lake.RateLimit.Window.Counts.{allows, resets, run, IsValid, run_new_counter-IsValid}
use cipher_lake.RateLimit.Concurrency.{
  Limiter, outside, holding, moves, sets_limit, run_moves, new_limiter,
}
use cipher_lake.RateLimit.Concurrency.Exclusion.{IsExclusive, run_moves-new_limiter-IsExclusive}
use cipher_lake.RateLimit.Breaker.{state_open, Breaker, new_breaker, allow_one}
use cipher_lake.RateLimit.Breaker.Permits.{
  asks, fails, run as run_breaker, IsPermitted, run-new_breaker-IsPermitted,
}
use cipher_lake.RateLimit.Breaker.Trial.{trial, trial_blocks}

-- Two requests in a window of four buckets.
abbrev busy : SlidingWindowCounter
busy = record {
  windows = ("10.0.0.1", record { buckets = 0 ∷ 1 ∷ 1 ∷ 0 ∷ []; bucket_time = 10; count = 2 }) ∷ [];
  duration = 40;
  precision = 10;
  limit = 2;
}

-- A counter after one request.
abbrev used : SlidingWindowCounter
used = run (new_sliding_window_counter 40 10 2) (allows "10.0.0.1" 90 ∷ [])

run_new_counter-IsValid_example : IsValid (
    run
      (new_sliding_window_counter 40 10 2)
      (allows "10.0.0.1" 90 ∷ allows "10.0.0.1" 105 ∷ resets "10.0.0.1" ∷ []))
run_new_counter-IsValid_example =
    run_new_counter-IsValid 40 10 2
      (allows "10.0.0.1" 90 ∷ allows "10.0.0.1" 105 ∷ resets "10.0.0.1" ∷ [])

-- A breaker that opened at 100, with a timeout of 50: one request on trial, and three or one successes to
-- close it.
abbrev opened : ℕ → ℕ → Breaker
opened max_requests success_threshold = record {
  max_requests = max_requests;
  timeout = 50;
  error_threshold = λ failures requests. true;
  success_threshold = success_threshold;
  state = state_open;
  failures = 1;
  successes = 0;
  requests = 1;
  last_state_change = 100;
  half_open_allowed = max_requests;
}

run-new_breaker-IsPermitted_example :
    let after =
      run_breaker 0
        (new_breaker 2 50 (λ failures requests. true) 1 0)
        (asks 1 ∷ fails 2 ∷ asks 60 ∷ []) in
    IsPermitted after.0 after.1
run-new_breaker-IsPermitted_example =
    run-new_breaker-IsPermitted 2 50 (λ failures requests. true) 1 0
      (asks 1 ∷ fails 2 ∷ asks 60 ∷ [])

trial_blocks_example :
    allow_one (trial (opened 2 3) (200 ∷ 201 ∷ [])) 9000
    ≡ (trial (opened 2 3) (200 ∷ 201 ∷ []), false)
trial_blocks_example =
    trial_blocks (opened 2 3) 200 (201 ∷ []) refl (omega arith) refl (omega arith) 9000

-- Two calls that load the same value: only one of them can swap it.
run_moves-new_limiter-IsExclusive_example : IsExclusive 2 (
    run_moves
      (new_limiter 1 2)
      (moves 0 ∷ moves 1 ∷ moves 0 ∷ moves 1 ∷ moves 0 ∷ moves 1 ∷ sets_limit 2 ∷ moves 1 ∷ []))
run_moves-new_limiter-IsExclusive_example =
    run_moves-new_limiter-IsExclusive 2 1 2
      (moves 0 ∷ moves 1 ∷ moves 0 ∷ moves 1 ∷ moves 0 ∷ moves 1 ∷ sets_limit 2 ∷ moves 1 ∷ [])
      (omega arith) (omega arith, tt)

-- One call holds a slot of two, and another has not begun.
abbrev half_taken : Limiter
half_taken = record { own_limit = none; max_total = 2; counter = 1; calls = holding ∷ outside ∷ [] }
