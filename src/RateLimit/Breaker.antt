-- ===== src/RateLimit/Breaker.antt =====
-- `CircuitBreaker` of internal/ratelimit/ratelimit.go. The comparison of a ratio of int64 with the
-- threshold, in float64, is a function of the two counts; `now` is the clock's reading in a call, in
-- nanoseconds; counters are unbounded.
pub mod Permits
pub mod Trial
use cipher_lake.Prelude.{
  ℕ, zero, suc, ◌+◌, ◌-◌, Bool, true, false, ◌&&◌, Option, none, some, List, [], ◌∷◌, String, ltb,
  leb, nat_beq, lookup, insert, text_key, if◌then◌else◌,
}

pub data CircuitState : Type 0 where
  state_closed state_open state_half_open : CircuitState

pub record Breaker : Type 0 where
  pub max_requests : ℕ
  pub timeout : ℕ
  -- Whether so many failures of so many requests reach the error threshold.
  pub error_threshold : ℕ → ℕ → Bool
  pub success_threshold : ℕ
  pub state : CircuitState
  pub failures : ℕ
  pub successes : ℕ
  pub requests : ℕ
  pub last_state_change : ℕ
  pub half_open_allowed : ℕ

-- What `Register` makes of a configuration.
unfoldable pub new_breaker : ℕ → ℕ → (ℕ → ℕ → Bool) → ℕ → ℕ → Breaker
new_breaker max_requests timeout error_threshold success_threshold now = record {
  max_requests = max_requests;
  timeout = timeout;
  error_threshold = error_threshold;
  success_threshold = success_threshold;
  state = state_closed;
  failures = 0;
  successes = 0;
  requests = 0;
  last_state_change = now;
  half_open_allowed = max_requests;
}

-- The case of a half-open breaker: one permit is used, if there is one.
unfoldable pub use_permit : Breaker → Breaker × Bool
use_permit b =
    if nat_beq b.half_open_allowed 0
    then (b, false)
    else (record b { half_open_allowed = b.half_open_allowed - 1; requests = b.requests + 1 }, true)

unfoldable pub half_open : Breaker → ℕ → Breaker
half_open b now = record b {
  state = state_half_open;
  half_open_allowed = b.max_requests;
  last_state_change = now;
  requests = 0;
  failures = 0;
  successes = 0;
}

-- `Allow` of a registered breaker.
unfoldable pub allow_one : Breaker → ℕ → Breaker × Bool
allow_one b now = elim b.state [
  | state_closed ↦ (record b { requests = b.requests + 1 }, true)
  | state_open ↦
      if ltb b.timeout (now - b.last_state_change) then use_permit (half_open b now) else (b, false)
  | state_half_open ↦ use_permit b
]

-- `RecordSuccess` of a registered breaker.
unfoldable pub success_one : Breaker → ℕ → Breaker
success_one b now =
    let counted = record b { successes = b.successes + 1 } in
    elim b.state [
      | state_half_open ↦
          if leb b.success_threshold (b.successes + 1)
          then record counted {
            state = state_closed;
            last_state_change = now;
            failures = 0;
            requests = 0;
          }
          else counted
      | _ ↦ counted
    ]

-- The test of a breaker that is not half-open, whose failures count one more.
unfoldable pub reaches_threshold : Breaker → Bool
reaches_threshold b =
    ltb 0 b.requests
    && (leb b.success_threshold b.requests && b.error_threshold (b.failures + 1) b.requests)

-- `RecordFailure` of a registered breaker.
unfoldable pub failure_one : Breaker → ℕ → Breaker
failure_one b now =
    let counted = record b { failures = b.failures + 1 } in
    let opened = record counted { state = state_open; last_state_change = now } in
    let checked = if reaches_threshold b then opened else counted in
    elim b.state [ state_half_open ↦ opened | _ ↦ checked ]

pub CircuitBreaker : Type 0
CircuitBreaker = List (String × Breaker)

unfoldable pub register_breaker : CircuitBreaker → String → Breaker → CircuitBreaker
unfolding CircuitBreaker
register_breaker cb name b = insert name b cb

-- A name that is not registered is always allowed.
unfoldable pub breaker_allow : CircuitBreaker → String → ℕ → CircuitBreaker × Bool
unfolding CircuitBreaker
breaker_allow cb name now = elim (lookup name cb) [
  | none ↦ (cb, true)
  | some b ↦ let (after, answer) = allow_one b now in (insert name after cb, answer)
]

unfoldable pub record_success : CircuitBreaker → String → ℕ → CircuitBreaker
unfolding CircuitBreaker
record_success cb name now = elim (lookup name cb) [
  | none ↦ cb
  | some b ↦ insert name (success_one b now) cb
]

unfoldable pub record_failure : CircuitBreaker → String → ℕ → CircuitBreaker
unfolding CircuitBreaker
record_failure cb name now = elim (lookup name cb) [
  | none ↦ cb
  | some b ↦ insert name (failure_one b now) cb
]

unfoldable pub state_of : Breaker → ℕ → CircuitState
state_of b now = elim b.state [
  | state_open ↦ if ltb b.timeout (now - b.last_state_change) then state_half_open else state_open
  | s ↦ s
]

unfoldable pub get_state : CircuitBreaker → String → ℕ → CircuitState
unfolding CircuitBreaker
get_state cb name now = elim (lookup name cb) [ none ↦ state_closed | some b ↦ state_of b now ]
