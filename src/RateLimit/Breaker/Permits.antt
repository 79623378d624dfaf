-- ===== src/RateLimit/Breaker/Permits.antt =====
-- The permits of a half-open breaker of internal/ratelimit/ratelimit.go.
use cipher_lake.Prelude.{
  ℕ, ◌+◌, ◌-◌, ◌≤◌, Bool, true, false, List, [], ◌∷◌, ltb, leb, nat_beq, if◌then◌else◌, ◌≡◌, arith,
  Bool-cases, inl, inr, text_key,
}
use cipher_lake.RateLimit.Breaker.{
  CircuitState, state_closed, state_open, state_half_open, Breaker, new_breaker, reaches_threshold,
  use_permit, half_open, allow_one, success_one, failure_one,
}

-- In the half-open state, with so many requests let through since it was entered, these and the permits left make up
-- the maximum.
abbrev pub Permits : CircuitState → ℕ → ℕ → ℕ → Type 0
Permits state_half_open granted allowed max_requests = granted + allowed ≡ max_requests
Permits _ granted allowed max_requests = Unit {0}

pub IsPermitted : ℕ → Breaker → Type 0
IsPermitted granted b = Permits b.state granted b.half_open_allowed b.max_requests

abbrev pub is_half_open : CircuitState → Bool
is_half_open state_half_open = true
is_half_open _ = false

-- How many requests have been let through since the breaker became half-open, 0 while it is not, when a call takes it
-- from one state to another: counted by the answers.
abbrev pub granted_after : CircuitState → ℕ → Bool → CircuitState → ℕ
granted_after before granted answer after =
    if is_half_open after
    then (if is_half_open before then granted else 0) + (if answer then 1 else 0)
    else 0

-- The breaker `b` in the state `s`.
abbrev in_state : CircuitState → Breaker → Breaker
in_state s b = record b { state = s }

pub data BreakerCall : Type 0 where
  asks succeeds fails : ℕ → BreakerCall

-- A call, with the answer of `Allow`; the other two let nothing through.
pub apply_call : Breaker → BreakerCall → Breaker × Bool
apply_call b (asks now) = allow_one b now
apply_call b (succeeds now) = (success_one b now, false)
apply_call b (fails now) = (failure_one b now, false)

-- The calls one after the other, with the requests let through since the breaker became half-open.
pub run : ℕ → Breaker → List BreakerCall → ℕ × Breaker
run granted b [] = (granted, b)
run granted b (call ∷ calls) =
    let (after, answer) = apply_call b call in
    run (granted_after b.state granted answer after.state) after calls

-- What holds after a call.
abbrev IsNextPermitted : CircuitState → ℕ → Breaker × Bool → Type 0
IsNextPermitted before granted (after, answer) =
    IsPermitted (granted_after before granted answer after.state) after

use_permit_half-IsNextPermitted :
    (b : Breaker) (granted : ℕ)
    → granted + b.half_open_allowed ≡ b.max_requests
    → IsNextPermitted state_half_open granted (use_permit (in_state state_half_open b))
unfolding use_permit IsPermitted
use_permit_half-IsNextPermitted b granted total =
    elim (Bool-cases (nat_beq b.half_open_allowed 0)) [
      | inl none_left ↦ rw none_left (omega (arith, total))
      | inr left ↦
          let some_left : 1 ≤ b.half_open_allowed = ground (arith, left) in
          rw left (omega (arith, total, some_left))
    ]

half_open-IsNextPermitted :
    (b : Breaker) (granted now : ℕ)
    → IsNextPermitted state_open granted (use_permit (half_open b now))
unfolding half_open use_permit IsPermitted
half_open-IsNextPermitted b granted now = elim (Bool-cases (nat_beq b.max_requests 0)) [
  | inl none_left ↦ rw none_left (ground (arith, none_left))
  | inr left ↦
      let some_left : 1 ≤ b.max_requests = ground (arith, left) in
      rw left (omega (arith, some_left))
]

allow_in-IsNextPermitted :
    (s : CircuitState) (b : Breaker) (granted now : ℕ)
    → IsPermitted granted (in_state s b)
    → IsNextPermitted s granted (allow_one (in_state s b) now)
unfolding IsPermitted allow_one
allow_in-IsNextPermitted state_closed b granted now permitted = tt
allow_in-IsNextPermitted state_open b granted now permitted =
    elim (Bool-cases (ltb b.timeout (now - b.last_state_change))) [
      | inl over ↦ rw over (half_open-IsNextPermitted (in_state state_open b) granted now)
      | inr early ↦ rw early tt
    ]
allow_in-IsNextPermitted state_half_open b granted now permitted =
    use_permit_half-IsNextPermitted b granted permitted

success_in-IsNextPermitted :
    (s : CircuitState) (b : Breaker) (granted now : ℕ)
    → IsPermitted granted (in_state s b)
    → IsNextPermitted s granted (success_one (in_state s b) now, false)
unfolding IsPermitted success_one
success_in-IsNextPermitted state_closed b granted now permitted = tt
success_in-IsNextPermitted state_open b granted now permitted = tt
success_in-IsNextPermitted state_half_open b granted now permitted =
    elim (Bool-cases (leb b.success_threshold (b.successes + 1))) [
      | inl enough ↦ rw enough tt
      | inr few ↦ rw few (omega (arith, permitted))
    ]

failure_in-IsNextPermitted :
    (s : CircuitState) (b : Breaker) (granted now : ℕ)
    → IsNextPermitted s granted (failure_one (in_state s b) now, false)
unfolding IsPermitted failure_one
failure_in-IsNextPermitted state_closed b granted now =
    elim (Bool-cases (reaches_threshold (in_state state_closed b))) [
      | inl opens ↦ rw opens tt
      | inr stays ↦ rw stays tt
    ]
failure_in-IsNextPermitted state_open b granted now =
    elim (Bool-cases (reaches_threshold (in_state state_open b))) [
      | inl opens ↦ rw opens tt
      | inr stays ↦ rw stays tt
    ]
failure_in-IsNextPermitted state_half_open b granted now = tt

apply_call-IsNextPermitted :
    (b : Breaker) (granted : ℕ) (call : BreakerCall)
    → IsPermitted granted b
    → IsNextPermitted b.state granted (apply_call b call)
unfolding apply_call
apply_call-IsNextPermitted b granted (asks now) permitted =
    allow_in-IsNextPermitted b.state b granted now permitted
apply_call-IsNextPermitted b granted (succeeds now) permitted =
    success_in-IsNextPermitted b.state b granted now permitted
apply_call-IsNextPermitted b granted (fails now) permitted =
    failure_in-IsNextPermitted b.state b granted now

run-IsPermitted :
    (granted : ℕ) (b : Breaker) (calls : List BreakerCall)
    → IsPermitted granted b
    → IsPermitted (run granted b calls).0 (run granted b calls).1
unfolding run
run-IsPermitted granted b [] permitted = permitted
run-IsPermitted granted b (call ∷ calls) permitted =
    run-IsPermitted
      (granted_after b.state granted (apply_call b call).1 (apply_call b call).0.state)
      (apply_call b call).0 calls (apply_call-IsNextPermitted b granted call permitted)

-- After any calls of `Allow`, `RecordSuccess` and `RecordFailure` on a registered breaker, if it is half-open, the
-- requests that it answered with yes since it became so, and the permits left, make up the maximum of requests: it
-- never lets more through.
pub run-new_breaker-IsPermitted :
    (max_requests timeout : ℕ) (error_threshold : ℕ → ℕ → Bool) (success_threshold now : ℕ)
    (calls : List BreakerCall)
    → let b = new_breaker max_requests timeout error_threshold success_threshold now in
      IsPermitted (run 0 b calls).0 (run 0 b calls).1
unfolding IsPermitted new_breaker
run-new_breaker-IsPermitted max_requests timeout error_threshold success_threshold now calls =
    run-IsPermitted 0 (new_breaker max_requests timeout error_threshold success_threshold now) calls
      tt
