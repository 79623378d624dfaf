-- ===== src/RateLimit/Breaker/Trial.antt =====
-- The trial of a half-open breaker of internal/ratelimit/ratelimit.go: requests that all succeed.
use cipher_lake.Prelude.{
  ℕ, suc, ◌+◌, ◌-◌, ◌≤◌, ◌<◌, true, false, List, [], ◌∷◌, ltb, leb, nat_beq, ◌≡◌, refl, arith,
  length, subst, sym, ap, ◌∙◌,
}
use cipher_lake.RateLimit.Breaker.{
  state_closed, state_open, state_half_open, Breaker, use_permit, half_open, allow_one, success_one,
}

-- Requests that are let through and succeed, one after the other, at the given readings of the clock.
pub trial : Breaker → List ℕ → Breaker
trial b [] = b
trial b (now ∷ nows) = trial (success_one (allow_one b now).0 now) nows

-- A half-open breaker with `n` successes recorded and `m` permits left.
pub record IsTrial (n m : ℕ) (b : Breaker) : Type 0 where
  pub trial_state : b.state ≡ state_half_open
  pub succeeded : b.successes ≡ n
  pub left : b.half_open_allowed ≡ m

allow-half_open :
    (b : Breaker) (now m : ℕ)
    → b.state ≡ state_half_open
    → b.half_open_allowed ≡ suc m
    → allow_one b now ≡ (record b { half_open_allowed = m; requests = b.requests + 1 }, true)
unfolding allow_one use_permit
allow-half_open b now m half left =
    let has_permit : nat_beq b.half_open_allowed 0 ≡ false = ground (arith, left) in
    let one_less : b.half_open_allowed - 1 ≡ m = omega (arith, left) in
    rw half (rw has_permit (rw one_less refl))

success-few :
    (b : Breaker) (now : ℕ)
    → b.state ≡ state_half_open
    → b.successes + 1 < b.success_threshold
    → success_one b now ≡ record b { successes = b.successes + 1 }
unfolding success_one
success-few b now half few =
    let too_few : leb b.success_threshold (b.successes + 1) ≡ false = ground (arith, few) in
    rw half (rw too_few refl)

success-enough :
    (b : Breaker) (now : ℕ)
    → b.state ≡ state_half_open
    → b.success_threshold ≤ b.successes + 1
    → (success_one b now).state ≡ state_closed
unfolding success_one
success-enough b now half enough =
    let reached : leb b.success_threshold (b.successes + 1) ≡ true = ground (arith, enough) in
    rw half (rw reached refl)

allow-no_permit :
    (b : Breaker) (now : ℕ)
    → b.state ≡ state_half_open
    → b.half_open_allowed ≡ 0
    → allow_one b now ≡ (b, false)
unfolding allow_one use_permit
allow-no_permit b now half none_left =
    let no_permit : nat_beq b.half_open_allowed 0 ≡ true = ground (arith, none_left) in
    rw half (rw no_permit refl)

-- A round of the trial that does not end it.
round_few : Breaker → ℕ → Breaker
round_few b m = record b {
  half_open_allowed = m;
  requests = b.requests + 1;
  successes = b.successes + 1;
}

round-few :
    (n m : ℕ) (b : Breaker) (now : ℕ)
    → IsTrial n (suc m) b
    → n + 1 < b.success_threshold
    → success_one (allow_one b now).0 now ≡ round_few b m
unfolding round_few
round-few n m b now tried few =
    ap (λ r. success_one r.0 now) (allow-half_open b now m tried.trial_state tried.left)
    ∙ success-few (record b { half_open_allowed = m; requests = b.requests + 1 }) now
        tried.trial_state (omega (arith, few, tried.succeeded))

round_few-IsTrial :
    (n m : ℕ) (b : Breaker) → IsTrial n (suc m) b → IsTrial (n + 1) m (round_few b m)
unfolding round_few
round_few-IsTrial n m b tried = record {
  trial_state = tried.trial_state;
  succeeded = ap (λ k. k + 1) tried.succeeded;
  left = refl;
}

round-last :
    (n m : ℕ) (b : Breaker) (now : ℕ)
    → IsTrial n (suc m) b
    → b.success_threshold ≤ n + 1
    → (success_one (allow_one b now).0 now).state ≡ state_closed
round-last n m b now tried enough =
    ap (λ r. (success_one r.0 now).state) (allow-half_open b now m tried.trial_state tried.left)
    ∙ success-enough (record b { half_open_allowed = m; requests = b.requests + 1 }) now
        tried.trial_state (omega (arith, enough, tried.succeeded))

half_open-closes :
    (n m : ℕ) (b : Breaker) (now : ℕ) (nows : List ℕ)
    → IsTrial n (suc (length nows + m)) b
    → n + length nows + 1 ≡ b.success_threshold
    → (trial b (now ∷ nows)).state ≡ state_closed
unfolding trial round_few
half_open-closes n m b now [] tried h = round-last n (0 + m) b now tried (omega (arith, h))
half_open-closes n m b now (next ∷ nows) tried h =
    let few = round-few n (length (next ∷ nows) + m) b now tried (omega (arith, h)) in
    let again = round_few-IsTrial n (length (next ∷ nows) + m) b tried in
    let counted : suc (length nows) + m ≡ suc (length nows + m) = omega arith in
    ap (λ c. (trial c (next ∷ nows)).state) few
    ∙ half_open-closes (n + 1) m (round_few b (length (next ∷ nows) + m)) next nows
        (subst (λ k. IsTrial (n + 1) k (round_few b (length (next ∷ nows) + m))) counted again)
        (omega (arith, h))

half_open-blocks :
    (n : ℕ) (b : Breaker) (nows : List ℕ)
    → IsTrial n (length nows) b
    → n + length nows < b.success_threshold
    → IsTrial (n + length nows) 0 (trial b nows)
unfolding trial round_few
half_open-blocks n b [] tried h = subst (λ k. IsTrial k 0 b) (omega arith) tried
half_open-blocks n b (now ∷ nows) tried h =
    let few = round-few n (length nows) b now tried (omega (arith, h)) in
    let again = round_few-IsTrial n (length nows) b tried in
    let rest = half_open-blocks (n + 1) (round_few b (length nows)) nows again (omega (arith, h)) in
    let counted : n + 1 + length nows ≡ n + suc (length nows) = omega arith in
    subst (λ c. IsTrial (n + suc (length nows)) 0 (trial c nows)) (sym few)
      (subst (λ k. IsTrial k 0 (trial (round_few b (length nows)) nows)) counted rest)

half_open-IsTrial : (b : Breaker) (now : ℕ) → IsTrial 0 b.max_requests (half_open b now)
unfolding half_open
half_open-IsTrial b now = record { trial_state = refl; succeeded = refl; left = refl }

allow-open :
    (b : Breaker) (now : ℕ)
    → b.state ≡ state_open
    → b.timeout < now - b.last_state_change
    → allow_one b now ≡ allow_one (half_open b now) now
unfolding allow_one half_open
allow-open b now is_open over =
    let passed : ltb b.timeout (now - b.last_state_change) ≡ true = ground (arith, over) in
    rw is_open (rw passed refl)

trial-open :
    (b : Breaker) (now : ℕ) (nows : List ℕ)
    → b.state ≡ state_open
    → b.timeout < now - b.last_state_change
    → trial b (now ∷ nows) ≡ trial (half_open b now) (now ∷ nows)
unfolding trial
trial-open b now nows is_open over =
    ap (λ r. trial (success_one r.0 now) nows) (allow-open b now is_open over)

-- An open breaker whose timeout has passed, and whose maximum of requests reaches the success threshold:
-- as many successful requests as that threshold close it.
pub trial_closes :
    (b : Breaker) (now : ℕ) (nows : List ℕ)
    → b.state ≡ state_open
    → b.timeout < now - b.last_state_change
    → length nows + 1 ≡ b.success_threshold
    → b.success_threshold ≤ b.max_requests
    → (trial b (now ∷ nows)).state ≡ state_closed
unfolding half_open
trial_closes b now nows is_open over h enough =
    let rest = b.max_requests - b.success_threshold in
    let permits : b.max_requests ≡ suc (length nows + rest) = omega (arith, h, enough) in
    ap (λ c. c.state) (trial-open b now nows is_open over)
    ∙ half_open-closes 0 rest (half_open b now) now nows
        (subst (λ k. IsTrial 0 k (half_open b now)) permits (half_open-IsTrial b now))
        (omega (arith, h))

-- An open breaker whose timeout has passed, and whose maximum of requests is below the success threshold:
-- once as many requests as that maximum were let through and succeeded, it refuses every request, however
-- late, and stays as it is.
pub trial_blocks :
    (b : Breaker) (now : ℕ) (nows : List ℕ)
    → b.state ≡ state_open
    → b.timeout < now - b.last_state_change
    → length nows + 1 ≡ b.max_requests
    → b.max_requests < b.success_threshold
    → (later : ℕ) → allow_one (trial b (now ∷ nows)) later ≡ (trial b (now ∷ nows), false)
unfolding half_open
trial_blocks b now nows is_open over h few later =
    let permits : b.max_requests ≡ length (now ∷ nows) = omega (arith, h) in
    let started = subst (λ k. IsTrial 0 k (half_open b now)) permits (half_open-IsTrial b now) in
    let ended = half_open-blocks 0 (half_open b now) (now ∷ nows) started (omega (arith, h, few)) in
    let tried =
      subst (λ c. IsTrial (0 + length (now ∷ nows)) 0 c) (sym (trial-open b now nows is_open over))
        ended in
    allow-no_permit (trial b (now ∷ nows)) later tried.trial_state tried.left
