-- ===== src/TaskQueue/Queue/Delay.antt =====
-- The backoff of internal/taskqueue/queue.go.
use cipher_lake.Prelude.{
  ℕ, zero, suc, ◌+◌, ◌*◌, ◌^◌, ◌%◌, ◌≤◌, ◌<◌, pos, ltb, if◌then◌else◌, ◌≡◌, refl, arith, ap, ◌∙◌,
  subst,
}
use cipher_lake.TaskQueue.Queue.{to_int64, shl_one, retry_delay}

abbrev pub min : ℕ → ℕ → ℕ
min a b = if ltb a b then a else b

-- `b`, doubled `k` times.
unfoldable pub doubled : ℕ → ℕ → ℕ
doubled b zero = b
doubled b (suc k) = 2 * doubled b k

mul-doubled : (b k : ℕ) → b * doubled 1 k ≡ doubled b k
unfolding doubled
mul-doubled b zero = omega arith
mul-doubled b (suc k) = let ih = mul-doubled b k in grind arith

doubled-le : (b k : ℕ) → 1 ≤ b → doubled 1 k ≤ doubled b k
unfolding doubled
doubled-le b zero h = h
doubled-le b (suc k) h = let ih = doubled-le b k h in omega arith

shl_one-doubled : (k : ℕ) → doubled 1 k < 2 ^ 64 → shl_one k ≡ doubled 1 k
unfolding shl_one doubled
shl_one-doubled zero h = refl
shl_one-doubled (suc k) h =
    let half : doubled 1 k < 2 ^ 64 = omega arith in let ih = shl_one-doubled k half in omega arith

shl_one_vanishes : (j : ℕ) → shl_one (j + 64) ≡ 0
unfolding shl_one
shl_one_vanishes zero = refl
shl_one_vanishes (suc j) =
    let ih = shl_one_vanishes j in
    let next : suc (j + 64) ≡ suc j + 64 = omega arith in
    subst (λ n. shl_one n ≡ 0) next (rw ih refl)

to_int64-small : (n : ℕ) → n < 2 ^ 63 → to_int64 n ≡ pos n
unfolding to_int64
to_int64-small n h = let small : n % 2 ^ 64 ≡ n = omega arith in ground (arith, small)

-- Where the base doubled for each attempt but the first is below 2^63, it is the delay, or the cap
-- where it is above the cap.
pub retry_delay_doubles :
    (retry_base max_retry_delay k : ℕ)
    → 1 ≤ retry_base
    → doubled retry_base k < 2 ^ 63
    → retry_delay retry_base max_retry_delay (suc k)
      ≡ pos (min max_retry_delay (doubled retry_base k))
unfolding retry_delay
retry_delay_doubles retry_base max_retry_delay k positive fits =
    let one = doubled-le retry_base k positive in
    let shifted = shl_one-doubled k (omega arith) in
    let product = ap (λ s. retry_base * s) shifted ∙ mul-doubled retry_base k in
    let delay = ap to_int64 product ∙ to_int64-small (doubled retry_base k) fits in
    rw delay (ground arith)

-- From the 65th attempt on there is no delay, whatever the base and the cap.
pub retry_delay_vanishes :
    (retry_base max_retry_delay j : ℕ)
    → retry_delay retry_base max_retry_delay (suc (j + 64)) ≡ pos 0
unfolding retry_delay
retry_delay_vanishes retry_base max_retry_delay j =
    let nothing : retry_base * 0 ≡ 0 = omega arith in
    let nothing_left = ap (λ s. retry_base * s) (shl_one_vanishes j) ∙ nothing in
    let delay = ap to_int64 nothing_left ∙ to_int64-small 0 (omega arith) in rw delay (ground arith)
