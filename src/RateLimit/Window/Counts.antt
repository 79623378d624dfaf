-- ===== src/RateLimit/Window/Counts.antt =====
-- The count of a window of internal/ratelimit/ratelimit.go is the sum of its buckets, and within the limit.
use cipher_lake.Prelude.{
  ℕ, zero, suc, ◌+◌, ◌-◌, ◌/◌, ◌%◌, ◌≤◌, ◌<◌, false, some, List, [], ◌∷◌, String, ltb, leb, length,
  lookup, insert, text_key, ◌≡◌, refl, arith, subst, sym, ◌∙◌, Bool-cases, Option-cases, inl, inr,
  lookup-insert, lookup-remove,
}
use text.Mathlib.Text.{◌==◌}
use native.Mathlib.Nat.{mod-lt}
use cipher_lake.RateLimit.Window.{
  WindowState, SlidingWindowCounter, new_sliding_window_counter, zeros, bucket_at, set_bucket,
  num_buckets, new_window, window_of, advance_one, advance, advanced, bucket_index, admit, allow,
  reset,
}

unfoldable pub sum : List ℕ → ℕ
sum [] = 0
sum (b ∷ bs) = b + sum bs

-- The count is the sum of the buckets, there are `n` of them, not none, and the count is within `limit`.
pub record IsCounted (n limit : ℕ) (ws : WindowState) : Type 0 where
  pub total : ws.count ≡ sum ws.buckets
  pub size : length ws.buckets ≡ n
  pub bounded : ws.count ≤ limit

sum-zeros : (n : ℕ) → sum (zeros n) ≡ 0
unfolding sum zeros
sum-zeros zero = refl
sum-zeros (suc n) = let ih = sum-zeros n in omega arith

length-zeros : (n : ℕ) → length (zeros n) ≡ n
unfolding zeros
length-zeros zero = refl
length-zeros (suc n) = let ih = length-zeros n in omega arith

pub length-set_bucket : (i v : ℕ) (bs : List ℕ) → length (set_bucket i v bs) ≡ length bs
unfolding set_bucket
length-set_bucket i v [] = refl
length-set_bucket zero v (b ∷ bs) = refl
length-set_bucket (suc i) v (b ∷ bs) = let ih = length-set_bucket i v bs in omega arith

-- A bucket in range trades its value for the new one.
sum-set_bucket :
    (i v : ℕ) (bs : List ℕ) → i < length bs → sum (set_bucket i v bs) + bucket_at i bs ≡ sum bs + v
unfolding sum set_bucket bucket_at
sum-set_bucket i v [] h = absurd (omega arith)
sum-set_bucket zero v (b ∷ bs) h = omega arith
sum-set_bucket (suc i) v (b ∷ bs) h = let ih = sum-set_bucket i v bs (omega arith) in omega arith

num_buckets-positive : (s : SlidingWindowCounter) → 1 ≤ num_buckets s
unfolding num_buckets
num_buckets-positive s = ground arith

new_window-IsCounted :
    (s : SlidingWindowCounter) (b : ℕ) → IsCounted (num_buckets s) s.limit (new_window s b)
unfolding new_window
new_window-IsCounted s b = record {
  total = sym (sum-zeros (num_buckets s));
  size = length-zeros (num_buckets s);
  bounded = omega arith;
}

index_in_range : (a n : ℕ) → 1 ≤ n → a % n < n
index_in_range a n h = mod-lt a h

advance_one-IsCounted :
    (n limit : ℕ) (ws : WindowState)
    → 1 ≤ n
    → IsCounted n limit ws
    → IsCounted n limit (advance_one ws)
unfolding advance_one
advance_one-IsCounted n limit ws h counted =
    let idx = (ws.bucket_time + 1) % length ws.buckets in
    let in_range =
      index_in_range (ws.bucket_time + 1) (length ws.buckets) (omega (arith, counted.size)) in
    let traded = sum-set_bucket idx 0 ws.buckets in_range in
    record {
      total = omega (arith, traded, counted.total);
      size = length-set_bucket idx 0 ws.buckets ∙ counted.size;
      bounded = omega (arith, counted.bounded);
    }

advance-IsCounted :
    (n limit k : ℕ) (ws : WindowState)
    → 1 ≤ n
    → IsCounted n limit ws
    → IsCounted n limit (advance k ws)
unfolding advance
advance-IsCounted n limit zero ws h counted = counted
advance-IsCounted n limit (suc k) ws h counted =
    advance-IsCounted n limit k (advance_one ws) h (advance_one-IsCounted n limit ws h counted)

-- Every window has the number of buckets of the limiter, and its count is their sum and within the limit.
pub IsValid : SlidingWindowCounter → Type 0
IsValid s =
    (key : String) (ws : WindowState)
    → lookup key s.windows ≡ some ws
    → IsCounted (num_buckets s) s.limit ws

window_of-IsCounted :
    (s : SlidingWindowCounter) (key : String) (b : ℕ)
    → IsValid s
    → IsCounted (num_buckets s) s.limit (window_of s key b)
unfolding IsValid window_of
window_of-IsCounted s key b valid = elim (Option-cases (lookup key s.windows)) [
  | inl e ↦ rw (window_of, e) (new_window-IsCounted s b)
  | inr (ws, e) ↦ elim (Bool-cases (ltb (s.duration / s.precision) (b - ws.bucket_time))) [
    | inl old ↦ rw (window_of, e) (rw old (new_window-IsCounted s b))
    | inr recent ↦ rw (window_of, e) (rw recent (valid key ws e))
  ]
]

pub advanced-IsCounted :
    (s : SlidingWindowCounter) (key : String) (now : ℕ)
    → IsValid s
    → IsCounted (num_buckets s) s.limit (advanced s key now)
unfolding advanced
advanced-IsCounted s key now valid =
    let b = now / s.precision in
    let ws = window_of s key b in
    advance-IsCounted (num_buckets s) s.limit (b - ws.bucket_time) ws (num_buckets-positive s)
      (window_of-IsCounted s key b valid)

pub admit-IsCounted :
    (n : ℕ) (s : SlidingWindowCounter) (now : ℕ) (ws : WindowState)
    → 1 ≤ n
    → leb s.limit ws.count ≡ false
    → IsCounted n s.limit ws
    → IsCounted n s.limit (admit s now ws)
unfolding admit bucket_index
admit-IsCounted n s now ws h left counted =
    let slot = now % s.duration / s.precision in
    let idx = slot % length ws.buckets in
    let in_range = index_in_range slot (length ws.buckets) (omega (arith, counted.size)) in
    let traded = sum-set_bucket idx (bucket_at idx ws.buckets + 1) ws.buckets in_range in
    let below : ws.count < s.limit = ground (arith, left) in
    record {
      total = omega (arith, traded, counted.total);
      size = length-set_bucket idx (bucket_at idx ws.buckets + 1) ws.buckets ∙ counted.size;
      bounded = omega (arith, below);
    }

-- Writing one window that is counted keeps the limiter valid.
written-IsValid :
    (s : SlidingWindowCounter) (key : String) (ws : WindowState)
    → IsValid s
    → IsCounted (num_buckets s) s.limit ws
    → IsValid (record s { windows = insert key ws s.windows })
unfolding IsValid num_buckets
written-IsValid s key ws valid counted k found e = elim (Bool-cases (key == k)) [
  | inl here ↦
      let same : ws ≡ found = ground (arith, lookup-insert key k ws s.windows, e, here) in
      subst (IsCounted (num_buckets s) s.limit) same counted
  | inr there ↦
      let old : lookup k s.windows ≡ some found =
        ground (arith, lookup-insert key k ws s.windows, e, there) in
      valid k found old
]

allow-IsValid :
    (s : SlidingWindowCounter) (key : String) (now : ℕ) → IsValid s → IsValid (allow s key now).0
unfolding allow
allow-IsValid s key now valid =
    let counted = advanced-IsCounted s key now valid in
    elim (Bool-cases (leb s.limit (advanced s key now).count)) [
      | inl full ↦ rw full (written-IsValid s key (advanced s key now) valid counted)
      | inr left ↦ rw left (
          written-IsValid s key (admit s now (advanced s key now)) valid (
            admit-IsCounted (num_buckets s) s now (advanced s key now) (num_buckets-positive s) left
              counted))
    ]

reset-IsValid : (s : SlidingWindowCounter) (key : String) → IsValid s → IsValid (reset s key)
unfolding IsValid reset num_buckets
reset-IsValid s key valid k found e =
    valid k found (ground (arith, lookup-remove key k s.windows, e))

pub data Request : Type 0 where
  allows : String → ℕ → Request
  resets : String → Request

pub apply_request : SlidingWindowCounter → Request → SlidingWindowCounter
apply_request s (allows key now) = (allow s key now).0
apply_request s (resets key) = reset s key

pub run : SlidingWindowCounter → List Request → SlidingWindowCounter
run s [] = s
run s (r ∷ rs) = run (apply_request s r) rs

run-IsValid : (s : SlidingWindowCounter) (rs : List Request) → IsValid s → IsValid (run s rs)
unfolding run apply_request
run-IsValid s [] valid = valid
run-IsValid s (allows key now ∷ rs) valid =
    run-IsValid (allow s key now).0 rs (allow-IsValid s key now valid)
run-IsValid s (resets key ∷ rs) valid = run-IsValid (reset s key) rs (reset-IsValid s key valid)

none_yet :
    (duration precision limit : ℕ) → IsValid (new_sliding_window_counter duration precision limit)
unfolding IsValid new_sliding_window_counter lookup
none_yet duration precision limit key ws e = absurd (cc)

-- After any calls of `Allow` and `Reset` on a new counter, the count of each window is the sum of its
-- buckets, of which there are as many as the window has, and is not above the limit.
pub run_new_counter-IsValid :
    (duration precision limit : ℕ) (rs : List Request)
    → IsValid (run (new_sliding_window_counter duration precision limit) rs)
unfolding new_sliding_window_counter
run_new_counter-IsValid duration precision limit rs =
    run-IsValid (new_sliding_window_counter duration precision limit) rs
      (none_yet duration precision limit)
