-- ===== src/RateLimit/Window/Expiry.antt =====
-- The answers of `SlidingWindowCounter.Allow` of internal/ratelimit/ratelimit.go.
use cipher_lake.Prelude.{
  ℕ, zero, suc, ◌+◌, ◌-◌, ◌/◌, ◌≤◌, ◌<◌, Bool, true, false, Option, some, String, ltb, leb, lookup,
  nat_beq, length, none, List, [], ◌∷◌, ◌||◌, ◌%◌, insert, text_key, if◌then◌else◌, ◌≡◌, refl,
  arith, ap, subst, sym, ◌∙◌, lookup-insert,
}
use text.Mathlib.Text.{◌==◌}
use text.Mathlib.TextEquality.{eq_iff}
use cipher_lake.RateLimit.Window.{
  WindowState, SlidingWindowCounter, new_window, window_of, advance_one, advance, advanced, admit,
  allow, count_in, count_of,
}

same_refl : (key : String) → (key == key) ≡ true
same_refl key = (eq_iff key key).1 refl

count-advance : (n : ℕ) (ws : WindowState) → (advance n ws).count ≤ ws.count
unfolding advance advance_one
count-advance zero ws = omega arith
count-advance (suc n) ws = let ih = count-advance n (advance_one ws) in omega arith

allow-left :
    (s : SlidingWindowCounter) (key : String) (now : ℕ)
    → leb s.limit (advanced s key now).count ≡ false
    → allow s key now
      ≡ (record s { windows = insert key (admit s now (advanced s key now)) s.windows }, true)
unfolding allow
allow-left s key now h = rw h refl

count_in-if :
    (b : Bool) (ws : WindowState) (old : Option WindowState)
    → count_in (if b then some ws else old) ≡ (if b then ws.count else count_in old)
count_in-if true ws old = refl
count_in-if false ws old = refl

count_of-insert :
    (s : SlidingWindowCounter) (key k : String) (ws : WindowState)
    → count_of (record s { windows = insert key ws s.windows }) k
      ≡ (if key == k then ws.count else count_of s k)
unfolding count_of
count_of-insert s key k ws =
    ap count_in (lookup-insert key k ws s.windows) ∙ count_in-if (key == k) ws (lookup k s.windows)

-- What the count of a key is after a call, and what its answer.
abbrev pub IsAnswered : ℕ → ℕ → ℕ → Bool → Type 0
IsAnswered limit before after answer =
    (answer ≡ ltb before limit) × (after ≡ (if answer then before + 1 else limit))

IsAnswer : SlidingWindowCounter → String → ℕ → SlidingWindowCounter × Bool → Type 0
IsAnswer s key before r =
    IsAnswered s.limit before (count_of r.0 key) r.1
    × ((other : String) → (key == other) ≡ false → count_of r.0 other ≡ count_of s other)

answers_yes :
    (s : SlidingWindowCounter) (key : String) (now : ℕ)
    → leb s.limit (advanced s key now).count ≡ false
    → IsAnswer s key (advanced s key now).count (allow s key now)
unfolding IsAnswer admit
answers_yes s key now left =
    let ws = admit s now (advanced s key now) in
    let own = count_of-insert s key key ws in
    subst (IsAnswer s key (advanced s key now).count) (sym (allow-left s key now left)) (
      (ground (arith, left), ground (arith, own, same_refl key)),
      λ other h. ground (arith, count_of-insert s key other ws, h),
    )

advanced_after_idle :
    (s : SlidingWindowCounter) (key : String) (ws : WindowState) (now : ℕ)
    → lookup key s.windows ≡ some ws
    → s.duration / s.precision < now / s.precision - ws.bucket_time
    → (advanced s key now).count ≡ 0
unfolding advanced window_of new_window
advanced_after_idle s key ws now e idle =
    let b = now / s.precision in
    let out_of_date : ltb (s.duration / s.precision) (b - ws.bucket_time) ≡ true =
      ground (arith, idle) in
    let fresh : window_of s key b ≡ new_window s b = rw (window_of, e) (rw out_of_date refl) in
    let none_left = count-advance (b - (window_of s key b).bucket_time) (window_of s key b) in
    let nothing = ap (λ w. w.count) fresh in omega (arith, none_left, nothing)

-- Whether a bucket of `n` is one that time has passed on to, in `k` steps from the bucket of time `t`: it then stands for
-- later requests than those it counts.
abbrev pub passed : ℕ → ℕ → ℕ → ℕ → Bool
passed n t zero i = false
passed n t (suc k) i = nat_beq ((t + suc k) % n) i || passed n t k i

-- What the buckets hold that are not gone.
abbrev pub sum_kept : (ℕ → Bool) → ℕ → List ℕ → ℕ
sum_kept gone i [] = 0
sum_kept gone i (b ∷ bs) = (if gone i then 0 else b) + sum_kept gone (suc i) bs

-- The requests of a key that are counted in buckets still in the window: none where the key's last bucket is
-- more than a window old.
abbrev pub in_window : SlidingWindowCounter → ℕ → Option WindowState → ℕ
in_window s current none = 0
in_window s current (some ws) =
    if ltb (s.duration / s.precision) (current - ws.bucket_time)
    then 0
    else sum_kept (passed (length ws.buckets) ws.bucket_time (current - ws.bucket_time)) 0
        ws.buckets

-- Where the last request for a key came more than a window ago, the next one is allowed, if the
-- limit allows any, and it alone is then counted.
pub allow_after_idle :
    (s : SlidingWindowCounter) (key : String) (ws : WindowState) (now : ℕ)
    → lookup key s.windows ≡ some ws
    → s.duration / s.precision < now / s.precision - ws.bucket_time
    → 1 ≤ s.limit
    → ((allow s key now).1 ≡ true) × (count_of (allow s key now).0 key ≡ 1)
unfolding IsAnswer
allow_after_idle s key ws now e idle positive =
    let empty = advanced_after_idle s key ws now e idle in
    let left : leb s.limit (advanced s key now).count ≡ false = ground (arith, empty, positive) in
    let (says, counted) = (answers_yes s key now left).0 in
    (
      ap (λ r. r.1) (allow-left s key now left),
      ground (arith, says, counted, empty, ap (λ r. r.1) (allow-left s key now left)),
    )
