-- ===== src/RateLimit/Window.antt =====
-- `SlidingWindowCounter` of internal/ratelimit/ratelimit.go. Times are nanoseconds since the epoch, and
-- later than one window after it; a limit of 0 stands for one that is not positive. The precision is
-- not 0, where the source would divide by zero. Counters are unbounded, where the source has int64.
pub mod Counts
pub mod Expiry
use cipher_lake.Prelude.{
  ℕ, zero, suc, ◌+◌, ◌-◌, ◌/◌, ◌%◌, Bool, true, false, Option, none, some, List, [], ◌∷◌, String,
  ltb, leb, nat_beq, length, lookup, insert, remove, text_key, if◌then◌else◌,
}

pub record WindowState : Type 0 where
  pub buckets : List ℕ
  pub bucket_time : ℕ
  pub count : ℕ

pub record SlidingWindowCounter : Type 0 where
  pub windows : List (String × WindowState)
  pub duration : ℕ
  pub precision : ℕ
  pub limit : ℕ

unfoldable pub new_sliding_window_counter : ℕ → ℕ → ℕ → SlidingWindowCounter
new_sliding_window_counter duration precision limit = record {
  windows = [];
  duration = duration;
  precision = precision;
  limit = limit;
}

unfoldable pub zeros : ℕ → List ℕ
zeros zero = []
zeros (suc n) = 0 ∷ zeros n

-- `buckets[i]`, where the source's index is always in range.
unfoldable pub bucket_at : ℕ → List ℕ → ℕ
bucket_at i [] = 0
bucket_at zero (b ∷ bs) = b
bucket_at (suc i) (b ∷ bs) = bucket_at i bs

unfoldable pub set_bucket : ℕ → ℕ → List ℕ → List ℕ
set_bucket i v [] = []
set_bucket zero v (b ∷ bs) = v ∷ bs
set_bucket (suc i) v (b ∷ bs) = b ∷ set_bucket i v bs

-- `int(s.duration / s.precision)`, and 1 where that is 0.
unfoldable pub num_buckets : SlidingWindowCounter → ℕ
num_buckets s = let n = s.duration / s.precision in if nat_beq n 0 then 1 else n

-- A window whose last bucket is the one before all that the loop visits next.
unfoldable pub new_window : SlidingWindowCounter → ℕ → WindowState
new_window s current_bucket = record {
  buckets = zeros (num_buckets s);
  bucket_time = current_bucket - num_buckets s;
  count = 0;
}

-- The window of a key: a new one where there is none, or where the old one is out of date.
unfoldable pub window_of : SlidingWindowCounter → String → ℕ → WindowState
window_of s key current_bucket = elim (lookup key s.windows) [
  | none ↦ new_window s current_bucket
  | some ws ↦
      if ltb (s.duration / s.precision) (current_bucket - ws.bucket_time)
      then new_window s current_bucket
      else ws
]

-- A round of the loop that moves on to the current bucket: what falls out of the window is taken
-- from the count, which stays at 0 where it would be negative.
unfoldable pub advance_one : WindowState → WindowState
advance_one ws =
    let bucket_time = ws.bucket_time + 1 in
    let idx = bucket_time % length ws.buckets in
    record {
      buckets = set_bucket idx 0 ws.buckets;
      bucket_time = bucket_time;
      count = ws.count - bucket_at idx ws.buckets;
    }

-- The loop, with a round for each bucket from the window's to the current one.
unfoldable pub advance : ℕ → WindowState → WindowState
advance zero ws = ws
advance (suc n) ws = advance n (advance_one ws)

unfoldable pub advanced : SlidingWindowCounter → String → ℕ → WindowState
advanced s key now =
    let current_bucket = now / s.precision in
    let ws = window_of s key current_bucket in advance (current_bucket - ws.bucket_time) ws

-- The bucket that an allowed request is counted in.
unfoldable pub bucket_index : SlidingWindowCounter → ℕ → WindowState → ℕ
bucket_index s now ws = now % s.duration / s.precision % length ws.buckets

unfoldable pub admit : SlidingWindowCounter → ℕ → WindowState → WindowState
admit s now ws =
    let idx = bucket_index s now ws in
    record ws {
      buckets = set_bucket idx (bucket_at idx ws.buckets + 1) ws.buckets;
      count = ws.count + 1;
    }

unfoldable pub allow : SlidingWindowCounter → String → ℕ → SlidingWindowCounter × Bool
allow s key now =
    let ws = advanced s key now in
    if leb s.limit ws.count
    then (record s { windows = insert key ws s.windows }, false)
    else (record s { windows = insert key (admit s now ws) s.windows }, true)

abbrev pub count_in : Option WindowState → ℕ
count_in none = 0
count_in (some ws) = ws.count

-- `Count`.
unfoldable pub count_of : SlidingWindowCounter → String → ℕ
count_of s key = count_in (lookup key s.windows)

unfoldable pub reset : SlidingWindowCounter → String → SlidingWindowCounter
reset s key = record s { windows = remove key s.windows }
