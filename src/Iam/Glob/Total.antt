-- ===== src/Iam/Glob/Total.antt =====
-- The loop of `globMatch` in internal/iam/policy.go ends: the rounds granted are enough.
use cipher_lake.Prelude.{
  ℕ, zero, suc, ◌+◌, ◌*◌, ◌≤◌, ◌<◌, Option, none, some, [], ◌∷◌, Str, ◌≡◌, refl, arith, length,
  is_some, true,
}
use cipher_lake.Iam.Glob.{glob_loop}

mul_step : (a b k : ℕ) → a < b → a * k + k ≤ b * k
mul_step a b k h = grind arith

square_step : (a b : ℕ) → a ≤ b → a * suc b < suc b * suc b
square_step a b h = grind arith

-- `star` was set inside the pattern `p` comes from, and at most `n` bytes of text are left to it.
abbrev pub Fits : ℕ → Option (Str × Str) → Str → Str → ℕ → Type 0
Fits n none p s fuel = (length s ≤ n) × (suc (length p) * (suc n * suc n) + length s < fuel)
Fits n (some (q, t)) p s fuel =
    (length p ≤ length q)
    × (length s ≤ length t)
    × (length t ≤ n)
    × (length q * (suc n * suc n) + length t * suc n + length s < fuel)

pub glob_loop_total :
    (n fuel : ℕ) (p s : Str) (star : Option (Str × Str))
    → Fits n star p s fuel
    → is_some (glob_loop fuel p s star) ≡ true
unfolding glob_loop
glob_loop_total n zero p s none h = absurd (omega arith)
glob_loop_total n zero p s (some (q, t)) h = absurd (omega arith)
glob_loop_total n (suc fuel) p [] star h = refl
glob_loop_total n (suc fuel) [] (d ∷ s) none h = refl
glob_loop_total n (suc fuel) [] (d ∷ s) (some (q, [])) h =
    glob_loop_total n fuel q [] (some (q, [])) (omega arith)
glob_loop_total n (suc fuel) [] (d ∷ s) (some (q, e ∷ t)) h =
    glob_loop_total n fuel q t (some (q, t)) (omega arith)
glob_loop_total n (suc fuel) (c ∷ p) (d ∷ s) none h = ground (
  arith,
  glob_loop_total n fuel p s none,
  glob_loop_total n fuel p (d ∷ s) (some (p, d ∷ s)),
  square_step (suc (length s)) n,
)
glob_loop_total n (suc fuel) (c ∷ p) (d ∷ s) (some (q, [])) h = absurd (omega arith)
glob_loop_total n (suc fuel) (c ∷ p) (d ∷ s) (some (q, e ∷ t)) h = ground (
  arith,
  glob_loop_total n fuel p s (some (q, e ∷ t)),
  glob_loop_total n fuel p (d ∷ s) (some (p, d ∷ s)),
  glob_loop_total n fuel q t (some (q, t)),
  square_step (suc (length s)) n,
  mul_step (length p) (length q) (suc n * suc n),
)
