-- ===== src/Iam/Glob/Sound.antt =====
-- `globMatch` of internal/iam/policy.go accepts only what the pattern means.
use cipher_lake.Prelude.{
  ℕ, zero, suc, Bool, true, false, ◌||◌, Option, none, some, [], ◌∷◌, Str, ◌≡◌, refl, arith, tail,
}
use cipher_lake.Iam.Glob.Reference.{any_suffix, any_suffix-tail, match_byte, matches, matches-cons}
use cipher_lake.Iam.Glob.{glob_loop, only_stars}

-- What a later retry from the remembered star can still match.
unfoldable pub retry_matches : Option (Str × Str) → Bool
retry_matches none = false
retry_matches (some (q, t)) = any_suffix (matches q) (tail t)

pub only_stars-eq : (p : Str) → only_stars p ≡ matches p []
unfolding only_stars matches
only_stars-eq [] = refl
only_stars-eq (c ∷ p) = ground (arith, only_stars-eq p)

pub glob_loop-Sound :
    (fuel : ℕ) (p s : Str) (star : Option (Str × Str))
    → glob_loop fuel p s star ≡ some true
    → (matches p s || retry_matches star) ≡ true
unfolding glob_loop retry_matches match_byte
glob_loop-Sound zero p s star h = ground arith
glob_loop-Sound (suc fuel) p [] star h = ground (arith, only_stars-eq p)
glob_loop-Sound (suc fuel) [] (d ∷ s) none h = ground arith
glob_loop-Sound (suc fuel) [] (d ∷ s) (some (q, t)) h = ground (
  arith,
  glob_loop-Sound fuel q (tail t) (some (q, tail t)),
  any_suffix-tail (matches q) (tail t),
)
glob_loop-Sound (suc fuel) (c ∷ p) (d ∷ s) none h = ground (
  arith,
  matches-cons c p (d ∷ s),
  glob_loop-Sound fuel p s none,
  glob_loop-Sound fuel p (d ∷ s) (some (p, d ∷ s)),
  any_suffix-tail (matches p) (d ∷ s),
  any_suffix-tail (matches p) s,
)
glob_loop-Sound (suc fuel) (c ∷ p) (d ∷ s) (some (q, t)) h = ground (
  arith,
  matches-cons c p (d ∷ s),
  glob_loop-Sound fuel p s (some (q, t)),
  glob_loop-Sound fuel p (d ∷ s) (some (p, d ∷ s)),
  glob_loop-Sound fuel q (tail t) (some (q, tail t)),
  any_suffix-tail (matches p) (d ∷ s),
  any_suffix-tail (matches p) s,
  any_suffix-tail (matches q) (tail t),
)
