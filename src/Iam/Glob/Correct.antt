-- ===== src/Iam/Glob/Correct.antt =====
-- `globMatch` of internal/iam/policy.go against the meaning of a pattern.
use cipher_lake.Prelude.{
  ℕ, zero, suc, Bool, true, false, none, some, [], ◌∷◌, ◌++◌, Str, ◌≡◌, arith, length, some-get_or,
  ap, sym, ◌∙◌, inl, inr, Bool-cases,
}
use cipher_lake.Iam.Glob.Reference.{
  star_byte, any_suffix, any_suffix-tail, match_byte, matches, matches-cons, matches-nil,
}
use cipher_lake.Iam.Glob.{glob_loop, glob_match, rounds}
use cipher_lake.Iam.Glob.Sound.{retry_matches, glob_loop-Sound}
use cipher_lake.Iam.Glob.Complete.{NoStar, glob_loop-Complete}
use cipher_lake.Iam.Glob.Total.{glob_loop_total}

-- The call ends within its rounds, with the verdict that the loop returns.
pub glob_loop-glob_match :
    (p s : Str) → glob_loop (rounds (length p) (length s)) p s none ≡ some (glob_match p s)
unfolding glob_match
glob_loop-glob_match p s =
    some-get_or _ false
      (glob_loop_total (length s) (rounds (length p) (length s)) p s none (omega arith))

-- Whatever the text, an accepted text is one that the pattern means.
pub glob_match_sound : (p s : Str) → glob_match p s ≡ true → matches p s ≡ true
glob_match_sound p s h =
    unfold retry_matches in
    ground (arith, glob_loop-Sound _ p s none (glob_loop-glob_match p s ∙ ap some h))

-- On a text with no star byte the matcher decides what the pattern means.
pub glob_match-eq-matches : (p s : Str) → NoStar s → glob_match p s ≡ matches p s
glob_match-eq-matches p s n = elim (Bool-cases (matches p s)) [
  | inl yes_matches ↦
      glob_loop-Complete _ p s none _ n tt (glob_loop-glob_match p s) (ground arith)
      ∙ sym yes_matches
  | inr misses ↦ ground (arith, glob_match_sound p s)
]

any_suffix-matches-nil : (s : Str) → any_suffix (matches []) s ≡ true
unfolding any_suffix
any_suffix-matches-nil [] = matches-nil []
any_suffix-matches-nil (d ∷ s) = ground (arith, any_suffix-matches-nil s)

matches-prefix : (l s : Str) → matches (l ++ star_byte ∷ []) (l ++ s) ≡ true
unfolding match_byte
matches-prefix [] s = rw matches-cons (any_suffix-matches-nil s)
matches-prefix (c ∷ l) s = ground (
  arith,
  matches-cons c (l ++ star_byte ∷ []) (c ∷ (l ++ s)),
  any_suffix-tail (matches (l ++ star_byte ∷ [])) (c ∷ (l ++ s)),
  any_suffix-tail (matches (l ++ star_byte ∷ [])) (l ++ s),
  matches-prefix l s,
)

loop_ends : (fuel c : ℕ) (s : Str) (b : Bool) → glob_loop fuel [] (c ∷ s) none ≡ some b → b ≡ false
unfolding glob_loop
loop_ends zero c s b h = ground arith
loop_ends (suc fuel) c s b h = ground arith

loop_misses :
    (fuel : ℕ) (l s : Str) (c : ℕ) (b : Bool)
    → glob_loop fuel (l ++ star_byte ∷ []) (l ++ star_byte ∷ c ∷ s) none ≡ some b
    → b ≡ false
unfolding glob_loop
loop_misses zero l s c b h = ground arith
loop_misses (suc fuel) [] s c b h = loop_ends fuel c s b h
loop_misses (suc fuel) (d ∷ l) s c b h = ground (arith, loop_misses fuel l s c b)

-- A star byte in the text at the place of the pattern's last star is taken for a literal: the
-- pattern means the text, and the matcher refuses it, whatever stands before and behind the star.
pub glob_match_misses_star :
    (l s : Str) (c : ℕ)
    → (glob_match (l ++ star_byte ∷ []) (l ++ star_byte ∷ c ∷ s) ≡ false)
      × (matches (l ++ star_byte ∷ []) (l ++ star_byte ∷ c ∷ s) ≡ true)
glob_match_misses_star l s c =
    (loop_misses _ l s c _ (glob_loop-glob_match _ _), matches-prefix l (star_byte ∷ c ∷ s))
