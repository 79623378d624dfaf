-- ===== src/Iam/Glob.antt =====
-- `globMatch` of internal/iam/policy.go: wildcard matching with one remembered star.
-- An index into a string is the suffix that starts there, so `pi == len(pattern)` reads `p` is [],
-- and `starIdx != -1` reads `star` is `some (q, t)`: `q` is the pattern behind the star, and `t` the
-- text from `matchIdx` on.
pub mod Reference
pub mod Sound
pub mod Complete
pub mod Total
pub mod Correct
use Reference.{star_byte, any_byte}
use cipher_lake.Prelude.{
  ℕ, zero, suc, ◌+◌, ◌*◌, Bool, true, false, ◌||◌, Option, none, some, List, [], ◌∷◌, Str, nat_beq,
  if◌then◌else◌, length, tail, get_or,
}

-- The trailing loop: skip stars, and see whether the pattern is used up.
pub only_stars : Str → Bool
only_stars [] = true
only_stars (c ∷ p) = let rest = only_stars p in if nat_beq c star_byte then rest else false

-- The main loop. `none` means that the fuel ran out. `retry` goes back to the last star and lets it
-- take one more byte.
pub glob_loop : ℕ → Str → Str → Option (Str × Str) → Option Bool
glob_loop zero p s star = none
glob_loop (suc fuel) p [] star = some (only_stars p)
glob_loop (suc fuel) [] (d ∷ s) star = elim star [
  | none ↦ some false
  | some (q, t) ↦ glob_loop fuel q (tail t) (some (q, tail t))
]
glob_loop (suc fuel) (c ∷ p) (d ∷ s) star =
    let advance = glob_loop fuel p s star in
    let open_star = glob_loop fuel p (d ∷ s) (some (p, d ∷ s)) in
    let retry : Option Bool = elim star [
      | none ↦ some false
      | some (q, t) ↦ glob_loop fuel q (tail t) (some (q, tail t))
    ] in
    if nat_beq c d || nat_beq c any_byte
    then advance
    else if nat_beq c star_byte
    then open_star
    else retry

-- Enough rounds for any run on a pattern and a text of these lengths.
abbrev pub rounds : ℕ → ℕ → ℕ
rounds m n = suc (suc m * (suc n * suc n) + n)

-- The whole function; `Total` shows that the fuel never runs out.
unfoldable pub glob_match : Str → Str → Bool
unfolding only_stars glob_loop
glob_match pattern str =
    get_or (glob_loop (rounds (length pattern) (length str)) pattern str none) false
