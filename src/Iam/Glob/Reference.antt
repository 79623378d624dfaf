-- ===== src/Iam/Glob/Reference.antt =====
-- What a wildcard pattern means, with no backtracking: `*` stands for any bytes, `?` for one byte,
-- and any other byte for itself. `globMatch` of internal/iam/policy.go is held to this.
use cipher_lake.Prelude.{
  ℕ, Bool, true, false, ◌||◌, ◌&&◌, [], ◌∷◌, Str, nat_beq, if◌then◌else◌, ◌≡◌, refl, arith, tail,
  is_nil,
}

-- '*' and '?'
abbrev pub star_byte : ℕ
star_byte = 42

abbrev pub any_byte : ℕ
any_byte = 63

-- Does some suffix of the text pass the test?
unfoldable pub any_suffix : (Str → Bool) → Str → Bool
any_suffix f [] = f []
any_suffix f (c ∷ s) = f (c ∷ s) || any_suffix f s

unfoldable pub match_byte : ℕ → (Str → Bool) → Str → Bool
match_byte c f [] = false
match_byte c f (d ∷ s) = (nat_beq c d || nat_beq c any_byte) && f s

unfoldable pub matches : Str → Str → Bool
unfolding any_suffix match_byte
matches [] s = is_nil s
matches (c ∷ p) s =
    let rest = matches p in if nat_beq c star_byte then any_suffix rest s else match_byte c rest s

pub any_suffix-tail : (f : Str → Bool) (s : Str) → any_suffix f s ≡ (f s || any_suffix f (tail s))
unfolding any_suffix
any_suffix-tail f [] = ground arith
any_suffix-tail f (c ∷ s) = refl

pub any_suffix_idem : (f : Str → Bool) (s : Str) → any_suffix (any_suffix f) s ≡ any_suffix f s
unfolding any_suffix
any_suffix_idem f [] = refl
any_suffix_idem f (c ∷ s) = ground (arith, any_suffix_idem f s)

-- A suffix that starts with one ordinary pattern byte leaves a suffix of the shorter text.
pub any_suffix-match_byte :
    (c d : ℕ) (f : Str → Bool) (s : Str)
    → any_suffix (match_byte c f) (d ∷ s) ≡ true
    → any_suffix f s ≡ true
unfolding any_suffix match_byte
any_suffix-match_byte c d f [] h = ground arith
any_suffix-match_byte c d f (e ∷ s) h = ground (arith, any_suffix-match_byte c e f s)

pub matches-cons :
    (c : ℕ) (p s : Str)
    → matches (c ∷ p) s
      ≡ (if nat_beq c star_byte then any_suffix (matches p) s else match_byte c (matches p) s)
unfolding matches
matches-cons c p s = refl

pub matches-nil : (s : Str) → matches [] s ≡ is_nil s
unfolding matches
matches-nil s = refl
