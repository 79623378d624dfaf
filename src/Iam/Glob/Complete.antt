-- ===== src/Iam/Glob/Complete.antt =====
-- `globMatch` of internal/iam/policy.go accepts all that the pattern means, on a text with no star
-- byte: giving up the older star for a newer one loses nothing.
use mathlib.Core.Path.{fun_ext}
use cipher_lake.Prelude.{
  ℕ, zero, suc, Bool, true, false, ◌||◌, Option, none, some, [], ◌∷◌, Str, ◌≡◌, arith, tail,
  nat_beq, ◌∙◌,
}
use cipher_lake.Iam.Glob.Reference.{
  star_byte, any_suffix, any_suffix-tail, any_suffix_idem, any_suffix-match_byte, match_byte,
  matches, matches-cons, matches-nil,
}
use cipher_lake.Iam.Glob.{glob_loop}
use cipher_lake.Iam.Glob.Sound.{retry_matches, only_stars-eq}

-- The text holds no star byte.
abbrev pub NoStar : Str → Type 0
NoStar [] = Unit {0}
NoStar (d ∷ s) = (nat_beq d star_byte ≡ false) × NoStar s

NoStar-tail : (s : Str) → NoStar s → NoStar (tail s)
NoStar-tail [] h = tt
NoStar-tail (d ∷ s) h = h.1

-- The loop came from the star's state `q`, `t` to `p`, `s` by ordinary bytes alone.
pub data Reached (q t : Str) : Str → Str → Type 0 where
  here : Reached q t q t
  step :
      {c d : ℕ} {p s : Str}
      → nat_beq c star_byte ≡ false
      → Reached q t (c ∷ p) (d ∷ s)
      → Reached q t p s

matches-ordinary :
    (c : ℕ) (p : Str) → nat_beq c star_byte ≡ false → matches (c ∷ p) ≡ match_byte c (matches p)
matches-ordinary c p h = fun_ext (λ s. matches-cons c p s ∙ rw h)

matches-star :
    (c : ℕ) (p : Str) → nat_beq c star_byte ≡ true → matches (c ∷ p) ≡ any_suffix (matches p)
matches-star c p h = fun_ext (λ s. matches-cons c p s ∙ rw h)

Reached-any_suffix :
    {q t p s : Str}
    → Reached q t p s
    → any_suffix (matches q) t ≡ true
    → any_suffix (matches p) s ≡ true
Reached-any_suffix here h = h
Reached-any_suffix (step {c = c} {d = d} {p = p} {s = s} o r) h =
    any_suffix-match_byte c d (matches p) s
      (rw (matches-ordinary c p o) at (Reached-any_suffix r h))

-- What a newer star can match includes what the older one could.
newer_star :
    (c : ℕ) (q t p s : Str)
    → nat_beq c star_byte ≡ true
    → Reached q t (c ∷ p) s
    → any_suffix (matches q) (tail t) ≡ true
    → any_suffix (matches p) s ≡ true
newer_star c q t p s e r h =
    rw any_suffix_idem at (rw (matches-star c p e) at (Reached-any_suffix r whole))
  where
    whole : any_suffix (matches q) t ≡ true
    whole = ground (arith, any_suffix-tail (matches q) t)

-- The remembered star of a reachable state, over a text with no star byte.
abbrev pub IsReached : Option (Str × Str) → Str → Str → Type 0
IsReached none p s = Unit {0}
IsReached (some (q, t)) p s = Reached q t p s × NoStar t

IsReached-step :
    (c d : ℕ) (p s : Str) (star : Option (Str × Str))
    → nat_beq c star_byte ≡ false
    → IsReached star (c ∷ p) (d ∷ s)
    → IsReached star p s
IsReached-step c d p s none h r = tt
IsReached-step c d p s (some (q, t)) h r = (step h r.0, r.1)

IsReached-newer :
    (c : ℕ) (p s : Str) (star : Option (Str × Str))
    → nat_beq c star_byte ≡ true
    → IsReached star (c ∷ p) s
    → retry_matches star ≡ true
    → any_suffix (matches p) s ≡ true
unfolding retry_matches
IsReached-newer c p s none e r h = ground arith
IsReached-newer c p s (some (q, t)) e r h = newer_star c q t p s e r.0 h

-- At the end of the text the trailing stars are all that the retries could still use.
IsReached-end :
    (p : Str) (star : Option (Str × Str))
    → IsReached star p []
    → (matches p [] || retry_matches star) ≡ true
    → matches p [] ≡ true
unfolding retry_matches any_suffix
IsReached-end p none r h = ground arith
IsReached-end p (some (q, t)) r h =
    ground (arith, any_suffix-tail (matches q) t, Reached-any_suffix r.0)

-- What the loop returns is what the pattern means from the state, or from a later retry.
pub glob_loop-Complete :
    (fuel : ℕ) (p s : Str) (star : Option (Str × Str)) (b : Bool)
    → NoStar s
    → IsReached star p s
    → glob_loop fuel p s star ≡ some b
    → (matches p s || retry_matches star) ≡ true
    → b ≡ true
unfolding glob_loop retry_matches match_byte
glob_loop-Complete zero p s star b n r e h = ground arith
glob_loop-Complete (suc fuel) p [] star b n r e h =
    ground (arith, only_stars-eq p, IsReached-end p star r h)
glob_loop-Complete (suc fuel) [] (d ∷ s) none b n r e h = ground (arith, matches-nil (d ∷ s))
glob_loop-Complete (suc fuel) [] (d ∷ s) (some (q, t)) b n r e h =
    glob_loop-Complete fuel q (tail t) (some (q, tail t)) b (NoStar-tail t r.1)
      (here, NoStar-tail t r.1) e
      (ground (arith, any_suffix-tail (matches q) (tail t), matches-nil (d ∷ s)))
glob_loop-Complete (suc fuel) (c ∷ p) (d ∷ s) none b n r e h = ground (
  arith,
  matches-cons c p (d ∷ s),
  any_suffix-tail (matches p) (d ∷ s),
  glob_loop-Complete fuel p s none b n.1 tt,
  glob_loop-Complete fuel p (d ∷ s) (some (p, d ∷ s)) b n (here, n),
)
glob_loop-Complete (suc fuel) (c ∷ p) (d ∷ s) (some (q, t)) b n r e h = ground (
  arith,
  matches-cons c p (d ∷ s),
  any_suffix-tail (matches p) (d ∷ s),
  any_suffix-tail (matches q) (tail t),
  newer_star c q t p (d ∷ s),
  r.0,
  λ (o : nat_beq c star_byte ≡ false).
      glob_loop-Complete fuel p s (some (q, t)) b n.1 (step o r.0, r.1),
  glob_loop-Complete fuel p (d ∷ s) (some (p, d ∷ s)) b n (here, n),
  glob_loop-Complete fuel q (tail t) (some (q, tail t)) b (NoStar-tail t r.1)
      (here, NoStar-tail t r.1),
)
