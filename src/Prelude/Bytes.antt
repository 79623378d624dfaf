-- ===== src/Prelude/Bytes.antt =====
-- Go strings that the program walks byte by byte: lists of byte values.
use Prim.Native.Nat.{ℕ, ◌+◌, ◌-◌}
use Prim.Native.Char.{code}
use Prim.Native.String.{String}
use mathlib.Core.Path.{◌≡◌, refl}
use mathlib.Core.Logic.{◌↔◌}
use mathlib.Core.Bool.{Bool, true, false, ◌&&◌, ◌||◌}
use mathlib.Core.List.{List, [], ◌∷◌, ◌++◌, map}
use native.Mathlib.Omega.{arith}
use mathlib.Core.Option.{Option, none, some}
use cipher_lake.Prelude.Tests.{nat_beq, ltb, leb, if◌then◌else◌}
use cipher_lake.Prelude.Lists.{
  length, is_nil, take, drop, any, drop-append, take-append, length-append_sub,
}

abbrev pub Str : Type 0
Str = List ℕ

-- The bytes of an ASCII literal.
abbrev pub bytes : String → Str
bytes String.[] = []
bytes (String.◌∷◌ c s) = code c ∷ bytes s

unfoldable pub str_eq : Str → Str → Bool
str_eq [] [] = true
str_eq (a ∷ s) (b ∷ t) = nat_beq a b && str_eq s t
str_eq _ _ = false

pub str_eq_iff : (s t : Str) → (str_eq s t ≡ true) ↔ (s ≡ t)
unfolding str_eq
str_eq_iff [] [] = ground arith
str_eq_iff [] (b ∷ t) = ground arith
str_eq_iff (a ∷ s) [] = ground arith
str_eq_iff (a ∷ s) (b ∷ t) = ground (arith, str_eq_iff s t)

-- `strings.HasPrefix`.
unfoldable pub has_prefix : Str → Str → Bool
has_prefix s [] = true
has_prefix [] (b ∷ p) = false
has_prefix (a ∷ s) (b ∷ p) = nat_beq a b && has_prefix s p

pub has_prefix-append : (p s : Str) → has_prefix (p ++ s) p ≡ true
unfolding has_prefix
has_prefix-append [] s = ground arith
has_prefix-append (a ∷ p) s = ground (arith, has_prefix-append p s)

-- `strings.TrimPrefix` of a prefix that is there; the string itself otherwise.
unfoldable pub trim_prefix : Str → Str → Str
unfolding has_prefix
trim_prefix s p = if has_prefix s p then drop (length p) s else s

pub trim_prefix-append : (p s : Str) → trim_prefix (p ++ s) p ≡ s
unfolding trim_prefix
trim_prefix-append p s = rw has_prefix-append (drop-append p s)

-- `strings.HasSuffix`.
unfoldable pub has_suffix : Str → Str → Bool
unfolding str_eq
has_suffix [] p = is_nil p
has_suffix (a ∷ s) p = str_eq (a ∷ s) p || has_suffix s p

pub has_suffix-append : (s p : Str) → has_suffix (s ++ p) p ≡ true
unfolding has_suffix
has_suffix-append [] [] = refl
has_suffix-append [] (b ∷ p) = ground (arith, str_eq_iff (b ∷ p) (b ∷ p))
has_suffix-append (a ∷ s) p = ground (arith, has_suffix-append s p)

-- `strings.TrimSuffix`.
unfoldable pub trim_suffix : Str → Str → Str
unfolding has_suffix
trim_suffix s p = if has_suffix s p then take (length s - length p) s else s

pub trim_suffix-append : (s p : Str) → trim_suffix (s ++ p) p ≡ s
unfolding trim_suffix
trim_suffix-append s p = rw has_suffix-append (rw (length-append_sub s p) (take-append s p))

-- `strings.ToLower` on ASCII.
abbrev pub lower_byte : ℕ → ℕ
lower_byte c = if leb 65 c && leb c 90 then c + 32 else c

abbrev pub to_lower : Str → Str
to_lower = map lower_byte

-- `strings.Contains` of one byte.
abbrev pub contains_byte : ℕ → Str → Bool
contains_byte b = any (nat_beq b)

-- `strings.SplitN(s, sep, 2)` at a one-byte separator: the part before the first one, and the rest
-- if there is one.
unfoldable pub split_first : ℕ → Str → Str × Option Str
split_first b [] = ([], none)
split_first b (c ∷ s) =
    let (before, rest) = split_first b s in if nat_beq c b then ([], some s) else (c ∷ before, rest)

pub split_first-append :
    (b : ℕ) (s t : Str) → contains_byte b s ≡ false → split_first b (s ++ b ∷ t) ≡ (s, some t)
unfolding split_first
split_first-append b [] t h = ground arith
split_first-append b (c ∷ s) t h = ground (arith, split_first-append b s t)

pub split_first-none : (b : ℕ) (s : Str) → contains_byte b s ≡ false → split_first b s ≡ (s, none)
unfolding split_first
split_first-none b [] h = refl
split_first-none b (c ∷ s) h = ground (arith, split_first-none b s)

-- The order of byte strings.
unfoldable pub bytes_before : Str → Str → Bool
bytes_before [] [] = false
bytes_before [] (b ∷ t) = true
bytes_before (a ∷ s) [] = false
bytes_before (a ∷ s) (b ∷ t) = ltb a b || (nat_beq a b && bytes_before s t)
