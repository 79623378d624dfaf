-- ===== src/Prelude/Decimal.antt =====
-- `strconv.ParseInt(s, 10, 64)` on the bytes of a string.
use Prim.Native.Nat.{ℕ, ◌+◌, ◌-◌, ◌*◌, ◌^◌}
use mathlib.Core.Bool.{◌&&◌}
use mathlib.Core.List.{[], ◌∷◌}
use mathlib.Core.Option.{Option, none, some}
use mathlib.Core.Path.{◌≡◌, refl}
use cipher_lake.Prelude.Tests.{ltb, leb, nat_beq, if◌then◌else◌}
use cipher_lake.Prelude.Bytes.{Str, bytes}
use cipher_lake.Prelude.Int.{ℤ, pos, negsuc}

-- The digits behind a number.
abbrev digits_after : ℕ → Str → Option ℕ
digits_after n [] = some n
digits_after n (c ∷ s) =
    let rest = digits_after (n * 10 + (c - 48)) s in if leb 48 c && leb c 57 then rest else none

abbrev digits : Str → Option ℕ
digits [] = none
digits (c ∷ s) = digits_after 0 (c ∷ s)

-- Within int64: up to 2 ^ 63 - 1, and down to -2 ^ 63.
abbrev positive : Option ℕ → Option ℤ
positive none = none
positive (some n) = if ltb n (2 ^ 63) then some (pos n) else none

abbrev negative : Option ℕ → Option ℤ
negative none = none
negative (some n) =
    if nat_beq n 0 then some (pos 0) else if leb n (2 ^ 63) then some (negsuc (n - 1)) else none

-- An optional sign, then digits alone.
unfoldable pub parse_int : Str → Option ℤ
parse_int [] = none
parse_int (c ∷ s) =
    if nat_beq c 43
    then positive (digits s)
    else if nat_beq c 45
    then negative (digits s)
    else positive (digits (c ∷ s))

parse_int-bounds :
    (parse_int (bytes "9223372036854775807") ≡ some (pos (2 ^ 63 - 1)))
    × (parse_int (bytes "9223372036854775808") ≡ none)
    × (parse_int (bytes "-9223372036854775808") ≡ some (negsuc (2 ^ 63 - 1)))
unfolding parse_int
parse_int-bounds = (refl, refl, refl)

parse_int-refuses :
    (parse_int [] ≡ none) × (parse_int (bytes "-") ≡ none) × (parse_int (bytes "1_0") ≡ none)
unfolding parse_int
parse_int-refuses = (refl, refl, refl)
