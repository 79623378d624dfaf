-- ===== src/Prelude/Maps.antt =====
-- Go maps as association lists. A type that keys a map has a test of equality; the first entry of a
-- key counts, and writing a key drops its older entries.
use Prim.Native.Nat.{ℕ}
use Prim.Native.String.{String}
use mathlib.Core.Bool.{Bool, true, ◌&&◌}
use mathlib.Core.List.{List, [], ◌∷◌}
use mathlib.Core.Logic.{◌↔◌}
use mathlib.Core.Option.{Option, none, some}
use mathlib.Core.Path.{◌≡◌}
use native.Mathlib.Omega.{arith}
use text.Mathlib.Text.{◌==◌ as text_same}
use text.Mathlib.TextEquality.{eq_iff}
use cipher_lake.Prelude.Bytes.{Str, str_eq, str_eq_iff}
use cipher_lake.Prelude.Tests.{if◌then◌else◌, nat_beq, nat_beq_iff}

pub record MapKey {ℓ} (K : Type ℓ) : Type ℓ where
  pub same : K → K → Bool
  pub same_iff : (j k : K) → (same j k ≡ true) ↔ (j ≡ k)

instance abbrev pub str_key : MapKey Str
str_key = record { same = str_eq; same_iff = str_eq_iff }

instance abbrev pub text_key : MapKey String
text_key = record { same = text_same; same_iff = eq_iff }

instance abbrev pub nat_key : MapKey ℕ
nat_key = record { same = nat_beq; same_iff = nat_beq_iff }

unfoldable pub pair_same : Str × Str → Str × Str → Bool
pair_same (a, b) (c, d) = str_eq a c && str_eq b d

pub pair_same_iff : (p q : Str × Str) → (pair_same p q ≡ true) ↔ (p ≡ q)
unfolding pair_same
pair_same_iff (a, b) (c, d) = ground (arith, str_eq_iff a c, str_eq_iff b d)

-- Objects are kept under their bucket and key.
instance abbrev pub pair_key : MapKey (Str × Str)
pair_key = record { same = pair_same; same_iff = pair_same_iff }

module _ {ℓ κ} {K : Type ℓ} {V : Type κ} ⦃key : MapKey K⦄ where
  unfoldable pub lookup : K → List (K × V) → Option V
  lookup k [] = none
  lookup k ((j, v) ∷ entries) = if key.same k j then some v else lookup k entries

  unfoldable pub remove : K → List (K × V) → List (K × V)
  remove k [] = []
  remove k ((j, v) ∷ entries) =
      let kept = remove k entries in if key.same k j then kept else (j, v) ∷ kept

  unfoldable pub insert : K → V → List (K × V) → List (K × V)
  insert k v entries = (k, v) ∷ remove k entries

  -- A removed key reads as missing, and every other key as before.
  pub lookup-remove :
      (j k : K) (entries : List (K × V))
      → lookup k (remove j entries) ≡ (if key.same j k then none else lookup k entries)
  unfolding lookup remove
  lookup-remove j k [] = ground arith
  lookup-remove j k ((i, v) ∷ entries) =
      let ih = lookup-remove j k entries in
      ground (arith, ih, key.same_iff j i, key.same_iff k i, key.same_iff j k)

  -- A written key reads as written, and every other key as before.
  pub lookup-insert :
      (j k : K) (v : V) (entries : List (K × V))
      → lookup k (insert j v entries) ≡ (if key.same j k then some v else lookup k entries)
  unfolding lookup insert
  lookup-insert j k v entries =
      ground (arith, lookup-remove j k entries, key.same_iff j k, key.same_iff k j)

  pub lookup-inserted :
      (k : K) (v : V) (entries : List (K × V)) → lookup k (insert k v entries) ≡ some v
  lookup-inserted k v entries = ground (arith, lookup-insert k k v entries, key.same_iff k k)

  pub lookup-removed : (k : K) (entries : List (K × V)) → lookup k (remove k entries) ≡ none
  lookup-removed k entries = ground (arith, lookup-remove k k entries, key.same_iff k k)

  pub ruleset map_laws = (lookup-remove, lookup-insert)
