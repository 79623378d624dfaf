-- ===== src/Loader/Topology/Order.antt =====
-- The order that internal/pluginloader/topology.go gives: fuel for its loop, and dependencies before what needs them.
use cipher_lake.Prelude.{
  ℕ, zero, suc, ◌+◌, ◌≤◌, true, false, List, [], ◌∷◌, Str, str_eq, str_eq_iff, length,
  if◌then◌else◌, ◌≡◌, ◌⊎◌, inl, inr, refl, arith, ap, subst, ◌∙◌, Bool-cases,
}
use cipher_lake.Loader.Topology.{
  Graph, Degrees, children, release, place, placed, reversed_onto, sort_strings,
}
use cipher_lake.Loader.Topology.Counts.{occ, targets, open_edges, occ-sort_strings}
use cipher_lake.Loader.Topology.Search.{IsRound, IsOnce, head_lem, next-IsRound, release-IsRound}

abbrev remove : Str → List Str → List Str
remove x [] = []
remove x (y ∷ ys) = let rest = remove x ys in if str_eq y x then ys else y ∷ rest

occ-remove : (x z : Str) (ys : List Str) → 1 ≤ occ x ys → occ z ys ≡ occ z (x ∷ remove x ys)
occ-remove x z [] h = absurd (omega (arith, h))
occ-remove x z (y ∷ ys) h = elim (Bool-cases (str_eq y x)) [
  | inl same ↦ rw same (ap (λ i. occ z (i ∷ ys)) ((str_eq_iff y x).0 same))
  | inr other ↦
      let inner : 1 ≤ occ x ys = ground (arith, h, other) in
      let ih = occ-remove x z ys inner in rw other (ground (arith, ih))
]

length-remove : (x : Str) (ys : List Str) → 1 ≤ occ x ys → length ys ≡ suc (length (remove x ys))
length-remove x [] h = absurd (omega (arith, h))
length-remove x (y ∷ ys) h = elim (Bool-cases (str_eq y x)) [
  | inl same ↦ rw same refl
  | inr other ↦
      let inner : 1 ≤ occ x ys = ground (arith, h, other) in
      let ih = length-remove x ys inner in rw other (ground (arith, ih))
]

-- A list that has each name no more often than another one is no longer.
pub occ-length : (xs ys : List Str) → ((x : Str) → occ x xs ≤ occ x ys) → length xs ≤ length ys
occ-length [] ys h = omega arith
occ-length (x ∷ xs) ys h =
    let same = (str_eq_iff x x).1 refl in
    let now : occ x (x ∷ xs) ≡ suc (occ x xs) = rw same refl in
    let inside : 1 ≤ occ x ys = omega (arith, h x, now) in
    let ih = occ-length xs (remove x ys) (λ z. ground (arith, h z, occ-remove x z ys inside)) in
    omega (arith, ih, length-remove x ys inside)

-- Of the same length, it has each name as often.
missing-length :
    (xs ys : List Str) (x : Str)
    → ((z : Str) → occ z xs ≤ occ z ys)
    → suc (occ x xs) ≤ occ x ys
    → suc (length xs) ≤ length ys
missing-length xs ys x h less =
    let there : 1 ≤ occ x ys = omega (arith, less) in
    let ih = occ-length xs (remove x ys) (λ z. fewer z there (Bool-cases (str_eq x z))) in
    omega (arith, ih, length-remove x ys there)
  where
    fewer :
        (z : Str)
        → 1 ≤ occ x ys
        → (str_eq x z ≡ true) ⊎ (str_eq x z ≡ false)
        → occ z xs ≤ occ z (remove x ys)
    fewer z there (inl same) =
        let e = (str_eq_iff x z).0 same in
        let less_z : suc (occ z xs) ≤ occ z ys = subst (λ i. suc (occ i xs) ≤ occ i ys) e less in
        ground (arith, occ-remove x z ys there, same, less_z)
    fewer z there (inr other) = ground (arith, occ-remove x z ys there, other, h z)

pub occ-full :
    (xs ys : List Str)
    → ((z : Str) → occ z xs ≤ occ z ys)
    → length ys ≤ length xs
    → (x : Str) → occ x xs ≡ occ x ys
occ-full xs ys h same x = ground (arith, h x, missing-length xs ys x h)

module _ (edges : List (Str × Str)) where
  -- Newest first: when a name was placed, what it depends on had been.
  abbrev pub IsPlacedInOrder : List Str → Type 0
  IsPlacedInOrder [] = Unit
  IsPlacedInOrder (x ∷ done) = (open_edges x done edges ≡ 0) × IsPlacedInOrder done

  -- Oldest first, after those that came before.
  abbrev pub IsInOrder : List Str → List Str → Type 0
  IsInOrder before [] = Unit
  IsInOrder before (x ∷ xs) = (open_edges x before edges ≡ 0) × IsInOrder (x ∷ before) xs

  pub reversed_onto-IsInOrder :
      (done rest : List Str)
      → IsPlacedInOrder done
      → IsInOrder done rest
      → IsInOrder [] (reversed_onto done rest)
  reversed_onto-IsInOrder [] rest h k = k
  reversed_onto-IsInOrder (x ∷ done) rest (o, h) k =
      reversed_onto-IsInOrder done (x ∷ rest) h (o, k)

  module _ (names : List Str) (graph : Graph) (once : IsOnce edges names) where
    pub placed_lem :
        (degrees : Degrees) (queue done : List Str)
        → IsRound edges names [] degrees queue done
        → (x : Str) → occ x done ≤ occ x names
    placed_lem degrees queue done r x = elim (once x) [
      | inl absent ↦ omega (arith, r.foreign x absent)
      | inr there ↦ elim (r.settled x there) [
        | inl (q, o) ↦ omega (arith, q, there)
        | inr (q, o) ↦ omega (arith, q)
      ]
    ]

    -- With a round for each name and one more, the loop ends, the queue empty.
    pub place_lem :
        ((name x : Str) → occ x (children graph name) ≡ occ x (targets name edges))
        → ((name x : Str) → occ x names ≡ 0 → occ x (targets name edges) ≡ 0)
        → (fuel : ℕ) (degrees : Degrees) (queue done : List Str)
        → fuel + length done ≡ suc (length names)
        → IsRound edges names [] degrees queue done
        → IsPlacedInOrder done
        → (result : List Str) × (after : Degrees) × (place fuel graph degrees queue done
            ≡ placed result)
          × IsRound edges names [] after [] result
          × IsPlacedInOrder result
    unfolding place
    place_lem same_children inside zero degrees queue done enough r o =
        absurd (omega (arith, enough, occ-length done names (placed_lem degrees queue done r)))
    place_lem same_children inside (suc fuel) degrees [] done enough r o =
        (done, degrees, refl, r, o)
    place_lem same_children inside (suc fuel) degrees (name ∷ queue) done enough r o =
        let pending = sort_strings (children graph name) in
        let begun =
          next-IsRound edges names name pending degrees queue done once
            (λ x. occ-sort_strings x (children graph name) ∙ same_children name x) (inside name)
            r in
        let ended = release-IsRound edges names pending degrees queue (name ∷ done) begun in
        place_lem same_children inside fuel (release pending degrees queue).0
          (release pending degrees queue).1 (name ∷ done) (omega (arith, enough)) ended
          ((head_lem edges names name degrees queue done once r).2, o)
