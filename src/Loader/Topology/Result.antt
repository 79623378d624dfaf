-- ===== src/Loader/Topology/Result.antt =====
-- What internal/pluginloader/topology.go returns: an order of all plugins, or the finding of a cycle.
use cipher_lake.Prelude.{
  ℕ, zero, suc, ◌+◌, ◌≤◌, ◌<◌, List, [], ◌∷◌, Str, str_eq, str_eq_iff, any, length, lookup, nat_beq,
  ◌≡◌, ◌⊎◌, inl, inr, refl, arith, ap, subst, ◌∙◌, Bool-cases,
}
use cipher_lake.Loader.Topology.{
  PluginRecord, Degrees, names_of, edges_of, add_edges, initial_degrees, roots, judged,
  reversed_onto, sort_strings, ordered, cycle, topological_order,
}
use cipher_lake.Loader.Topology.Counts.{occ, occ-any, open_edges, children-add_edges}
use cipher_lake.Loader.Topology.Search.{IsRound}
use cipher_lake.Loader.Topology.Order.{
  occ-length, occ-full, placed_lem, IsInOrder, reversed_onto-IsInOrder, place_lem,
}
use cipher_lake.Loader.Topology.Known.{
  names_of-IsOnce, IsInside, edges_of-IsInside, targets-IsInside, roots-IsRound,
}

-- A rank that falls from a plugin to its dependencies, which there is unless they form a cycle.
abbrev pub IsRanked : (Str → ℕ) → List (Str × Str) → Type 0
IsRanked rank [] = Unit
IsRanked rank ((d, n) ∷ edges) = (rank d < rank n) × IsRanked rank edges

-- An open edge leads to a name that is not placed, of a lower rank.
open_edge :
    (rank : Str → ℕ) (names done : List Str) (edges : List (Str × Str)) (x : Str)
    → IsInside names edges
    → IsRanked rank edges
    → 1 ≤ open_edges x done edges
    → (d : Str) × (occ d names ≡ 1) × (occ d done ≡ 0) × (rank d < rank x)
open_edge rank names done [] x h k e = absurd (omega (arith, e))
open_edge rank names done ((d, n) ∷ edges) x (a, b, h) (less, k) e =
    elim (Bool-cases (str_eq n x)) [
      | inr other ↦ open_edge rank names done edges x h k (ground (arith, e, other))
      | inl same ↦
          let lower : rank d < rank x =
            subst (λ i. rank d < rank i) ((str_eq_iff n x).0 same) less in
          elim (Bool-cases (any (str_eq d) done)) [
            | inl closed ↦ open_edge rank names done edges x h k (ground (arith, e, closed, same))
            | inr fresh ↦ (d, a, occ-any d done fresh, lower)
          ]
    ]

module _ (edges : List (Str × Str)) (names : List Str) (rank : Str → ℕ)
    (inside : IsInside names edges) (ranked : IsRanked rank edges) where
  -- With an empty queue, no name of a rank below the bound is left.
  all_placed :
      (degrees : Degrees) (done : List Str)
      → IsRound edges names [] degrees [] done
      → (bound : ℕ) (x : Str) → rank x < bound
      → occ x names ≡ 1
      → occ x done ≡ 1
  all_placed degrees done r zero x below there = absurd (omega (arith, below))
  all_placed degrees done r (suc bound) x below there = elim (r.settled x there) [
    | inl (q, o) ↦ omega (arith, q)
    | inr (q, o) ↦
        let (d, known, left, lower) =
          open_edge rank names done edges x inside ranked (omega (arith, o)) in
        absurd (
          omega
            (arith, all_placed degrees done r bound d (omega (arith, lower, below)) known, left))
  ]

reversed :
    (x : Str) (done rest : List Str) → occ x (reversed_onto done rest) ≡ occ x done + occ x rest
reversed x [] rest = omega arith
reversed x (y ∷ done) rest = ground (arith, reversed x done (y ∷ rest))

-- The plugins of an order are those of the records, each once, and come after what they depend on.
abbrev pub IsOrderOf : List PluginRecord → List Str → Type 0
IsOrderOf records names =
    ((x : Str) → occ x names ≡ occ x (names_of records))
    × IsInOrder (edges_of records records) [] names

-- The order holds every plugin of the records once, each after the ones among them that it depends on; a cycle is
-- found only where no rank falls from every plugin to what it depends on. The rounds suffice for either.
pub topological_order_lem :
    (records : List PluginRecord)
    → ((names : List Str) × (topological_order records ≡ ordered names) × IsOrderOf records names)
      ⊎ ((topological_order records ≡ cycle)
          × ((rank : Str → ℕ) → ¬ IsRanked rank (edges_of records records)))
unfolding topological_order lookup
topological_order_lem records =
    let names = names_of records in
    let edges = edges_of records records in
    let once = names_of-IsOnce records in
    let inside = edges_of-IsInside records records (λ x h. h) in
    let built = add_edges edges ([], initial_degrees names) in
    let queue = sort_strings (roots built.1 names) in
    let (result, after, e, r, o) =
      place_lem edges names built.0 once
        (λ name x. ap (occ x) (children-add_edges name edges [] (initial_degrees names)))
        (λ name x h. targets-IsInside names edges name x inside h) (suc (length names)) built.1
        queue [] (omega arith) (roots-IsRound edges names) tt in
    let fits = placed_lem edges names built.0 once after [] result r in
    let result_is = ap (judged (length names)) e in
    elim (Bool-cases (nat_beq (length result) (length names))) [
      | inl same ↦ inl (
        reversed_onto result [],
        result_is ∙ rw same refl,
        (
          (λ x.
              omega
                (arith, reversed x result [], occ-full result names fits (ground (arith, same)) x)),
          reversed_onto-IsInOrder edges result [] o tt,
        ),
      )
      | inr fewer ↦ inr (
        result_is ∙ rw fewer refl,
        λ rank ranked.
            let all = all_placed edges names rank inside ranked after result r in
            ground (
              arith,
              fewer,
              occ-length result names fits,
              occ-length names result (λ x. reaches (once x) (all (suc (rank x)) x (omega arith))),
            ),
      )
    ]
  where
    reaches : {m n : ℕ} → (m ≡ 0) ⊎ (m ≡ 1) → (m ≡ 1 → n ≡ 1) → m ≤ n
    reaches (inl none_) h = omega (arith, none_)
    reaches (inr one) h = omega (arith, h one, one)
