-- ===== src/Loader/Topology/Counts.antt =====
-- Counting names and edges for the order of plugins in internal/pluginloader/topology.go.
use cipher_lake.Prelude.{
  ℕ, zero, suc, ◌+◌, Bool, true, false, not, ◌&&◌, Option, some, List, [], ◌∷◌, ◌++◌, Str, str_eq,
  str_eq_iff, bytes_before, any, length, get_or, lookup, insert, lookup-insert, str_key, ℤ, pos,
  if◌then◌else◌, ◌≡◌, refl, arith, ap, sym, ◌∙◌, Bool-cases, inl, inr,
}
use mathlib.Core.List.{append_assoc, append-nil}
use cipher_lake.Loader.Topology.{
  Graph, Degrees, children, degree, plus_one, add_edges, exchange, sort_passes, sort_strings,
}

abbrev pub occ : Str → List Str → ℕ
occ x [] = 0
occ x (y ∷ ys) = let rest = occ x ys in if str_eq y x then suc rest else rest

pub occ-append : (x : Str) (xs ys : List Str) → occ x (xs ++ ys) ≡ occ x xs + occ x ys
occ-append x [] ys = omega arith
occ-append x (y ∷ xs) ys = ground (arith, occ-append x xs ys)

occ-exchange :
    (z x : Str) (ys : List Str) → occ z ((exchange x ys).0 ∷ (exchange x ys).1) ≡ occ z (x ∷ ys)
occ-exchange z x [] = refl
occ-exchange z x (y ∷ ys) = elim (Bool-cases (bytes_before y x)) [
  | inl less ↦ rw less (ground (arith, occ-exchange z y ys))
  | inr more ↦ rw more (ground (arith, occ-exchange z x ys))
]

occ-sort_passes : (z : Str) (n : ℕ) (xs : List Str) → occ z (sort_passes n xs) ≡ occ z xs
occ-sort_passes z zero xs = refl
occ-sort_passes z (suc n) [] = refl
occ-sort_passes z (suc n) (x ∷ xs) =
    ground (arith, occ-sort_passes z n (exchange x xs).1, occ-exchange z x xs)

pub occ-sort_strings : (z : Str) (xs : List Str) → occ z (sort_strings xs) ≡ occ z xs
unfolding sort_strings
occ-sort_strings z xs = occ-sort_passes z (length xs) xs

-- The names with a dependency on this one, with repetitions.
abbrev pub targets : Str → List (Str × Str) → List Str
targets dep [] = []
targets dep ((d, name) ∷ edges) =
    let rest = targets dep edges in if str_eq d dep then name ∷ rest else rest

-- The edges into a name whose dependencies are not placed.
abbrev pub open_edges : Str → List Str → List (Str × Str) → ℕ
open_edges x done [] = 0
open_edges x done ((d, name) ∷ edges) =
    let rest = open_edges x done edges in
    if str_eq name x && not (any (str_eq d) done) then suc rest else rest

-- A name that is placed closes its edges.
pub open_edges-place :
    (x n : Str) (done : List Str) (edges : List (Str × Str))
    → any (str_eq n) done ≡ false
    → open_edges x done edges ≡ open_edges x (n ∷ done) edges + occ x (targets n edges)
open_edges-place x n done [] h = omega arith
open_edges-place x n done ((d, name) ∷ edges) h = elim (Bool-cases (str_eq d n)) [
  | inl same ↦
      let ih = open_edges-place x n done edges h in
      let here : any (str_eq d) done ≡ false =
        ap (λ i. any (str_eq i) done) ((str_eq_iff d n).0 same) ∙ h in
      ground (arith, ih, here, same)
  | inr other ↦ let ih = open_edges-place x n done edges h in ground (arith, ih, other)
]

pub any-occ : (x : Str) (xs : List Str) → occ x xs ≡ 0 → any (str_eq x) xs ≡ false
any-occ x [] h = refl
any-occ x (y ∷ ys) h = ground (arith, any-occ x ys, str_eq_iff x y, str_eq_iff y x, h)

pub occ-any : (x : Str) (xs : List Str) → any (str_eq x) xs ≡ false → occ x xs ≡ 0
occ-any x [] h = refl
occ-any x (y ∷ ys) h = ground (arith, occ-any x ys, str_eq_iff x y, str_eq_iff y x, h)

children-insert :
    (d dep : Str) (names : List Str) (graph : Graph)
    → children (insert d names graph) dep ≡ (if str_eq d dep then names else children graph dep)
children-insert d dep names graph =
    ap (λ o. get_or o []) (lookup-insert d dep names graph) ∙ go (str_eq d dep) (lookup dep graph)
  where
    go :
        (b : Bool) (o : Option (List Str))
        → get_or (if b then some names else o) [] ≡ (if b then names else get_or o [])
    go true o = refl
    go false o = refl

pub degree-insert :
    (name x : Str) (d : ℤ) (degrees : Degrees)
    → degree (insert name d degrees) x ≡ (if str_eq name x then d else degree degrees x)
degree-insert name x d degrees =
    ap (λ o. get_or o (pos 0)) (lookup-insert name x d degrees)
    ∙ go (str_eq name x) (lookup x degrees)
  where
    go :
        (b : Bool) (o : Option ℤ)
        → get_or (if b then some d else o) (pos 0) ≡ (if b then d else get_or o (pos 0))
    go true o = refl
    go false o = refl

-- The graph and the degrees that the two loops build.
pub children-add_edges :
    (dep : Str) (edges : List (Str × Str)) (graph : Graph) (degrees : Degrees)
    → children (add_edges edges (graph, degrees)).0 dep ≡ children graph dep ++ targets dep edges
unfolding add_edges
children-add_edges dep [] graph degrees = sym (append-nil (children graph dep))
children-add_edges dep ((d, name) ∷ edges) graph degrees =
    let longer = children graph d ++ name ∷ [] in
    let ih =
      children-add_edges dep edges (insert d longer graph)
        (insert name (plus_one (degree degrees name)) degrees) in
    let one = children-insert d dep longer graph in
    elim (Bool-cases (str_eq d dep)) [
      | inl same ↦
          let old : longer ≡ children graph dep ++ name ∷ [] =
            ap (λ i. children graph i ++ name ∷ []) ((str_eq_iff d dep).0 same) in
          let now : children (insert d longer graph) dep ≡ children graph dep ++ name ∷ [] =
            one ∙ rw same old in
          ih
          ∙ ap (λ c. c ++ targets dep edges) now
          ∙ rw same (append_assoc (children graph dep) (name ∷ []) (targets dep edges))
      | inr other ↦ ih ∙ rw (one, other) refl
    ]

pub degree-add_edges :
    (x : Str) (edges : List (Str × Str)) (graph : Graph) (degrees : Degrees) (n : ℕ)
    → degree degrees x ≡ pos n
    → degree (add_edges edges (graph, degrees)).1 x ≡ pos (n + open_edges x [] edges)
unfolding add_edges
degree-add_edges x [] graph degrees n h = h ∙ ap pos (omega arith)
degree-add_edges x ((d, name) ∷ edges) graph degrees n h =
    let graph2 = insert d (children graph d ++ name ∷ []) graph in
    let degrees2 = insert name (plus_one (degree degrees name)) degrees in
    let one = degree-insert name x (plus_one (degree degrees name)) degrees in
    elim (Bool-cases (str_eq name x)) [
      | inl same ↦
          let was : degree degrees name ≡ pos n =
            ap (degree degrees) ((str_eq_iff name x).0 same) ∙ h in
          degree-add_edges x edges graph2 degrees2 (suc n) (one ∙ rw same (ap plus_one was))
          ∙ rw same (ap pos (omega arith))
      | inr other ↦ degree-add_edges x edges graph2 degrees2 n (one ∙ rw other h) ∙ rw other refl
    ]
