-- ===== src/Loader/Topology/Known.antt =====
-- The names and the edges that internal/pluginloader/topology.go builds from the records, and the round it starts with.
use cipher_lake.Prelude.{
  ℕ, zero, suc, ◌+◌, true, List, [], ◌∷◌, ◌++◌, Str, str_eq, str_eq_iff, lookup, any, nat_beq, pos,
  get_or, if◌then◌else◌, ◌≡◌, inl, inr, refl, arith, ap, subst, ◌∙◌, Bool-cases,
}
use cipher_lake.Loader.Topology.{
  PluginRecord, Degrees, degree, is_known, names_of, known_edges, edges_of, initial_degrees,
  add_edges, roots, is_zero, sort_strings,
}
use cipher_lake.Loader.Topology.Counts.{
  any-occ, occ-any, occ, targets, open_edges, occ-sort_strings, degree-add_edges,
}
use cipher_lake.Loader.Topology.Search.{IsRound, IsOnce, IsSettled}

pub occ-names_of :
    (records : List PluginRecord) (x : Str)
    → occ x (names_of records) ≡ (if is_known records x then 1 else 0)
unfolding names_of
occ-names_of [] x = refl
occ-names_of (r ∷ records) x =
    let ih = occ-names_of records x in
    elim (Bool-cases (str_eq r.name x)) [
      | inl same ↦
          let e = ap (λ i. any (str_eq i) (names_of records)) ((str_eq_iff r.name x).0 same) in
          ground (arith, ih, same, e, any-occ x (names_of records), occ-any x (names_of records))
      | inr other ↦ ground (arith, ih, other)
    ]

pub names_of-IsOnce :
    (records : List PluginRecord) → IsOnce (edges_of records records) (names_of records)
names_of-IsOnce records x = elim (Bool-cases (is_known records x)) [
  | inl yes_known ↦ inr (occ-names_of records x ∙ rw yes_known refl)
  | inr unknown ↦ inl (occ-names_of records x ∙ rw unknown refl)
]

-- Edges between known names.
abbrev pub IsInside : List Str → List (Str × Str) → Type 0
IsInside names [] = Unit
IsInside names ((d, n) ∷ edges) = (occ d names ≡ 1) × (occ n names ≡ 1) × IsInside names edges

IsInside-append :
    (names : List Str) (left right : List (Str × Str))
    → IsInside names left
    → IsInside names right
    → IsInside names (left ++ right)
IsInside-append names [] right h k = k
IsInside-append names (edge ∷ left) right (d, n, h) k = (d, n, IsInside-append names left right h k)

known_edges-IsInside :
    (records : List PluginRecord) (name : Str) (deps : List Str)
    → is_known records name ≡ true
    → IsInside (names_of records) (known_edges records name deps)
known_edges-IsInside records name [] h = tt
known_edges-IsInside records name (dep ∷ deps) h = elim (Bool-cases (is_known records dep)) [
  | inl there ↦ rw there (
    occ-names_of records dep ∙ rw there refl,
    occ-names_of records name ∙ rw h refl,
    known_edges-IsInside records name deps h,
  )
  | inr absent ↦ rw absent (known_edges-IsInside records name deps h)
]

pub edges_of-IsInside :
    (records rs : List PluginRecord)
    → ((x : Str) → is_known rs x ≡ true → is_known records x ≡ true)
    → IsInside (names_of records) (edges_of records rs)
unfolding edges_of
edges_of-IsInside records [] h = tt
edges_of-IsInside records (r ∷ rs) h =
    let same = (str_eq_iff r.name r.name).1 refl in
    let there : is_known (r ∷ rs) r.name ≡ true = rw same refl in
    IsInside-append (names_of records) (known_edges records r.name (get_or r.depends_on []))
      (edges_of records rs)
      (known_edges-IsInside records r.name (get_or r.depends_on []) (h r.name there))
      (edges_of-IsInside records rs (λ x k. h x (ground (arith, k))))

pub targets-IsInside :
    (names : List Str) (edges : List (Str × Str)) (dep x : Str)
    → IsInside names edges
    → occ x names ≡ 0
    → occ x (targets dep edges) ≡ 0
targets-IsInside names [] dep x h k = refl
targets-IsInside names ((d, n) ∷ edges) dep x (a, b, h) k =
    let ih = targets-IsInside names edges dep x h k in
    elim (Bool-cases (str_eq n x)) [
      | inl here ↦
          absurd (omega (arith, k, subst (λ i. occ i names ≡ 1) ((str_eq_iff n x).0 here) b))
      | inr other ↦ ground (arith, ih, other)
    ]

degree-initial_degrees : (names : List Str) (x : Str) → degree (initial_degrees names) x ≡ pos 0
unfolding lookup
degree-initial_degrees [] x = refl
degree-initial_degrees (name ∷ names) x = elim (Bool-cases (str_eq x name)) [
  | inl same ↦ rw same refl
  | inr other ↦ rw other (degree-initial_degrees names x)
]

occ-roots :
    (degrees : Degrees) (names : List Str) (x : Str)
    → occ x (roots degrees names) ≡ (if is_zero (degree degrees x) then occ x names else 0)
occ-roots degrees [] x = ground arith
occ-roots degrees (name ∷ names) x =
    let ih = occ-roots degrees names x in
    elim (Bool-cases (str_eq name x)) [
      | inl same ↦
          let e = ap (λ i. is_zero (degree degrees i)) ((str_eq_iff name x).0 same) in
          ground (arith, ih, same, e)
      | inr other ↦ ground (arith, ih, other)
    ]

-- The round the loop starts with.
pub roots-IsRound :
    (edges : List (Str × Str)) (names : List Str)
    → IsRound edges names []
        (add_edges edges ([], initial_degrees names)).1
        (sort_strings (roots (add_edges edges ([], initial_degrees names)).1 names))
        []
roots-IsRound edges names =
    let degrees = (add_edges edges ([], initial_degrees names)).1 in
    let count : (x : Str) → degree degrees x ≡ pos (open_edges x [] edges) = λ x.
      degree-add_edges x edges [] (initial_degrees names) 0 (degree-initial_degrees names x)
      ∙ ap pos (omega arith) in
    let queued : (x : Str)
        → occ x (sort_strings (roots degrees names))
          ≡ (if nat_beq (open_edges x [] edges) 0 then occ x names else 0) =
      λ x.
        occ-sort_strings x (roots degrees names)
        ∙ occ-roots degrees names x
        ∙ ap (λ d. if is_zero d then occ x names else 0) (count x) in
    record {
      counted = λ x h. count x ∙ ap pos (omega arith);
      settled = λ x h. starts _ _ (queued x ∙ rw h refl);
      foreign = λ x h. ground (arith, queued x, h);
      known = λ x h. refl;
    }
  where
    starts : (q o : ℕ) → q ≡ (if nat_beq o 0 then 1 else 0) → IsSettled q 0 (o + 0)
    starts q zero e = inl (omega (arith, e), refl)
    starts q (suc o) e = inr (ground (arith, e), omega arith)
