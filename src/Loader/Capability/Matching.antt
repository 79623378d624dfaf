-- ===== src/Loader/Capability/Matching.antt =====
-- What a granted capability authorizes (capabilityMatches in internal/pluginloader/capability.go), without the code's
-- order of tests.
use cipher_lake.Prelude.{
  true, [], ◌∷◌, ◌++◌, Str, bytes, str_eq, str_eq_iff, has_prefix, has_prefix-append, has_suffix,
  has_suffix-append, trim_suffix, trim_suffix-append, nat_beq_iff, ◌≡◌, ◌⊎◌, inl, inr, refl, arith,
  ap, subst, ◌∙◌, Bool-cases,
}
use cipher_lake.Loader.Capability.{capability_matches}

pub has_prefix_lem : (s p : Str) → has_prefix s p ≡ true → (r : Str) × (s ≡ p ++ r)
unfolding has_prefix
has_prefix_lem s [] h = (s, refl)
has_prefix_lem [] (b ∷ p) h = absurd (ground (arith, h))
has_prefix_lem (a ∷ s) (b ∷ p) h =
    let (r, e) = has_prefix_lem s p (ground (arith, h)) in
    let same : a ≡ b = ground (arith, h, nat_beq_iff a b) in (r, rw same (ap (λ i. b ∷ i) e))

pub has_suffix_lem : (s p : Str) → has_suffix s p ≡ true → (r : Str) × (s ≡ r ++ p)
unfolding has_suffix
has_suffix_lem [] [] h = ([], refl)
has_suffix_lem [] (b ∷ p) h = absurd (ground (arith, h))
has_suffix_lem (a ∷ s) p h = elim (Bool-cases (str_eq (a ∷ s) p)) [
  | inl same ↦ ([], (str_eq_iff (a ∷ s) p).0 same)
  | inr other ↦
      let (r, e) = has_suffix_lem s p (ground (arith, h, other)) in (a ∷ r, ap (λ i. a ∷ i) e)
]

-- It is the request, or a narrower one under it, or ends in a star and covers the request.
abbrev pub IsGrant : Str → Str → Type 0
IsGrant granted requested =
    (granted ≡ requested)
    ⊎ ((scope : Str) × (granted ≡ (requested ++ bytes ":") ++ scope))
    ⊎ ((prefix : Str) × (rest : Str) × (granted ≡ prefix ++ bytes "*")
        × (requested ≡ prefix ++ rest))

pub capability_matches-IsGrant :
    (granted requested : Str)
    → capability_matches granted requested ≡ true
    → IsGrant granted requested
unfolding capability_matches
capability_matches-IsGrant granted requested h = elim (Bool-cases (str_eq granted requested)) [
  | inl same ↦ inl ((str_eq_iff granted requested).0 same)
  | inr other ↦ elim (Bool-cases (has_prefix granted (requested ++ bytes ":"))) [
    | inl scoped ↦ inr (inl (has_prefix_lem granted (requested ++ bytes ":") scoped))
    | inr unscoped ↦
        let (prefix, e) = has_suffix_lem granted (bytes "*") (ground (arith, h, other, unscoped)) in
        let starred : has_prefix requested (trim_suffix granted (bytes "*")) ≡ true =
          ground (arith, h, other, unscoped) in
        let covers : has_prefix requested prefix ≡ true =
          subst (λ i. has_prefix requested i ≡ true)
            (ap (λ i. trim_suffix i (bytes "*")) e ∙ trim_suffix-append prefix (bytes "*"))
            starred in
        let (rest, f) = has_prefix_lem requested prefix covers in inr (inr (prefix, rest, e, f))
  ]
]

pub IsGrant-capability_matches :
    (granted requested : Str)
    → IsGrant granted requested
    → capability_matches granted requested ≡ true
unfolding capability_matches
IsGrant-capability_matches granted requested (inl same) =
    rw ((str_eq_iff granted requested).1 same) refl
IsGrant-capability_matches granted requested (inr (inl (scope, e))) =
    let scoped : has_prefix granted (requested ++ bytes ":") ≡ true =
      ap (λ i. has_prefix i (requested ++ bytes ":")) e
      ∙ has_prefix-append (requested ++ bytes ":") scope in
    ground (arith, scoped)
IsGrant-capability_matches granted requested (inr (inr (prefix, rest, e, f))) =
    let star : has_suffix granted (bytes "*") ≡ true =
      ap (λ i. has_suffix i (bytes "*")) e ∙ has_suffix-append prefix (bytes "*") in
    let trimmed : trim_suffix granted (bytes "*") ≡ prefix =
      ap (λ i. trim_suffix i (bytes "*")) e ∙ trim_suffix-append prefix (bytes "*") in
    let covers : has_prefix requested (trim_suffix granted (bytes "*")) ≡ true =
      ap (has_prefix requested) trimmed
      ∙ ap (λ i. has_prefix i prefix) f
      ∙ has_prefix-append prefix rest in
    ground (arith, star, covers)
