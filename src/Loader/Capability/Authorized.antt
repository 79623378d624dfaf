-- ===== src/Loader/Capability/Authorized.antt =====
-- What Authorize of internal/pluginloader/capability.go lets through.
use cipher_lake.Prelude.{
  ℕ, ◌≤◌, true, false, ◌||◌, Option, none, some, List, [], ◌∷◌, Str, any, lookup, nat_key, ◌≡◌, ◌⊎◌,
  ◌↔◌, inl, inr, refl, arith, subst, Bool-cases,
}
use cipher_lake.Loader.Capability.{
  Capability, CapabilityTable, past_expiry, usable, lookup_token, is_tier2_only, capability_matches,
  has_capability, judge, authorize,
}
use cipher_lake.Loader.Capability.Matching.{
  IsGrant, capability_matches-IsGrant, IsGrant-capability_matches,
}

-- One of these capabilities grants the request.
abbrev pub IsGranted : List Str → Str → Type 0
IsGranted [] requested = ⊥
IsGranted (granted ∷ rest) requested = IsGrant granted requested ⊎ IsGranted rest requested

any-IsGranted :
    (caps : List Str) (requested : Str)
    → (any (λ granted. capability_matches granted requested) caps ≡ true) ↔ IsGranted caps requested
any-IsGranted [] requested = (λ h. absurd (ground (arith, h)), λ h. absurd h)
any-IsGranted (granted ∷ rest) requested =
    let ih = any-IsGranted rest requested in
    (
      λ h. elim (Bool-cases (capability_matches granted requested)) [
        | inl here ↦ inl (capability_matches-IsGrant granted requested here)
        | inr there ↦ inr (ih.0 (ground (arith, h, there)))
      ],
      λ g. elim g [
        | inl here ↦ rw (IsGrant-capability_matches granted requested here) refl
        | inr there ↦ ground (arith, ih.1 there)
      ],
    )

-- The record of a token that may be used for the request.
abbrev pub IsAllowing : ℕ → Str → Capability → Type 0
IsAllowing now requested c =
    (c.revoked ≡ false)
    × (past_expiry now c.expires_at ≡ false)
    × (is_tier2_only requested ≡ true → 2 ≤ c.trust_tier)
    × IsGranted c.capabilities requested

judge-IsAllowing :
    (now : ℕ) (requested : Str) (c : Capability)
    → (judge requested (usable now (some c)) ≡ none) ↔ IsAllowing now requested c
judge-IsAllowing now requested c = (sound, complete)
  where
    granted : (has_capability c requested ≡ true) ↔ IsGranted c.capabilities requested
    granted = any-IsGranted c.capabilities requested

    sound : judge requested (usable now (some c)) ≡ none → IsAllowing now requested c
    sound h = elim (Bool-cases (c.revoked || past_expiry now c.expires_at)) [
      | inl out ↦ absurd (ground (arith, h, out))
      | inr in_use ↦ (
        ground (arith, in_use),
        ground (arith, in_use),
        λ tier. ground (arith, h, in_use, tier),
        granted.0 (ground (arith, h, in_use)),
      )
    ]

    complete : IsAllowing now requested c → judge requested (usable now (some c)) ≡ none
    complete (live, fresh, tier, given) =
        let has = granted.1 given in ground (arith, live, fresh, tier, has)

-- A call is authorized just where the token's record is there, not revoked and not expired, has a trust tier of 2 where
-- the capability is for that tier only, and holds a capability that grants the request: the same one, or a narrower
-- one, or one that ends in a star and covers it.
pub authorize_iff :
    (now : ℕ) (t : CapabilityTable) (tok : ℕ) (requested : Str)
    → (authorize now t tok requested ≡ none)
      ↔ ((c : Capability) × (lookup tok t.tokens ≡ some c) × IsAllowing now requested c)
unfolding authorize lookup_token
authorize_iff now t tok requested = go (lookup tok t.tokens)
  where
    go :
        (found : Option Capability)
        → (judge requested (usable now found) ≡ none)
          ↔ ((c : Capability) × (found ≡ some c) × IsAllowing now requested c)
    go none = (λ h. absurd (ground (arith, h)), λ (c, e, allowing). absurd (ground (arith, e)))
    go (some c) = (
      λ h. (c, refl, (judge-IsAllowing now requested c).0 h),
      λ (d, e, allowing).
          (judge-IsAllowing now requested c).1
            (subst (IsAllowing now requested) {x = d} {y = c} (ground (arith, e)) allowing),
    )
