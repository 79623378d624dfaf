-- ===== src/Loader/Trust/Deserved.antt =====
-- The tiers that internal/pluginloader/trust.go gives, after any history of its store.
use cipher_lake.Prelude.{
  ℕ, ◌≤◌, true, ◌||◌, Option, none, some, List, Str, is_nil, length, nat_beq, lookup, str_key, pos,
  ◌≡◌, refl, arith, ap, sym, ◌∙◌, Bool-cases, inl, inr,
}
use cipher_lake.Loader.Trust.{
  Crypto, TrustedKey, TrustStore, new_trust_store, trust_digest, tier_of_key, Verified, verified,
  verify_with, verify_signature, EffectiveTier, effective, key_id_empty, wrong_length, unknown_key,
  verification_failed, core_signature_required, core_by_unknown_key, honored, lowest, tier_for,
  determine_effective_tier,
}
use cipher_lake.Loader.Trust.Store.{
  StoreOp, run_store, IsStore, new_trust_store-IsStore, run_store-IsStore,
}

module _ (crypto : Crypto) where
  -- The record of a key that signed this manifest and program.
  abbrev pub IsSigned : TrustStore → Str → Str → Str → Str → TrustedKey → Type 0
  IsSigned ts manifest wasm sig key_id k =
      (lookup key_id ts.keys ≡ some k)
      × ((p : Str) × (crypto.decode_base64 k.public_key ≡ some p)
          × (crypto.verify p (trust_digest crypto manifest wasm) sig ≡ true))

  -- A tier within the request, which is the core tier where that is asked for, and above the lowest is that of a key
  -- of the store, a core one for the core tier, that signed the plugin.
  abbrev pub IsDeserved : TrustStore → Str → Str → Str → Str → ℕ → ℕ → Str → Type 0
  IsDeserved ts manifest wasm sig key_id requested tier by =
      (tier ≤ requested)
      × (requested ≡ 2 → tier ≡ 2)
      × (1 ≤ tier
          → (by ≡ key_id)
            × ((k : TrustedKey) × IsSigned ts manifest wasm sig key_id k
                × (2 ≤ tier → k.is_core ≡ true)))

  honored_lem :
      (requested tier : ℕ) (key_id by : Str) (v : Verified)
      → honored crypto requested key_id v ≡ effective tier by
      → (t : ℕ) × (v ≡ verified t)
        × (tier ≤ t)
        × (tier ≤ requested)
        × (requested ≡ 2 → tier ≡ 2)
        × (by ≡ key_id)
  honored_lem requested tier key_id by (verified t) h =
      (t, refl, ground (arith, h), ground (arith, h), λ e. ground (arith, h, e), ground (arith, h))
  honored_lem requested tier key_id by key_id_empty h = absurd (ground (arith, h))
  honored_lem requested tier key_id by wrong_length h = absurd (ground (arith, h))
  honored_lem requested tier key_id by unknown_key h = absurd (ground (arith, h))
  honored_lem requested tier key_id by verification_failed h = absurd (ground (arith, h))

  verify_signature_lem :
      (ts : TrustStore) (manifest wasm sig key_id : Str) (t : ℕ)
      → verify_signature crypto ts manifest wasm sig key_id ≡ verified t
      → (p : Str) × (lookup key_id ts.pub_keys ≡ some p)
        × (crypto.verify p (trust_digest crypto manifest wasm) sig ≡ true)
        × (t ≡ tier_of_key crypto (lookup key_id ts.keys))
  unfolding verify_signature
  verify_signature_lem ts manifest wasm sig key_id t h = go (lookup key_id ts.pub_keys) found
    where
      found :
          verify_with crypto ts manifest wasm sig key_id (lookup key_id ts.pub_keys) ≡ verified t
      found = ground (arith, h)

      go :
          (o : Option Str)
          → verify_with crypto ts manifest wasm sig key_id o ≡ verified t
          → (p : Str) × (o ≡ some p)
            × (crypto.verify p (trust_digest crypto manifest wasm) sig ≡ true)
            × (t ≡ tier_of_key crypto (lookup key_id ts.keys))
      go none e = absurd (ground (arith, e))
      go (some p) e = (p, refl, ground (arith, e), ground (arith, e))

  tier_of_key_core : (k : TrustedKey) → 2 ≤ tier_of_key crypto (some k) → k.is_core ≡ true
  tier_of_key_core k h = ground (arith, h)

  lowest_lem :
      (ts : TrustStore) (requested : ℕ) (manifest wasm sig key_id : Str) (tier : ℕ) (by : Str)
      (refused : EffectiveTier)
      → ((t : ℕ) (b : Str) → ¬ (refused ≡ effective t b))
      → lowest crypto requested refused ≡ effective tier by
      → IsDeserved ts manifest wasm sig key_id requested tier by
  lowest_lem ts requested manifest wasm sig key_id tier by refused fails h =
      elim (Bool-cases (nat_beq requested 2)) [
        | inl core ↦
            let is : lowest crypto requested refused ≡ refused = rw core refl in
            absurd (fails tier by (sym is ∙ h))
        | inr other ↦
            let none_ : tier ≡ 0 = ground (arith, h, other) in
            (
              omega (arith, none_),
              λ e. absurd (ground (arith, e, other)),
              λ k. absurd (omega (arith, k, none_)),
            )
      ]

  signed :
      (ts : TrustStore) (requested : ℕ) (manifest wasm sig key_id : Str) (tier : ℕ) (by : Str)
      → IsStore crypto ts
      → honored crypto requested key_id (verify_signature crypto ts manifest wasm sig key_id)
        ≡ effective tier by
      → IsDeserved ts manifest wasm sig key_id requested tier by
  signed ts requested manifest wasm sig key_id tier by s h =
      let (t, is, below, within, core, who) =
        honored_lem requested tier key_id by (verify_signature crypto ts manifest wasm sig key_id)
          h in
      let (p, there, valid, of_key) = verify_signature_lem ts manifest wasm sig key_id t is in
      let (k, kept, decodes) = s key_id p there in
      let t_is : t ≡ tier_of_key crypto (some k) = of_key ∙ ap (tier_of_key crypto) kept in
      (
        within,
        core,
        λ above. (
          who,
          (
            k,
            (kept, (p, decodes, valid)),
            λ two. tier_of_key_core k (omega (arith, two, below, t_is)),
          ),
        ),
      )

  determined :
      (ts : TrustStore) (requested : ℕ) (manifest wasm sig key_id : Str) (tier : ℕ) (by : Str)
      → IsStore crypto ts
      → determine_effective_tier crypto (pos requested) ts manifest wasm sig key_id
        ≡ effective tier by
      → IsDeserved ts manifest wasm sig key_id requested tier by
  unfolding determine_effective_tier
  determined ts requested manifest wasm sig key_id tier by s h =
      elim (Bool-cases (nat_beq (length sig) 0 || is_nil key_id)) [
        | inl unsigned ↦
            lowest_lem ts requested manifest wasm sig key_id tier by core_signature_required
              (λ t b e. absurd (ground (arith, e))) (ground (arith, h, unsigned))
        | inr with_key ↦ go (lookup key_id ts.pub_keys) (ground (arith, h, with_key))
      ]
    where
      go :
          (found : Option Str)
          → tier_for crypto requested ts manifest wasm sig key_id found ≡ effective tier by
          → IsDeserved ts manifest wasm sig key_id requested tier by
      go none e =
          lowest_lem ts requested manifest wasm sig key_id tier by core_by_unknown_key
            (λ t b f. absurd (ground (arith, f))) e
      go (some p) e = signed ts requested manifest wasm sig key_id tier by s e

  -- Whatever keys were loaded, added and removed before, and whether or not that succeeded: a plugin that is given a tier gets at most the
  -- tier that it asks for, and the core tier where it asks for that; and a tier above the lowest only if a key
  -- that the store then has signed its manifest and program, which is a core key for the core tier.
  pub determine_effective_tier-IsDeserved :
      (ops : List StoreOp) (requested : ℕ) (manifest wasm sig key_id : Str) (tier : ℕ) (by : Str)
      → determine_effective_tier crypto
          (pos requested)
          (run_store crypto ops new_trust_store)
          manifest
          wasm
          sig
          key_id
        ≡ effective tier by
      → IsDeserved (run_store crypto ops new_trust_store) manifest wasm sig key_id requested tier by
  determine_effective_tier-IsDeserved ops requested manifest wasm sig key_id tier by h =
      determined (run_store crypto ops new_trust_store) requested manifest wasm sig key_id tier by
        (run_store-IsStore crypto ops new_trust_store (new_trust_store-IsStore crypto)) h
