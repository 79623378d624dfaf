-- ===== src/Cache/Query/Size.antt =====
-- What the eviction of `QueryResultCache` removes (internal/cache/cache.go).
use text.Mathlib.Text.{◌==◌}
use text.Mathlib.TextEquality.{eq_iff}
use cipher_lake.Prelude.{
  ℕ, ◌+◌, ◌≤◌, true, false, Option, none, some, List, [], ◌∷◌, String, ltb, length, lookup, insert,
  remove, text_key, if◌then◌else◌, ◌≡◌, refl, arith, ap, subst, sym, Bool-cases, Option-cases, inl,
  inr, ◌⊎◌, is_some, lookup-remove,
}
use cipher_lake.Cache.Query.{QueryCacheItem, older, oldest_from, evict}

key_of : Option (String × ℕ) → String
key_of none = ""
key_of (some (k, t)) = k

older-cases :
    (acc : Option (String × ℕ)) (j k : String) (u t : ℕ)
    → older acc j u ≡ some (k, t)
    → (acc ≡ some (k, t)) ⊎ (j ≡ k)
unfolding key_of
older-cases none j k u t e = inr (cc)
older-cases (some (i, v)) j k u t e = elim (Bool-cases (ltb u v)) [
  | inl sooner ↦
      let taken : ◌≡◌ {A = Option (String × ℕ)} (some (j, u)) (some (k, t)) =
        ground (arith, e, sooner) in
      inr (ap key_of taken)
  | inr later ↦ inl (ground (arith, e, later))
]

module _ {V : Type 0} where
  length-remove :
      (k : String) (entries : List (String × QueryCacheItem V))
      → length (remove k entries) ≤ length entries
  unfolding remove
  length-remove k [] = omega arith
  length-remove k ((j, item) ∷ entries) =
      let ih = length-remove k entries in
      elim (Bool-cases (k == j)) [
        | inl e ↦ rw e (omega (arith, ih))
        | inr e ↦ rw e (omega (arith, ih))
      ]

  length-remove_present :
      (k : String) (entries : List (String × QueryCacheItem V))
      → is_some (lookup k entries) ≡ true
      → length (remove k entries) + 1 ≤ length entries
  unfolding remove lookup
  length-remove_present k [] h = absurd (cc)
  length-remove_present k ((j, item) ∷ entries) h =
      let all = length-remove k entries in
      elim (Bool-cases (k == j)) [
        | inl e ↦ rw e (omega (arith, all))
        | inr e ↦
            let later =
              subst (λ c. is_some (if c then some item else lookup k entries) ≡ true) e h in
            let ih = length-remove_present k entries later in rw e (omega (arith, ih))
      ]

  oldest_from-some :
      (j : String) (u : ℕ) (entries : List (String × QueryCacheItem V))
      → (k : String) × ((t : ℕ) × (oldest_from (some (j, u)) entries ≡ some (k, t)))
  unfolding oldest_from
  oldest_from-some j u [] = (j, (u, refl))
  oldest_from-some j u ((i, item) ∷ entries) = elim (Bool-cases (ltb item.created_at u)) [
    | inl e ↦ rw e (oldest_from-some i item.created_at entries)
    | inr e ↦ rw e (oldest_from-some j u entries)
  ]

  present_later :
      (k j : String) (item : QueryCacheItem V) (entries : List (String × QueryCacheItem V))
      → is_some (lookup k entries) ≡ true
      → is_some (lookup k ((j, item) ∷ entries)) ≡ true
  unfolding lookup
  present_later k j item entries has = elim (Bool-cases (k == j)) [
    | inl e ↦ rw e refl
    | inr e ↦ rw e has
  ]

  present_here :
      (k : String) (item : QueryCacheItem V) (entries : List (String × QueryCacheItem V))
      → is_some (lookup k ((k, item) ∷ entries)) ≡ true
  unfolding lookup
  present_here k item entries = rw ((eq_iff k k).1 refl) refl

  -- The key that the loop ends with is the one it had, or has an entry.
  oldest_from-present :
      (acc : Option (String × ℕ)) (entries : List (String × QueryCacheItem V)) (k : String) (t : ℕ)
      → oldest_from acc entries ≡ some (k, t)
      → (acc ≡ some (k, t)) ⊎ (is_some (lookup k entries) ≡ true)
  unfolding oldest_from lookup
  oldest_from-present acc [] k t e = inl e
  oldest_from-present acc ((j, item) ∷ entries) k t e =
      elim (oldest_from-present (older acc j item.created_at) entries k t e) [
        | inl had ↦ elim (older-cases acc j k item.created_at t had) [
          | inl same ↦ inl same
          | inr here ↦ inr (
              subst (λ i. is_some (lookup i ((j, item) ∷ entries)) ≡ true) here
                (present_here j item entries))
        ]
        | inr has ↦ inr (present_later k j item entries has)
      ]

  evict-remove :
      (entries : List (String × QueryCacheItem V)) (k : String) (t : ℕ)
      → oldest_from none entries ≡ some (k, t)
      → (k == "") ≡ false
      → evict entries ≡ remove k entries
  unfolding evict
  evict-remove entries k t found named = rw (evict, found) (rw named refl)

  evicts_key :
      (entries : List (String × QueryCacheItem V)) (k : String) (t : ℕ)
      → oldest_from none entries ≡ some (k, t)
      → lookup "" entries ≡ none
      → length (evict entries) + 1 ≤ length entries
  unfolding evict
  evicts_key entries k t found fresh = elim (oldest_from-present none entries k t found) [
    | inl none_yet ↦ absurd (cc)
    | inr present ↦ elim (Bool-cases (k == "")) [
      | inl blank ↦
          let same : k ≡ "" = (eq_iff k "").0 blank in
          let clash = ap is_some fresh in
          let there = subst (λ i. is_some (lookup i entries) ≡ true) same present in absurd (cc)
      | inr named ↦
          subst (λ es. length es + 1 ≤ length entries) (sym (evict-remove entries k t found named))
            (length-remove_present k entries present)
    ]
  ]

  -- With an entry there, the loop ends with a key.
  pub evict-shrinks :
      (entries : List (String × QueryCacheItem V))
      → 1 ≤ length entries
      → lookup "" entries ≡ none
      → length (evict entries) + 1 ≤ length entries
  unfolding oldest_from
  evict-shrinks [] h fresh = absurd (omega arith)
  evict-shrinks ((j, item) ∷ rest) h fresh =
      let (k, (t, e)) = oldest_from-some j item.created_at rest in
      let found : oldest_from none ((j, item) ∷ rest) ≡ some (k, t) = e in
      evicts_key ((j, item) ∷ rest) k t found fresh

  pub insert-length :
      (k : String) (item : QueryCacheItem V) (entries : List (String × QueryCacheItem V))
      → length (insert k item entries) ≤ length entries + 1
  unfolding insert
  insert-length k item entries = let all = length-remove k entries in omega (arith, all)

  pub evict-no_blank :
      (entries : List (String × QueryCacheItem V))
      → lookup "" entries ≡ none
      → lookup "" (evict entries) ≡ none
  unfolding evict
  evict-no_blank entries fresh = elim (Option-cases (oldest_from none entries)) [
    | inl e ↦ rw (evict, e) fresh
    | inr ((k, t), e) ↦ elim (Bool-cases (k == "")) [
      | inl blank ↦ rw (evict, e) (rw blank fresh)
      | inr named ↦ rw (evict, e) (rw named (ground (arith, lookup-remove k "" entries, fresh)))
    ]
  ]

  pub length-remove_absent :
      (k : String) (entries : List (String × QueryCacheItem V))
      → lookup k entries ≡ none
      → length (remove k entries) ≡ length entries
  unfolding remove lookup
  length-remove_absent k [] h = refl
  length-remove_absent k ((j, item) ∷ entries) h = elim (Bool-cases (k == j)) [
    | inl e ↦
        let clash : ◌≡◌ {A = Option (QueryCacheItem V)} (some item) none = ground (arith, h, e) in
        absurd (cc)
    | inr e ↦
        let later : lookup k entries ≡ none = ground (arith, h, e) in
        let ih = length-remove_absent k entries later in rw e (omega (arith, ih))
  ]

  pub evict-blank :
      (entries : List (String × QueryCacheItem V)) (t : ℕ)
      → oldest_from none entries ≡ some ("", t)
      → evict entries ≡ entries
  unfolding evict
  evict-blank entries t oldest = rw (evict, oldest) refl
