-- ===== src/Loader/Capability/Barred.antt =====
-- A plugin whose tokens are all revoked, under each operation on the table of internal/pluginloader/capability.go.
use cipher_lake.Prelude.{
  ℕ, zero, suc, true, Option, none, some, List, [], ◌∷◌, Str, str_eq, str_eq_iff, nat_beq, is_nil,
  lookup, insert, nat_key, lookup-insert, lookup-remove, ◌≡◌, ◌≢◌, ◌⊎◌, refl, arith, ap, sym, ◌∙◌,
  Bool-cases, inl, inr,
}
use cipher_lake.Loader.Capability.{
  Capability, CapabilityTable, Issued, token_id, store_token, attempt, issue_attempts, granted_to,
  issue, revoked_now, revoke, delete_token, revoked_if, revoke_entries, revoke_all_for_plugin,
}

-- Every token of the plugin is revoked.
abbrev pub IsBarred : Str → CapabilityTable → Type 0
IsBarred plugin t =
    (tok : ℕ) (c : Capability)
    → lookup tok t.tokens ≡ some c
    → c.plugin_name ≡ plugin
    → c.revoked ≡ true

-- A token's record is written.
insert-IsBarred :
    (plugin : Str) (tok : ℕ) (d : Capability) (t : CapabilityTable)
    → (d.plugin_name ≡ plugin → d.revoked ≡ true)
    → IsBarred plugin t
    → IsBarred plugin (record t { tokens = insert tok d t.tokens })
insert-IsBarred plugin tok d t h barred other c e name =
    let at = sym e ∙ lookup-insert tok other d t.tokens in
    elim (Bool-cases (nat_beq tok other)) [
      | inl same ↦
          let is : some c ≡ some d = at ∙ rw same refl in
          let c_is : c ≡ d = ground (arith, is) in
          ap (λ i. i.revoked) c_is ∙ h (sym (ap (λ i. i.plugin_name) c_is) ∙ name)
      | inr away ↦
          let is : some c ≡ lookup other t.tokens = at ∙ rw away refl in
          barred other c (sym is) name
    ]

store_token-IsBarred :
    (plugin : Str) (d : Capability) (t : CapabilityTable) (rest : CapabilityTable × Issued)
    (tok : ℕ) (found : Option Capability)
    → d.plugin_name ≢ plugin
    → IsBarred plugin t
    → IsBarred plugin rest.0
    → IsBarred plugin (store_token d t rest tok found).0
store_token-IsBarred plugin d t rest tok (some taken) h barred later = later
store_token-IsBarred plugin d t rest tok none h barred later =
    insert-IsBarred plugin tok d t (λ same. absurd (h same)) barred

attempt-IsBarred :
    (plugin : Str) (d : Capability) (t : CapabilityTable) (rest : CapabilityTable × Issued)
    (drawn : Option ℕ)
    → d.plugin_name ≢ plugin
    → IsBarred plugin t
    → IsBarred plugin rest.0
    → IsBarred plugin (attempt d t rest drawn).0
attempt-IsBarred plugin d t rest none h barred later = barred
attempt-IsBarred plugin d t rest (some raw) h barred later =
    elim (Bool-cases (nat_beq (token_id raw) 0)) [
      | inl zero_ ↦ rw zero_ later
      | inr other ↦ rw other (
          store_token-IsBarred plugin d t rest (token_id raw) (lookup (token_id raw) t.tokens) h
            barred later)
    ]

issue_attempts-IsBarred :
    (plugin : Str) (n : ℕ) (draws : ℕ → Option ℕ) (d : Capability) (t : CapabilityTable)
    → d.plugin_name ≢ plugin
    → IsBarred plugin t
    → IsBarred plugin (issue_attempts n draws d t).0
unfolding issue_attempts
issue_attempts-IsBarred plugin zero draws d t h barred = barred
issue_attempts-IsBarred plugin (suc n) draws d t h barred =
    attempt-IsBarred plugin d t (issue_attempts n draws d t) (draws n) h barred
      (issue_attempts-IsBarred plugin n draws d t h barred)

pub issue-IsBarred :
    (plugin p : Str) (tier : ℕ) (caps : List Str) (expires_at : Option ℕ) (now : ℕ)
    (draws : ℕ → Option ℕ) (t : CapabilityTable)
    → p ≢ plugin
    → IsBarred plugin t
    → IsBarred plugin (issue p tier caps expires_at now draws t).0
unfolding issue
issue-IsBarred plugin p tier caps expires_at now draws t h barred = elim (Bool-cases (is_nil p)) [
  | inl nil ↦ rw nil barred
  | inr named ↦
      rw named
        (issue_attempts-IsBarred plugin 8 draws (granted_to p tier caps now expires_at) t h barred)
]

pub revoke-IsBarred :
    (plugin : Str) (tok : ℕ) (t : CapabilityTable)
    → IsBarred plugin t
    → IsBarred plugin (revoke tok t)
unfolding revoke
revoke-IsBarred plugin tok t barred = go (lookup tok t.tokens)
  where
    go :
        (found : Option Capability)
        → IsBarred plugin (elim found [
          | none ↦ t
          | some c ↦ record t { tokens = insert tok (revoked_now c) t.tokens }
        ])
    go none = barred
    go (some c) = insert-IsBarred plugin tok (revoked_now c) t (λ same. refl) barred

pub delete_token-IsBarred :
    (plugin : Str) (tok : ℕ) (t : CapabilityTable)
    → IsBarred plugin t
    → IsBarred plugin (delete_token tok t)
unfolding delete_token
delete_token-IsBarred plugin tok t barred other c e name =
    let at = sym e ∙ lookup-remove tok other t.tokens in
    elim (Bool-cases (nat_beq tok other)) [
      | inl same ↦ let gone : some c ≡ none = at ∙ rw same refl in absurd (ground (arith, gone))
      | inr away ↦
          let is : some c ≡ lookup other t.tokens = at ∙ rw away refl in
          barred other c (sym is) name
    ]

-- What the revocation of all tokens of a plugin does to a record.
found_if : Str → Option Capability → Option Capability
found_if plugin none = none
found_if plugin (some c) = some (revoked_if plugin c)

lookup-revoke_entries :
    (plugin : Str) (tok : ℕ) (entries : List (ℕ × Capability))
    → lookup tok (revoke_entries plugin entries).0 ≡ found_if plugin (lookup tok entries)
unfolding lookup found_if
lookup-revoke_entries plugin tok [] = refl
lookup-revoke_entries plugin tok ((j, c) ∷ entries) = elim (Bool-cases (nat_beq tok j)) [
  | inl here ↦ rw here refl
  | inr there ↦ rw there (lookup-revoke_entries plugin tok entries)
]

-- A record that was left by a revocation: of the plugin, and then revoked, or as it was.
revoked_if_lem :
    (p : Str) (d : Capability)
    → ((d.plugin_name ≡ p) × (revoked_if p d ≡ revoked_now d))
      ⊎ ((d.plugin_name ≢ p) × (revoked_if p d ≡ d))
revoked_if_lem p d = elim (Bool-cases (str_eq d.plugin_name p)) [
  | inl same ↦ inl ((str_eq_iff d.plugin_name p).0 same, rw same refl)
  | inr other ↦
      inr (λ e. absurd (ground (arith, other, (str_eq_iff d.plugin_name p).1 e)), rw other refl)
]

found_if_lem :
    (p : Str) (found : Option Capability) (c : Capability)
    → found_if p found ≡ some c
    → (d : Capability) × (found ≡ some d) × (c ≡ revoked_if p d)
unfolding found_if
found_if_lem p none c e = absurd (ground (arith, e))
found_if_lem p (some d) c e = (d, refl, ground (arith, e))

pub revoke_all_for_plugin-IsBarred :
    (plugin p : Str) (t : CapabilityTable)
    → IsBarred plugin t
    → IsBarred plugin (revoke_all_for_plugin p t).0
unfolding revoke_all_for_plugin
revoke_all_for_plugin-IsBarred plugin p t barred tok c e name =
    let (d, there, is) =
      found_if_lem p (lookup tok t.tokens) c (sym (lookup-revoke_entries p tok t.tokens) ∙ e) in
    elim (revoked_if_lem p d) [
      | inl (of_p, now) ↦ ap (λ i. i.revoked) (is ∙ now)
      | inr (other, now) ↦
          ap (λ i. i.revoked) (is ∙ now)
          ∙ barred tok d there (sym (ap (λ i. i.plugin_name) (is ∙ now)) ∙ name)
    ]

-- The plugin itself has no usable token then.
pub revoke_all_for_plugin_bars :
    (plugin : Str) (t : CapabilityTable) → IsBarred plugin (revoke_all_for_plugin plugin t).0
unfolding revoke_all_for_plugin
revoke_all_for_plugin_bars plugin t tok c e name =
    let (d, there, is) =
      found_if_lem plugin (lookup tok t.tokens) c
        (sym (lookup-revoke_entries plugin tok t.tokens) ∙ e) in
    elim (revoked_if_lem plugin d) [
      | inl (of_p, now) ↦ ap (λ i. i.revoked) (is ∙ now)
      | inr (other, now) ↦ absurd (other (sym (ap (λ i. i.plugin_name) (is ∙ now)) ∙ name))
    ]
