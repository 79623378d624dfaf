-- ===== src/Loader/Capability.antt =====
-- The tokens with which plugins call the host (internal/pluginloader/capability.go): what is granted to each, and the
-- check that every call of the host makes. Times are never negative, and trust tiers are 0, 1 and 2.
pub mod Matching
pub mod Authorized
pub mod Barred
pub mod Revoked
use cipher_lake.Prelude.{
  ℕ, zero, suc, ◌%◌, ◌^◌, Bool, true, false, not, ◌&&◌, ◌||◌, Option, none, some, List, [], ◌∷◌,
  ◌++◌, Str, bytes, str_eq, has_prefix, has_suffix, trim_suffix, any, is_nil, ltb, nat_beq, lookup,
  insert, remove, nat_key, if◌then◌else◌,
}

-- `expires_at` is missing where the time is zero.
pub record Capability : Type 0 where
  pub plugin_name : Str
  pub trust_tier : ℕ
  pub capabilities : List Str
  pub issued_at : ℕ
  pub expires_at : Option ℕ
  pub revoked : Bool

pub record CapabilityTable : Type 0 where
  pub next_id : ℕ
  pub tokens : List (ℕ × Capability)

pub data Reason : Type 0 where
  unknown_token : Reason
  requires_tier_2 : Reason
  not_granted : Reason

pub record Unauthorized : Type 0 where
  pub capability : Str
  pub reason : Reason

unfoldable pub new_capability_table : CapabilityTable
new_capability_table = record { next_id = 0; tokens = [] }

pub data Issued : Type 0 where
  issued : ℕ → Issued
  name_required : Issued
  no_randomness : Issued
  no_unique_token : Issued

-- The token of eight random bytes, its high bit cleared.
abbrev pub token_id : ℕ → ℕ
token_id raw = raw % 2 ^ 63

abbrev pub store_token :
    Capability
    → CapabilityTable
    → CapabilityTable × Issued
    → ℕ
    → Option Capability
    → CapabilityTable × Issued
store_token c t rest tok (some taken) = rest
store_token c t rest tok none = (record t { tokens = insert tok c t.tokens }, issued tok)

abbrev pub attempt :
    Capability → CapabilityTable → CapabilityTable × Issued → Option ℕ → CapabilityTable × Issued
attempt c t rest none = (t, no_randomness)
attempt c t rest (some raw) =
    let tok = token_id raw in
    if nat_beq tok 0 then rest else store_token c t rest tok (lookup tok t.tokens)

-- So many attempts, each with bytes drawn anew; a token that is 0 or taken is passed over.
unfoldable pub issue_attempts :
    ℕ → (ℕ → Option ℕ) → Capability → CapabilityTable → CapabilityTable × Issued
issue_attempts zero draws c t = (t, no_unique_token)
issue_attempts (suc n) draws c t = attempt c t (issue_attempts n draws c t) (draws n)

abbrev pub granted_to : Str → ℕ → List Str → ℕ → Option ℕ → Capability
granted_to plugin tier caps now expires_at = record {
  plugin_name = plugin;
  trust_tier = tier;
  capabilities = caps;
  issued_at = now;
  expires_at = expires_at;
  revoked = false;
}

unfoldable pub issue :
    Str → ℕ → List Str → Option ℕ → ℕ → (ℕ → Option ℕ) → CapabilityTable → CapabilityTable × Issued
issue plugin tier caps expires_at now draws t =
    if is_nil plugin
    then (t, name_required)
    else issue_attempts 8 draws (granted_to plugin tier caps now expires_at) t

abbrev pub past_expiry : ℕ → Option ℕ → Bool
past_expiry now none = false
past_expiry now (some e) = ltb e now

-- A record that is neither revoked nor expired.
abbrev pub usable : ℕ → Option Capability → Option Capability
usable now none = none
usable now (some c) = if c.revoked || past_expiry now c.expires_at then none else some c

-- `Lookup`.
unfoldable pub lookup_token : ℕ → CapabilityTable → ℕ → Option Capability
lookup_token now t tok = usable now (lookup tok t.tokens)

abbrev pub revoked_now : Capability → Capability
revoked_now c = record c { revoked = true }

unfoldable pub revoke : ℕ → CapabilityTable → CapabilityTable
revoke tok t = elim (lookup tok t.tokens) [
  | none ↦ t
  | some c ↦ record t { tokens = insert tok (revoked_now c) t.tokens }
]

-- `Delete`.
unfoldable pub delete_token : ℕ → CapabilityTable → CapabilityTable
delete_token tok t = record t { tokens = remove tok t.tokens }

abbrev pub revoked_if : Str → Capability → Capability
revoked_if plugin c = if str_eq c.plugin_name plugin then revoked_now c else c

abbrev pub revoke_entries : Str → List (ℕ × Capability) → List (ℕ × Capability) × ℕ
revoke_entries plugin [] = ([], 0)
revoke_entries plugin ((tok, c) ∷ entries) =
    let (rest, n) = revoke_entries plugin entries in
    ((tok, revoked_if plugin c) ∷ rest, if str_eq c.plugin_name plugin then suc n else n)

-- `RevokeAllForPlugin`, with the number of its tokens.
unfoldable pub revoke_all_for_plugin : Str → CapabilityTable → CapabilityTable × ℕ
revoke_all_for_plugin plugin t =
    let (entries, n) = revoke_entries plugin t.tokens in (record t { tokens = entries }, n)

abbrev pub count_live : List (ℕ × Capability) → ℕ
count_live [] = 0
count_live ((tok, c) ∷ entries) =
    let rest = count_live entries in if c.revoked then rest else suc rest

-- `Count`.
unfoldable pub count_tokens : CapabilityTable → ℕ
count_tokens t = count_live t.tokens

abbrev pub tier2_prefixes : List Str
tier2_prefixes =
    bytes "iam:policy:evaluate"
    ∷ bytes "kms:datakey:generate"
    ∷ bytes "crypto:audit:sign"
    ∷ bytes "gateway:hook:register_for_other"
    ∷ []

unfoldable pub is_tier2_only : Str → Bool
is_tier2_only capability =
    any (λ p. str_eq capability p || has_prefix capability (p ++ bytes ":")) tier2_prefixes

unfoldable pub capability_matches : Str → Str → Bool
capability_matches granted requested =
    if str_eq granted requested
    then true
    else if has_prefix granted (requested ++ bytes ":")
    then true
    else if not (has_suffix granted (bytes "*"))
    then false
    else has_prefix requested (trim_suffix granted (bytes "*"))

abbrev pub has_capability : Capability → Str → Bool
has_capability c requested = any (λ granted. capability_matches granted requested) c.capabilities

-- The token's record decides: the tier first, then the grants.
abbrev pub judge : Str → Option Capability → Option Unauthorized
judge requested none = some (record { capability = requested; reason = unknown_token })
judge requested (some c) =
    if is_tier2_only requested && ltb c.trust_tier 2
    then some (record { capability = requested; reason = requires_tier_2 })
    else if not (has_capability c requested)
    then some (record { capability = requested; reason = not_granted })
    else none

unfoldable pub authorize : ℕ → CapabilityTable → ℕ → Str → Option Unauthorized
authorize now t tok requested = judge requested (lookup_token now t tok)
