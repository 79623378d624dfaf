-- ===== src/Loader/Trust.antt =====
-- The tier a plugin is installed at (internal/pluginloader/trust.go): trusted keys, and the signatures made with them.
-- A key file is kept as the list of its keys, or does not parse.
pub mod Store
pub mod Deserved
use cipher_lake.Prelude.{
  ℕ, Bool, true, false, not, ◌&&◌, ◌||◌, Option, none, some, List, [], ◌∷◌, ◌++◌, Str, is_nil,
  length, nat_beq, ltb, lookup, insert, remove, str_key, ℤ, pos, negsuc, if◌then◌else◌,
}

-- Base64, SHA-256 and Ed25519, of the standard library.
pub record Crypto : Type 0 where
  pub decode_base64 : Str → Option Str
  pub sha256 : Str → Str
  pub verify : Str → Str → Str → Bool

pub record TrustedKey : Type 0 where
  pub key_id : Str
  pub public_key : Str
  pub is_core : Bool
  pub added_at : Str
  pub added_by : Str

pub record TrustStore : Type 0 where
  pub keys : List (Str × TrustedKey)
  pub pub_keys : List (Str × Str)

abbrev pub new_trust_store : TrustStore
new_trust_store = record { keys = []; pub_keys = [] }

pub data KeyError : Type 0 where
  not_parsed : KeyError
  key_id_missing : KeyError
  invalid_base64 : KeyError
  wrong_size : KeyError

pub data Verified : Type 0 where
  verified : ℕ → Verified
  key_id_empty : Verified
  wrong_length : Verified
  unknown_key : Verified
  verification_failed : Verified

pub data EffectiveTier : Type 0 where
  effective : ℕ → Str → EffectiveTier
  invalid_request : EffectiveTier
  core_signature_required : EffectiveTier
  core_by_unknown_key : EffectiveTier
  signature_refused : Verified → EffectiveTier
  core_by_other_key : EffectiveTier

module _ (crypto : Crypto) where
  abbrev pub add_decoded : TrustedKey → Option Str → TrustStore → TrustStore × Option KeyError
  add_decoded k none ts = (ts, some invalid_base64)
  add_decoded k (some p) ts =
      if nat_beq (length p) 32
      then (
        record ts { keys = insert k.key_id k ts.keys; pub_keys = insert k.key_id p ts.pub_keys },
        none,
      )
      else (ts, some wrong_size)

  unfoldable pub add_key : TrustedKey → TrustStore → TrustStore × Option KeyError
  add_key k ts =
      if is_nil k.key_id
      then (ts, some key_id_missing)
      else add_decoded k (crypto.decode_base64 k.public_key) ts

  -- After a refusal no more keys are read.
  abbrev pub load_next : TrustedKey → TrustStore × Option KeyError → TrustStore × Option KeyError
  load_next k (ts, some e) = (ts, some e)
  load_next k (ts, none) = add_key k ts

  abbrev pub load_all :
      List TrustedKey → TrustStore × Option KeyError → TrustStore × Option KeyError
  load_all [] loaded = loaded
  load_all (k ∷ keys) loaded = load_all keys (load_next k loaded)

  -- `LoadKeys`: the store is emptied first, and a key that is refused ends the loading where it is.
  unfoldable pub load_keys : Option (List TrustedKey) → TrustStore → TrustStore × Option KeyError
  load_keys none ts = (ts, some not_parsed)
  load_keys (some keys) ts = load_all keys (new_trust_store, none)

  -- `RemoveKey`: was it there?
  unfoldable pub remove_key : Str → TrustStore → TrustStore × Bool
  remove_key key_id ts = (
    record ts { keys = remove key_id ts.keys; pub_keys = remove key_id ts.pub_keys },
    elim (lookup key_id ts.keys) [ none ↦ false | some k ↦ true ],
  )

  abbrev pub trust_digest : Str → Str → Str
  trust_digest manifest wasm = crypto.sha256 (manifest ++ wasm)

  -- A missing record is the zero one, which is not core.
  abbrev pub tier_of_key : Option TrustedKey → ℕ
  tier_of_key none = 1
  tier_of_key (some k) = if k.is_core then 2 else 1

  abbrev pub verify_with : TrustStore → Str → Str → Str → Str → Option Str → Verified
  verify_with ts manifest wasm sig key_id none = unknown_key
  verify_with ts manifest wasm sig key_id (some p) =
      if crypto.verify p (trust_digest manifest wasm) sig
      then verified (tier_of_key (lookup key_id ts.keys))
      else verification_failed

  unfoldable pub verify_signature : TrustStore → Str → Str → Str → Str → Verified
  verify_signature ts manifest wasm sig key_id =
      if is_nil key_id
      then key_id_empty
      else if not (nat_beq (length sig) 64)
      then wrong_length
      else verify_with ts manifest wasm sig key_id (lookup key_id ts.pub_keys)

  -- The tier that is asked for, up to that of the key; the core tier is not lowered.
  abbrev pub honored : ℕ → Str → Verified → EffectiveTier
  honored requested key_id (verified tier) =
      if nat_beq requested 2 && ltb tier 2
      then core_by_other_key
      else if ltb tier requested
      then effective tier key_id
      else effective requested key_id
  honored requested key_id failure = signature_refused failure

  -- Without a signature by a key of the store, there is the lowest tier.
  abbrev pub lowest : ℕ → EffectiveTier → EffectiveTier
  lowest requested refused = if nat_beq requested 2 then refused else effective 0 []

  abbrev pub tier_for : ℕ → TrustStore → Str → Str → Str → Str → Option Str → EffectiveTier
  tier_for requested ts manifest wasm sig key_id none = lowest requested core_by_unknown_key
  tier_for requested ts manifest wasm sig key_id (some p) =
      honored requested key_id (verify_signature ts manifest wasm sig key_id)

  unfoldable pub determine_effective_tier : ℤ → TrustStore → Str → Str → Str → Str → EffectiveTier
  determine_effective_tier (negsuc n) ts manifest wasm sig key_id = invalid_request
  determine_effective_tier (pos requested) ts manifest wasm sig key_id =
      if ltb 2 requested
      then invalid_request
      else if nat_beq (length sig) 0 || is_nil key_id
      then lowest requested core_signature_required
      else tier_for requested ts manifest wasm sig key_id (lookup key_id ts.pub_keys)
