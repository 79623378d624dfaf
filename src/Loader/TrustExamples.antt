-- ===== src/Loader/TrustExamples.antt =====
-- A store with a core key and another (internal/pluginloader/trust.go), with a toy for the signatures: a signature is
-- the key and the text, filled up to its size.
use cipher_lake.Prelude.{
  ℕ, true, false, some, List, [], ◌∷◌, ◌++◌, Str, bytes, str_eq, has_prefix, lookup, insert, remove,
  str_key, pos, zero, suc, ◌&&◌, ◌≡◌, refl,
}
use cipher_lake.Loader.Trust.{
  Crypto, TrustedKey, new_trust_store, add_key, load_keys, remove_key, verify_signature,
  determine_effective_tier, core_by_other_key,
}
use cipher_lake.Loader.Trust.Store.{StoreOp, load_op, add_op, remove_op, apply_store, run_store}
use cipher_lake.Loader.Trust.Deserved.{IsDeserved, determine_effective_tier-IsDeserved}

abbrev repeated : ℕ → ℕ → Str
repeated b zero = []
repeated b (suc n) = b ∷ repeated b n

abbrev toy : Crypto
toy = record {
  decode_base64 = λ s. some s;
  sha256 = λ s. s;
  verify = λ p text sig. has_prefix sig text && has_prefix p (repeated 7 1);
}

abbrev core : TrustedKey
core = record {
  key_id = bytes "core";
  public_key = repeated 7 32;
  is_core = true;
  added_at = [];
  added_by = [];
}

abbrev other : TrustedKey
other = record core { key_id = bytes "other"; is_core = false }

abbrev history : List StoreOp
history = add_op other ∷ load_op (some (core ∷ other ∷ [])) ∷ remove_op (bytes "absent") ∷ []

abbrev signature : Str
signature = bytes "mw" ++ repeated 1 62

core_by_other :
    determine_effective_tier toy
      (pos 2)
      (run_store toy history new_trust_store)
      (bytes "m")
      (bytes "w")
      signature
      (bytes "other")
    ≡ core_by_other_key
unfolding run_store apply_store load_keys add_key remove_key lookup insert remove str_eq has_prefix
    verify_signature determine_effective_tier
core_by_other = refl

determine_effective_tier-IsDeserved_example :
    IsDeserved toy
      (run_store toy history new_trust_store)
      (bytes "m")
      (bytes "w")
      signature
      (bytes "core")
      2
      2
      (bytes "core")
unfolding run_store apply_store load_keys add_key remove_key lookup insert remove str_eq has_prefix
    verify_signature determine_effective_tier
determine_effective_tier-IsDeserved_example =
    determine_effective_tier-IsDeserved toy history 2 (bytes "m") (bytes "w") signature
      (bytes "core") 2 (bytes "core") refl
