-- ===== src/Loader/Trust/Store.antt =====
-- The store of trusted keys (internal/pluginloader/trust.go), over any history of loads, additions and removals.
use cipher_lake.Prelude.{
  Option, none, some, List, [], ◌∷◌, Str, str_eq, is_nil, length, nat_beq, lookup, lookup-insert,
  lookup-remove, str_key, ◌≡◌, refl, arith, sym, ◌∙◌, Bool-cases, inl, inr,
}
use cipher_lake.Loader.Trust.{
  Crypto, TrustedKey, TrustStore, new_trust_store, KeyError, add_decoded, add_key, load_all,
  load_keys, remove_key,
}

pub data StoreOp : Type 0 where
  load_op : Option (List TrustedKey) → StoreOp
  add_op : TrustedKey → StoreOp
  remove_op : Str → StoreOp

module _ (crypto : Crypto) where
  unfoldable pub apply_store : StoreOp → TrustStore → TrustStore
  apply_store (load_op file) ts = (load_keys crypto file ts).0
  apply_store (add_op k) ts = (add_key crypto k ts).0
  apply_store (remove_op key_id) ts = (remove_key crypto key_id ts).0

  unfoldable pub run_store : List StoreOp → TrustStore → TrustStore
  run_store [] ts = ts
  run_store (op ∷ ops) ts = run_store ops (apply_store op ts)

  -- The public keys are those of the records.
  abbrev pub IsStore : TrustStore → Type 0
  IsStore ts =
      (id p : Str)
      → lookup id ts.pub_keys ≡ some p
      → (k : TrustedKey) × (lookup id ts.keys ≡ some k)
        × (crypto.decode_base64 k.public_key ≡ some p)

  add_decoded-IsStore :
      (k : TrustedKey) (decoded : Option Str) (ts : TrustStore)
      → crypto.decode_base64 k.public_key ≡ decoded
      → IsStore ts
      → IsStore (add_decoded crypto k decoded ts).0
  add_decoded-IsStore k none ts e s = s
  add_decoded-IsStore k (some p) ts e s = elim (Bool-cases (nat_beq (length p) 32)) [
    | inr wrong ↦ rw wrong s
    | inl fits ↦ rw fits (λ id q h.
        let key = lookup-insert k.key_id id k ts.keys in
        let at = sym h ∙ lookup-insert k.key_id id p ts.pub_keys in
        elim (Bool-cases (str_eq k.key_id id)) [
          | inl same ↦
              let is : some q ≡ some p = at ∙ rw same refl in (k, key ∙ rw same refl, e ∙ sym is)
          | inr other ↦
              let is : some q ≡ lookup id ts.pub_keys = at ∙ rw other refl in
              let (j, there, decodes) = s id q (sym is) in (j, key ∙ rw other there, decodes)
        ])
  ]

  add_key-IsStore :
      (k : TrustedKey) (ts : TrustStore) → IsStore ts → IsStore (add_key crypto k ts).0
  unfolding add_key
  add_key-IsStore k ts s = elim (Bool-cases (is_nil k.key_id)) [
    | inl nil ↦ rw nil s
    | inr named ↦ rw named (add_decoded-IsStore k (crypto.decode_base64 k.public_key) ts refl s)
  ]

  load_all-IsStore :
      (keys : List TrustedKey) (loaded : TrustStore × Option KeyError)
      → IsStore loaded.0
      → IsStore (load_all crypto keys loaded).0
  load_all-IsStore [] loaded s = s
  load_all-IsStore (k ∷ keys) (ts, some e) s = load_all-IsStore keys (ts, some e) s
  load_all-IsStore (k ∷ keys) (ts, none) s =
      load_all-IsStore keys (add_key crypto k ts) (add_key-IsStore k ts s)

  pub new_trust_store-IsStore : IsStore new_trust_store
  unfolding lookup
  new_trust_store-IsStore id p h = absurd (ground (arith, h))

  remove_key-IsStore :
      (key_id : Str) (ts : TrustStore) → IsStore ts → IsStore (remove_key crypto key_id ts).0
  unfolding remove_key
  remove_key-IsStore key_id ts s id p h =
      let at = sym h ∙ lookup-remove key_id id ts.pub_keys in
      let key = lookup-remove key_id id ts.keys in
      elim (Bool-cases (str_eq key_id id)) [
        | inl same ↦ let gone : some p ≡ none = at ∙ rw same refl in absurd (ground (arith, gone))
        | inr other ↦
            let is : some p ≡ lookup id ts.pub_keys = at ∙ rw other refl in
            let (k, there, decodes) = s id p (sym is) in (k, key ∙ rw other there, decodes)
      ]

  pub run_store-IsStore :
      (ops : List StoreOp) (ts : TrustStore) → IsStore ts → IsStore (run_store ops ts)
  unfolding run_store apply_store load_keys
  run_store-IsStore [] ts s = s
  run_store-IsStore (load_op none ∷ ops) ts s = run_store-IsStore ops ts s
  run_store-IsStore (load_op (some keys) ∷ ops) ts s =
      run_store-IsStore ops (load_all crypto keys (new_trust_store, none)).0
        (load_all-IsStore keys (new_trust_store, none) new_trust_store-IsStore)
  run_store-IsStore (add_op k ∷ ops) ts s =
      run_store-IsStore ops (add_key crypto k ts).0 (add_key-IsStore k ts s)
  run_store-IsStore (remove_op key_id ∷ ops) ts s =
      run_store-IsStore ops (remove_key crypto key_id ts).0 (remove_key-IsStore key_id ts s)
