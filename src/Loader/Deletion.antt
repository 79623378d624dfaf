-- ===== src/Loader/Deletion.antt =====
-- Deleting the keys that a cursor has found, as internal/pluginloader/fsm.go and internal/metadata/store.go do it.
use cipher_lake.Prelude.{
  Bool, true, false, Option, none, List, [], ◌∷◌, Str, str_eq, str_eq_iff, has_prefix, any,
  if◌then◌else◌, ◌≡◌, ◌≢◌, ◌||◌, ◌&&◌, refl, arith, ◌∙◌, sym, ap, Bool-cases, Option-cases, inl,
  inr,
}
use cipher_lake.Loader.Bolt.{Bolt}

module _ (bolt : Bolt) where
  unfoldable pub delete_all : {V : Type 0} → List Str → bolt.Bucket V → bolt.Bucket V
  delete_all [] b = b
  delete_all (k ∷ ks) b = delete_all ks (bolt.delete k b)

  -- A deleted list of keys reads as missing, and every other key as before.
  pub get-delete_all :
      {V : Type 0} (ks : List Str) (k : Str) (b : bolt.Bucket V)
      → bolt.get k (delete_all ks b) ≡ (if any (str_eq k) ks then none else bolt.get k b)
  unfolding delete_all
  get-delete_all [] k b = refl
  get-delete_all (j ∷ ks) k b =
      let ih = get-delete_all ks k (bolt.delete j b) in
      let one = bolt.get-delete j k b in ground (arith, ih, one, str_eq_iff j k, str_eq_iff k j)

  true_not_false : true ≢ false
  true_not_false e = absurd (cc)

  -- What the keys under a prefix leave.
  pub get-delete_prefix :
      {V : Type 0} (prefix k : Str) (b : bolt.Bucket V)
      → bolt.get k (delete_all (bolt.seek_prefix prefix b) b)
        ≡ (if has_prefix k prefix then none else bolt.get k b)
  get-delete_prefix prefix k b =
      let keys = bolt.seek_prefix prefix b in
      let all = get-delete_all keys k b in
      let finds = bolt.seek_finds prefix k b in
      elim (Bool-cases (any (str_eq k) keys)) [
        | inl found ↦ all ∙ rw found (rw (bolt.seek_keeps prefix k b found) refl)
        | inr missing ↦ elim (Bool-cases (has_prefix k prefix)) [
          | inl starts ↦ elim (Option-cases (bolt.get k b)) [
            | inl e ↦ all ∙ rw missing (rw starts e)
            | inr (v, e) ↦ absurd (true_not_false (sym (finds v e starts) ∙ missing))
          ]
          | inr other ↦ all ∙ rw missing (rw other refl)
        ]
      ]

  -- The keys of a whole bucket whose records pass a test.
  abbrev pub passing : {V : Type 0} → (Str → Option V → Bool) → bolt.Bucket V → List Str → List Str
  passing test b [] = []
  passing test b (k ∷ ks) =
      let rest = passing test b ks in if test k (bolt.get k b) then k ∷ rest else rest

  unfoldable pub keys_where : {V : Type 0} → (Str → Option V → Bool) → bolt.Bucket V → List Str
  keys_where test b = passing test b (bolt.seek_prefix [] b)

  any-if :
      (f : Str → Bool) (j : Str) (ks : List Str) (b : Bool)
      → any f (if b then j ∷ ks else ks) ≡ (if b then f j || any f ks else any f ks)
  any-if f j ks true = refl
  any-if f j ks false = refl

  pub any-passing :
      {V : Type 0} (test : Str → Option V → Bool) (b : bolt.Bucket V) (k : Str) (ks : List Str)
      → any (str_eq k) (passing test b ks) ≡ (test k (bolt.get k b) && any (str_eq k) ks)
  any-passing test b k [] = ground arith
  any-passing test b k (j ∷ ks) =
      let ih = any-passing test b k ks in
      let one = any-if (str_eq k) j (passing test b ks) (test j (bolt.get j b)) in
      let same : str_eq k j ≡ true → test k (bolt.get k b) ≡ test j (bolt.get j b) =
        λ here. ap (λ i. test i (bolt.get i b)) ((str_eq_iff k j).0 here) in
      ground (arith, ih, one, same)

  -- What the keys of those records leave.
  pub get-delete_where :
      {V : Type 0} (test : Str → Option V → Bool) (k : Str) (b : bolt.Bucket V)
      → bolt.get k (delete_all (keys_where test b) b)
        ≡ (if test k (bolt.get k b) then none else bolt.get k b)
  unfolding keys_where has_prefix
  get-delete_where test k b =
      let all = get-delete_all (passing test b (bolt.seek_prefix [] b)) k b in
      let some_key = any-passing test b k (bolt.seek_prefix [] b) in
      elim (Option-cases (bolt.get k b)) [
        | inl e ↦ ground (arith, all, e)
        | inr (v, e) ↦
            let there = bolt.seek_finds [] k b v e refl in ground (arith, all, some_key, there)
      ]
