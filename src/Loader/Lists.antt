-- ===== src/Loader/Lists.antt =====
-- The buckets of bbolt (internal/pluginloader/fsm.go, internal/metadata/store.go) as association lists.
use cipher_lake.Prelude.{
  true, not, ◌||◌, none, some, List, [], ◌∷◌, Str, str_eq, str_eq_iff, has_prefix, is_nil, any,
  lookup, insert, remove, str_key, lookup-insert, lookup-remove, if◌then◌else◌, ◌≡◌, refl, arith,
  ap, subst, sym, ◌∙◌, Bool-cases, inl, inr,
}
use cipher_lake.Loader.Bolt.{Bolt}

unfoldable pub prefixed : {V : Type 0} → Str → List (Str × V) → List Str
prefixed p [] = []
prefixed p ((k, v) ∷ entries) =
    let rest = prefixed p entries in if has_prefix k p then k ∷ rest else rest

any-prefixed :
    {V : Type 0} (p k j : Str) (w : V) (b : List (Str × V))
    → any (str_eq k) (prefixed p ((j, w) ∷ b)) ≡ (
        if has_prefix j p
        then str_eq k j || any (str_eq k) (prefixed p b)
        else any (str_eq k) (prefixed p b))
unfolding prefixed
any-prefixed p k j w b = elim (Bool-cases (has_prefix j p)) [
  | inl e ↦ rw e refl
  | inr e ↦ rw e refl
]

pub prefixed-finds :
    {V : Type 0} (p k : Str) (b : List (Str × V)) (v : V)
    → lookup k b ≡ some v
    → has_prefix k p ≡ true
    → any (str_eq k) (prefixed p b) ≡ true
unfolding prefixed lookup
prefixed-finds p k [] v e h = absurd (cc)
prefixed-finds p k ((j, w) ∷ b) v e h =
    let step = any-prefixed p k j w b in
    elim (Bool-cases (str_eq k j)) [
      | inl here ↦
          let same : k ≡ j = (str_eq_iff k j).0 here in
          let starts : has_prefix j p ≡ true = ap (λ x. has_prefix x p) (sym same) ∙ h in
          step ∙ rw starts (rw here refl)
      | inr there ↦
          let later : lookup k b ≡ some v =
            subst (λ c. (if c then some w else lookup k b) ≡ some v) there e in
          let ih = prefixed-finds p k b v later h in ground (arith, step, ih)
    ]

pub prefixed-keeps :
    {V : Type 0} (p k : Str) (b : List (Str × V))
    → any (str_eq k) (prefixed p b) ≡ true
    → has_prefix k p ≡ true
unfolding prefixed
prefixed-keeps p k [] h = absurd (cc)
prefixed-keeps p k ((j, w) ∷ b) h =
    let step = any-prefixed p k j w b in
    let ih = prefixed-keeps p k b in let same = str_eq_iff k j in ground (arith, step, ih, same, h)

pub lookup-nil : {V : Type 0} (k : Str) → lookup {V = V} k [] ≡ none
unfolding lookup
lookup-nil k = refl

abbrev pub lists : Bolt
lists = record {
  Bucket = λ V. List (Str × V);
  empty = [];
  get = λ k b. lookup k b;
  put = λ k v b. insert k v b;
  delete = λ k b. remove k b;
  key_allowed = λ k. not (is_nil k);
  seek_prefix = λ p b. prefixed p b;
  get-empty = λ k. lookup-nil k;
  get-put = λ j k v b. lookup-insert j k v b;
  get-delete = λ j k b. lookup-remove j k b;
  seek_finds = λ p k b v. prefixed-finds p k b v;
  seek_keeps = λ p k b. prefixed-keeps p k b;
}
