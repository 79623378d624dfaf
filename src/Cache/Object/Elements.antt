-- ===== src/Cache/Object/Elements.antt =====
-- The elements of the list of `ObjectCache` in internal/cache/cache.go, found and removed by address.
use text.Mathlib.Text.{◌==◌}
use text.Mathlib.TextEquality.{eq_iff}
use cipher_lake.Prelude.{
  ℕ, suc, is_nil, ◌++◌, ◌+◌, ◌<◌, Bool, true, false, Option, none, some, List, [], ◌∷◌, String,
  nat_beq, length, if◌then◌else◌, ◌||◌, ◌≡◌, refl, arith, Bool-cases, inl, inr, is_some,
}

pub record CacheItem : Type 0 where
  pub id : ℕ
  pub key : String
  pub value : List ℕ
  pub size : ℕ
  pub created_at : ℕ
  pub accessed_at : ℕ
  pub access_count : ℕ

unfoldable pub find_id : ℕ → List CacheItem → Option CacheItem
find_id i [] = none
find_id i (e ∷ es) = if nat_beq e.id i then some e else find_id i es

unfoldable pub remove_id : ℕ → List CacheItem → List CacheItem
remove_id i [] = []
remove_id i (e ∷ es) = let rest = remove_id i es in if nat_beq e.id i then es else e ∷ rest

-- `lruList.Back()`.
unfoldable pub last : List CacheItem → Option CacheItem
last [] = none
last (e ∷ []) = some e
last (e ∷ f ∷ es) = last (f ∷ es)

-- The address of the element that holds a key.
unfoldable pub find_key : String → List CacheItem → Option ℕ
find_key k [] = none
find_key k (e ∷ es) = if e.key == k then some e.id else find_key k es

unfoldable pub total : List CacheItem → ℕ
total [] = 0
total (e ∷ es) = e.size + total es

abbrev pub has_id : ℕ → List CacheItem → Bool
has_id i [] = false
has_id i (e ∷ es) = nat_beq e.id i || has_id i es

abbrev pub has_key : String → List CacheItem → Bool
has_key k [] = false
has_key k (e ∷ es) = e.key == k || has_key k es

-- No two elements share an address or a key, and addresses are below `n`.
abbrev pub Distinct : ℕ → List CacheItem → Type 0
Distinct n [] = Unit {0}
Distinct n (e ∷ es) =
    (e.id < n) × (has_id e.id es ≡ false) × (has_key e.key es ≡ false) × Distinct n es

pub has_id-remove_id :
    (j i : ℕ) (es : List CacheItem) → has_id j es ≡ false → has_id j (remove_id i es) ≡ false
unfolding remove_id
has_id-remove_id j i [] h = refl
has_id-remove_id j i (e ∷ es) h = ground (arith, has_id-remove_id j i es)

pub has_key-remove_id :
    (k : String) (i : ℕ) (es : List CacheItem)
    → has_key k es ≡ false
    → has_key k (remove_id i es) ≡ false
unfolding remove_id
has_key-remove_id k i [] h = refl
has_key-remove_id k i (e ∷ es) h = ground (arith, has_key-remove_id k i es)

pub Distinct-remove_id :
    (n i : ℕ) (es : List CacheItem) → Distinct n es → Distinct n (remove_id i es)
unfolding remove_id
Distinct-remove_id n i [] d = tt
Distinct-remove_id n i (e ∷ es) d =
    ground (
      arith,
      Distinct-remove_id n i es d.3,
      has_id-remove_id e.id i es,
      has_key-remove_id e.key i es,
    )

pub find_id-id : (i : ℕ) (es : List CacheItem) (e : CacheItem) → find_id i es ≡ some e → e.id ≡ i
unfolding find_id
find_id-id i [] e h = ground arith
find_id-id i (x ∷ es) e h = ground (arith, find_id-id i es e)

pub total-remove_id :
    (i : ℕ) (es : List CacheItem) (e : CacheItem)
    → find_id i es ≡ some e
    → total es ≡ e.size + total (remove_id i es)
unfolding find_id remove_id total
total-remove_id i [] e h = ground arith
total-remove_id i (x ∷ es) e h = ground (arith, total-remove_id i es e)

find_key-absent : (k : String) (es : List CacheItem) → has_key k es ≡ false → find_key k es ≡ none
unfolding find_key
find_key-absent k [] h = refl
find_key-absent k (e ∷ es) h = ground (arith, find_key-absent k es)

pub find_id_has :
    (i : ℕ) (es : List CacheItem) (e : CacheItem) → find_id i es ≡ some e → has_key e.key es ≡ true
unfolding find_id
find_id_has i [] e h = ground arith
find_id_has i (x ∷ es) e h = ground (arith, find_id_has i es e, eq_iff e.key e.key)

-- Removing an element makes its key unknown and leaves the other keys where they are.
pub find_key-remove_id :
    (n i : ℕ) (es : List CacheItem) (e : CacheItem) (k : String)
    → Distinct n es
    → find_id i es ≡ some e
    → find_key k (remove_id i es) ≡ (if e.key == k then none else find_key k es)
unfolding find_id remove_id find_key
find_key-remove_id n i [] e k d h = ground arith
find_key-remove_id n i (x ∷ es) e k d h = ground (
  arith,
  find_key-remove_id n i es e k d.3,
  find_key-absent k es,
  find_id_has i es e,
  eq_iff x.key k,
  eq_iff e.key k,
  eq_iff x.key e.key,
)

pub has_key_removed :
    (n i : ℕ) (es : List CacheItem) (e : CacheItem)
    → Distinct n es
    → find_id i es ≡ some e
    → (has_key e.key (remove_id i es) ≡ false) × (has_id i (remove_id i es) ≡ false)
unfolding find_id remove_id
has_key_removed n i [] e d h = ground arith
has_key_removed n i (x ∷ es) e d h =
    ground (arith, has_key_removed n i es e d.3, find_id_has i es e, eq_iff x.key e.key)

find_id-has_id :
    (i : ℕ) (es : List CacheItem) (e : CacheItem) → find_id i es ≡ some e → has_id i es ≡ true
unfolding find_id
find_id-has_id i [] e h = ground arith
find_id-has_id i (x ∷ es) e h = ground (arith, find_id-has_id i es e)

-- The address that a key leads to is that of an element with the key.
pub find_key-find_id :
    (n i : ℕ) (es : List CacheItem) (k : String)
    → Distinct n es
    → find_key k es ≡ some i
    → (e : CacheItem) × (find_id i es ≡ some e) × (e.key ≡ k)
unfolding find_id find_key
find_key-find_id n i [] k d h = ground arith
find_key-find_id n i (x ∷ es) k d h = elim (Bool-cases (x.key == k)) [
  | inl here ↦ (x, ground arith, ground (arith, eq_iff x.key k))
  | inr there ↦
      let (e, found, same) = find_key-find_id n i es k d.3 (ground arith) in
      (e, ground (arith, find_id-has_id i es e found), same)
]

-- The back of a list is found by its address, unless the list is empty.
pub find_id-last :
    (n : ℕ) (es : List CacheItem) (e : CacheItem)
    → Distinct n es
    → last es ≡ some e
    → find_id e.id es ≡ some e
unfolding find_id last
find_id-last n [] e d h = ground arith
find_id-last n (x ∷ []) e d h = ground arith
find_id-last n (x ∷ y ∷ es) e d h =
    let ih = find_id-last n (y ∷ es) e d.3 h in
    ground (arith, ih, find_id-has_id e.id (y ∷ es) e ih)

pub last-cons : (e : CacheItem) (es : List CacheItem) → is_some (last (e ∷ es)) ≡ true
unfolding last
last-cons e [] = refl
last-cons e (f ∷ es) = last-cons f es

pub length-remove_id :
    (i : ℕ) (es : List CacheItem) (e : CacheItem)
    → find_id i es ≡ some e
    → length es ≡ suc (length (remove_id i es))
unfolding find_id remove_id
length-remove_id i [] e h = ground arith
length-remove_id i (x ∷ es) e h = ground (arith, length-remove_id i es e)

-- An element that an address leads to is the one that its key leads to.
pub find_key_found :
    (n i : ℕ) (es : List CacheItem) (e : CacheItem)
    → Distinct n es
    → find_id i es ≡ some e
    → (find_key e.key es ≡ some e.id) × (e.id < n)
unfolding find_id find_key
find_key_found n i [] e d h = ground arith
find_key_found n i (x ∷ es) e d h =
    ground (
      arith,
      find_key_found n i es e d.3,
      find_id_has i es e,
      eq_iff x.key e.key,
      eq_iff e.key e.key,
    )

pub has_id-fresh : (n : ℕ) (es : List CacheItem) → Distinct n es → has_id n es ≡ false
has_id-fresh n [] d = refl
has_id-fresh n (e ∷ es) d = ground (arith, has_id-fresh n es d.3)

pub Distinct-grow : (n : ℕ) (es : List CacheItem) → Distinct n es → Distinct (n + 1) es
Distinct-grow n [] d = tt
Distinct-grow n (e ∷ es) d = ground (arith, Distinct-grow n es d.3)

pub find_key-none : (k : String) (es : List CacheItem) → find_key k es ≡ none → has_key k es ≡ false
unfolding find_key
find_key-none k [] h = refl
find_key-none k (e ∷ es) h = ground (arith, find_key-none k es)

-- Removing the back of a list leaves what stands in front of it.
pub remove_id-last :
    (n : ℕ) (es : List CacheItem) (e : CacheItem)
    → Distinct n es
    → last es ≡ some e
    → remove_id e.id es ++ (e ∷ []) ≡ es
unfolding last remove_id
remove_id-last n [] e d h = ground arith
remove_id-last n (x ∷ []) e d h = ground arith
remove_id-last n (x ∷ y ∷ es) e d h = ground (
  arith,
  remove_id-last n (y ∷ es) e d.3 h,
  find_id-has_id e.id (y ∷ es) e (find_id-last n (y ∷ es) e d.3 h),
)

pub last-none : (es : List CacheItem) → last es ≡ none → is_nil es ≡ true
unfolding last
last-none [] h = refl
last-none (e ∷ es) h = ground (arith, last-cons e es)
