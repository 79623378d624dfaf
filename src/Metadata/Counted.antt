-- ===== src/Metadata/Counted.antt =====
-- What a put of internal/metadata/store.go is to make of an object, of its bucket's counts, and of the quota.
use cipher_lake.Prelude.{
  ℕ, ◌+◌, ◌≤◌, ◌<◌, true, false, Option, none, some, Str, is_nil, ◌≡◌, ◌⊎◌, refl, inl, inr, arith,
  ltb, leb, ◌&&◌, ℤ, above, below, Bool-cases,
}
use cipher_lake.Metadata.{ObjectRecord, QuotaConfig, BucketInfo}
use cipher_lake.Metadata.Object.{difference, recount, exceeds, stamped}

-- The object that is stored for a given one: its version and time of creation, or new ones where they are missing,
-- the time of the put, and the mark of the latest version; all else as given.
pub record IsStamped (now : ℕ) (new_id : Str) (given o : ObjectRecord) : Type 0 where
  pub new_version : is_nil given.version_id ≡ true → o.version_id ≡ new_id
  pub old_version : is_nil given.version_id ≡ false → o.version_id ≡ given.version_id
  pub new_time : given.created_at ≡ 0 → o.created_at ≡ now
  pub old_time : 1 ≤ given.created_at → o.created_at ≡ given.created_at
  pub modified : o.modified_at ≡ now
  pub latest : o.is_latest ≡ true
  pub kept :
      record o {
        version_id = given.version_id;
        created_at = given.created_at;
        modified_at = given.modified_at;
        is_latest = given.is_latest;
      }
      ≡ given

-- The count of objects goes up by one where the key was new.
abbrev pub IsCount : Option ObjectRecord → ℕ → ℕ → Type 0
IsCount none before after = after ≡ before + 1
IsCount (some old) before after = after ≡ before

-- The difference of the total sizes is the size of the new object less that of the old one.
abbrev pub IsTotal : Option ObjectRecord → ObjectRecord → ℤ → ℤ → Type 0
IsTotal none o before after = above after + below before ≡ above before + o.size + below after
IsTotal (some old) o before after =
    above after + below before + old.size ≡ above before + o.size + below after

-- The bucket's record after a put: its counts, and all else as before.
pub record IsCounted (old : Option ObjectRecord) (o : ObjectRecord) (info after : BucketInfo)
    : Type 0 where
  pub count : IsCount old info.object_count after.object_count
  pub total : IsTotal old o info.total_size after.total_size
  pub kept : record after { object_count = info.object_count; total_size = info.total_size } ≡ info

-- A limit that is set is exceeded.
abbrev pub IsOver : Option QuotaConfig → BucketInfo → Type 0
IsOver none info = ⊥
IsOver (some q) info =
    ((1 ≤ q.max_objects) × (q.max_objects < info.object_count))
    ⊎ ((1 ≤ q.max_size_bytes) × (q.max_size_bytes + below info.total_size < above info.total_size))

-- The entry of the index is the first one.
abbrev pub first_of : Option ObjectRecord → ObjectRecord → ObjectRecord
first_of none o = o
first_of (some old) o = old

pub stamped-IsStamped :
    (now : ℕ) (new_id : Str) (given : ObjectRecord)
    → IsStamped now new_id given (stamped now new_id given)
stamped-IsStamped now new_id given = record {
  new_version = λ h. rw h refl;
  old_version = λ h. rw h refl;
  new_time = λ h. ground (arith, h);
  old_time = λ h. ground (arith, h);
  modified = refl;
  latest = refl;
  kept = refl;
}

difference_lem : (a b : ℕ) → above (difference a b) + b ≡ a + below (difference a b)
difference_lem a b = elim (Bool-cases (leb b a)) [
  | inl over ↦ rw over (ground (arith, over))
  | inr under ↦ rw under (ground (arith, under))
]

pub recount-IsCounted :
    (old : Option ObjectRecord) (o : ObjectRecord) (info : BucketInfo)
    → IsCounted old o info (recount old o info)
recount-IsCounted none o info =
    let d = difference_lem (above info.total_size + o.size) (below info.total_size + 0) in
    record { count = refl; total = omega (arith, d); kept = refl }
recount-IsCounted (some old) o info =
    let d = difference_lem (above info.total_size + o.size) (below info.total_size + old.size) in
    record { count = refl; total = omega (arith, d); kept = refl }

pub exceeds-IsOver :
    (q : Option QuotaConfig) (info : BucketInfo) → exceeds q info ≡ true → IsOver q info
exceeds-IsOver none info h = absurd (ground (arith, h))
exceeds-IsOver (some q) info h =
    elim (Bool-cases (ltb 0 q.max_objects && ltb q.max_objects info.object_count)) [
      | inl many ↦ inl (ground (arith, many), ground (arith, many))
      | inr few ↦ inr (ground (arith, h, few), ground (arith, h, few))
    ]

pub exceeds-within :
    (q : Option QuotaConfig) (info : BucketInfo) → exceeds q info ≡ false → ¬ IsOver q info
exceeds-within none info h over = absurd over
exceeds-within (some q) info h (inl (a, b)) = absurd (ground (arith, h, a, b))
exceeds-within (some q) info h (inr (a, b)) = absurd (ground (arith, h, a, b))
