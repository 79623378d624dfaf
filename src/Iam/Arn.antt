-- ===== src/Iam/Arn.antt =====
-- Resource names: the ARN functions of internal/iam/types.go and the conversions of
-- internal/iam/policy.go. `filepath.ToSlash` changes nothing where the separator is a slash.
use cipher_lake.Prelude.{
  ℕ, Bool, false, Option, none, some, [], ◌∷◌, ◌++◌, Str, bytes, ◌||◌, ◌≡◌, refl, arith, has_prefix,
  trim_prefix, contains_byte, split_first, split_first-append, split_first-none, if◌then◌else◌,
}
use cipher_lake.Iam.Types.{arn_prefix, service_s3}

abbrev slash : ℕ
slash = b'/'

pub make_arn : Str → Str → Str
make_arn service resource = arn_prefix ++ (service ++ (bytes ":::" ++ resource))

pub make_bucket_arn : Str → Str
unfolding make_arn
make_bucket_arn bucket = make_arn service_s3 bucket

pub make_object_arn : Str → Str → Str
unfolding make_arn
make_object_arn bucket key = make_arn service_s3 (bucket ++ (slash ∷ key))

abbrev pub s3_prefix : Str
s3_prefix = arn_prefix ++ (service_s3 ++ bytes ":::")

-- `parts[0]` of the text behind the prefix.
unfoldable pub extract_bucket_from_resource : Str → Str
extract_bucket_from_resource resource =
    if has_prefix resource s3_prefix
    then (split_first slash (trim_prefix resource s3_prefix)).0
    else []

or_empty : Str × Option Str → Str × Str
or_empty (bucket, none) = (bucket, [])
or_empty (bucket, some key) = (bucket, key)

pub resource_to_s3_path : Str → Str × Str
unfolding or_empty
resource_to_s3_path resource =
    if has_prefix resource s3_prefix
    then or_empty (split_first slash (trim_prefix resource s3_prefix))
    else ([], [])

pub s3_path_to_resource : Str → Str → Str
unfolding make_bucket_arn make_object_arn
s3_path_to_resource bucket [] = make_bucket_arn bucket
s3_path_to_resource bucket (c ∷ key) = make_object_arn bucket (c ∷ key)

pub is_admin_action : Str → Bool
is_admin_action action =
    has_prefix action (bytes "iam:")
    || (has_prefix action (bytes "sts:") || has_prefix action (bytes "admin:"))

-- Behind the prefix the text is split at its first slash.
resource_to_s3_path-s3_prefix :
    (rest : Str) → resource_to_s3_path (s3_prefix ++ rest) ≡ or_empty (split_first slash rest)
unfolding resource_to_s3_path has_prefix trim_prefix
resource_to_s3_path-s3_prefix rest = refl

extract_bucket-s3_prefix :
    (rest : Str) → extract_bucket_from_resource (s3_prefix ++ rest) ≡ (split_first slash rest).0
unfolding extract_bucket_from_resource has_prefix trim_prefix
extract_bucket-s3_prefix rest = refl

-- A bucket name with no slash and any key come back from the resource that they are made into, and
-- the bucket policy that evaluation fetches is that bucket's.
pub resource_to_s3_path-s3_path_to_resource :
    (bucket key : Str)
    → contains_byte slash bucket ≡ false
    → (resource_to_s3_path (s3_path_to_resource bucket key) ≡ (bucket, key))
      × (extract_bucket_from_resource (s3_path_to_resource bucket key) ≡ bucket)
unfolding s3_path_to_resource or_empty
resource_to_s3_path-s3_path_to_resource bucket [] h = ground (
  arith,
  resource_to_s3_path-s3_prefix bucket,
  extract_bucket-s3_prefix bucket,
  split_first-none slash bucket h,
)
resource_to_s3_path-s3_path_to_resource bucket (c ∷ key) h = ground (
  arith,
  resource_to_s3_path-s3_prefix (bucket ++ slash ∷ c ∷ key),
  extract_bucket-s3_prefix (bucket ++ slash ∷ c ∷ key),
  split_first-append slash bucket (c ∷ key) h,
)
