-- ===== src/Iam/Types.antt =====
-- The types of internal/iam/types.go that policy evaluation reads, and the reads of the store of
-- internal/iam/store.go, which are parameters. A string is its bytes. Fields that the evaluation never
-- reads (creation times, access keys, descriptions) are left out.
use cipher_lake.Prelude.{Bool, Option, List, Str, bytes}

abbrev pub arn_prefix : Str
arn_prefix = bytes "arn:cipherlake:"

abbrev pub service_s3 : Str
service_s3 = bytes "s3"

abbrev pub effect_allow : Str
effect_allow = bytes "Allow"

abbrev pub effect_deny : Str
effect_deny = bytes "Deny"

pub record Principal : Type 0 where
  pub aws : List Str
  pub service : List Str
  pub federated : List Str

-- The value of a condition, an `interface{}` that came from JSON. Of a list's items only strings
-- matter, so another item is `none`; any other value is the text that `%v` prints.
pub data CondValue : Type 0 where
  text : Str → CondValue
  texts : List (Option Str) → CondValue
  boolean : Bool → CondValue
  other : Str → CondValue

pub record Statement : Type 0 where
  pub sid : Str
  pub effect : Str
  pub action : List Str
  pub not_action : List Str
  pub resource : List Str
  pub not_resource : List Str
  pub principal : Option Principal
  pub not_principal : Option Principal
  pub condition : List (Str × List (Str × CondValue))

pub record PolicyDocument : Type 0 where
  pub version : Str
  pub id : Str
  pub statement : List Statement

pub record IamUser : Type 0 where
  pub name : Str
  pub groups : List Str
  pub attached_policies : List Str
  pub inline_policies : List PolicyDocument
  pub permission_boundary : Str

pub record IamGroup : Type 0 where
  pub name : Str
  pub users : List Str
  pub attached_policies : List Str

pub record IamPolicy : Type 0 where
  pub arn : Str
  pub name : Str
  pub document : PolicyDocument

pub record BucketPolicy : Type 0 where
  pub bucket : Str
  pub document : PolicyDocument

-- The reads of the store: what BoltDB holds under a name, `none` where the read fails.
pub record IamStore : Type 0 where
  pub get_user : Str → Option IamUser
  pub get_group : Str → Option IamGroup
  pub get_policy : Str → Option IamPolicy
  pub get_bucket_policy : Str → Option BucketPolicy
  pub scp : Option PolicyDocument

-- `time` is the RFC 3339 text of the request's time, `none` for the zero time.
pub record EvalContext : Type 0 where
  pub principal : Str
  pub action : Str
  pub resource : Str
  pub conditions : List (Str × Str)
  pub source_ip : Str
  pub time : Option Str
  pub user_agent : Str
  pub principal_type : Str
  pub resource_tags : List (Str × Str)
  pub principal_tags : List (Str × Str)
  pub request_tags : List (Str × Str)
  pub s3_prefix : Str
  pub s3_acl : Str

pub data Decision : Type 0 where
  deny allow implicit_deny : Decision

-- The human-readable `Details` are left out.
pub record EvalResult : Type 0 where
  pub decision : Decision
  pub matched_by : Str
  pub policy_type : Str
  pub policy_name : Str
