-- ===== src/Iam/Service.antt =====
-- Managed policies and what they are attached to (internal/iam/service.go and boundary.go, over the maps of store.go). An
-- operation takes as an argument whether the store writes; a read of the store does not fail but for what is missing.
pub mod Attached
pub mod Kept
pub mod Run
use cipher_lake.Prelude.{
  Bool, true, false, Option, none, some, List, [], ◌∷◌, ◌++◌, Str, bytes, str_eq, is_nil, any, ◌||◌,
  lookup, insert, remove, str_key, if◌then◌else◌,
}
use cipher_lake.Iam.Types.{PolicyDocument, IamUser, IamGroup, IamPolicy}
use cipher_lake.Iam.Arn.{make_arn}

pub record IamRole : Type 0 where
  pub name : Str
  pub trust_policy : PolicyDocument
  pub permission_policies : List Str

pub record IamState : Type 0 where
  pub users : List (Str × IamUser)
  pub groups : List (Str × IamGroup)
  pub policies : List (Str × IamPolicy)
  pub roles : List (Str × IamRole)

abbrev pub new_iam_state : IamState
new_iam_state = record { users = []; groups = []; policies = []; roles = [] }

pub data ServiceError : Type 0 where
  already_exists : ServiceError
  not_found : ServiceError
  not_written : ServiceError
  attached_to_user : ServiceError
  used_as_boundary : ServiceError
  attached_to_group : ServiceError
  attached_to_role : ServiceError

abbrev pub Outcome : Type 0
Outcome = IamState × Option ServiceError

-- What is looked up has to be there.
abbrev pub on_found : {V : Type 0} → IamState → Option V → (V → Outcome) → Outcome
on_found s none change = (s, some not_found)
on_found s (some v) change = change v

abbrev pub put_user : Bool → Str → IamUser → IamState → Outcome
put_user false name u s = (s, some not_written)
put_user true name u s = (record s { users = insert name u s.users }, none)

abbrev pub put_group : Bool → Str → IamGroup → IamState → Outcome
put_group false name g s = (s, some not_written)
put_group true name g s = (record s { groups = insert name g s.groups }, none)

abbrev pub put_role : Bool → Str → IamRole → IamState → Outcome
put_role false name r s = (s, some not_written)
put_role true name r s = (record s { roles = insert name r s.roles }, none)

abbrev pub put_policy : Bool → Str → IamPolicy → IamState → Outcome
put_policy false name p s = (s, some not_written)
put_policy true name p s = (record s { policies = insert name p s.policies }, none)

abbrev pub is_some : {V : Type 0} → Option V → Bool
is_some none = false
is_some (some v) = true

abbrev pub has_entry : {V : Type 0} → Str → List (Str × V) → Bool
has_entry name entries = is_some (lookup name entries)

abbrev pub new_user : Str → IamUser
new_user name = record {
  name = name;
  groups = [];
  attached_policies = [];
  inline_policies = [];
  permission_boundary = [];
}

unfoldable pub create_user : Bool → Str → IamState → Outcome
create_user writes name s =
    if has_entry name s.users
    then (s, some already_exists)
    else put_user writes name (new_user name) s

abbrev pub new_group : Str → IamGroup
new_group name = record { name = name; users = []; attached_policies = [] }

unfoldable pub create_group : Bool → Str → IamState → Outcome
create_group writes name s =
    if has_entry name s.groups
    then (s, some already_exists)
    else put_group writes name (new_group name) s

unfoldable pub create_role : Bool → Str → PolicyDocument → IamState → Outcome
create_role writes name trust s =
    if has_entry name s.roles
    then (s, some already_exists)
    else put_role writes name
        (record { name = name; trust_policy = trust; permission_policies = [] }) s

abbrev pub make_policy_arn : Str → Str
make_policy_arn name = make_arn (bytes "iam") (bytes "policy/" ++ name)

unfoldable pub create_policy : Bool → Str → PolicyDocument → IamState → Outcome
create_policy writes name document s =
    if has_entry name s.policies
    then (s, some already_exists)
    else put_policy writes name
        (record { arn = make_policy_arn name; name = name; document = document }) s

-- `removeString`: the first of them.
abbrev pub remove_string : List Str → Str → List Str
remove_string [] x = []
remove_string (y ∷ ys) x = let rest = remove_string ys x in if str_eq y x then ys else y ∷ rest

-- Only where the policy is new to them, they are written.
abbrev pub attach_to : Bool → List Str → Str → Outcome → IamState → Outcome
attach_to known refs name put s =
    if known then if any (λ r. str_eq r name) refs then (s, none) else put else (s, some not_found)

unfoldable pub attach_user_policy : Bool → Str → Str → IamState → Outcome
attach_user_policy writes user policy s = on_found s (lookup user s.users) (λ u.
    attach_to (has_entry policy s.policies) u.attached_policies policy
      (put_user writes user (record u { attached_policies = u.attached_policies ++ policy ∷ [] }) s)
      s)

unfoldable pub detach_user_policy : Bool → Str → Str → IamState → Outcome
detach_user_policy writes user policy s = on_found s (lookup user s.users) (λ u.
    put_user writes user (record u { attached_policies = remove_string u.attached_policies policy })
      s)

unfoldable pub attach_group_policy : Bool → Str → Str → IamState → Outcome
attach_group_policy writes group policy s = on_found s (lookup group s.groups) (λ g.
    attach_to (has_entry policy s.policies) g.attached_policies policy
      (put_group writes group (record g { attached_policies = g.attached_policies ++ policy ∷ [] })
        s)
      s)

unfoldable pub detach_group_policy : Bool → Str → Str → IamState → Outcome
detach_group_policy writes group policy s = on_found s (lookup group s.groups) (λ g.
    put_group writes group
      (record g { attached_policies = remove_string g.attached_policies policy }) s)

unfoldable pub attach_role_policy : Bool → Str → Str → IamState → Outcome
attach_role_policy writes role policy s = on_found s (lookup role s.roles) (λ r.
    attach_to (has_entry policy s.policies) r.permission_policies policy
      (put_role writes role
        (record r { permission_policies = r.permission_policies ++ policy ∷ [] }) s)
      s)

unfoldable pub detach_role_policy : Bool → Str → Str → IamState → Outcome
detach_role_policy writes role policy s = on_found s (lookup role s.roles) (λ r.
    put_role writes role
      (record r { permission_policies = remove_string r.permission_policies policy }) s)

unfoldable pub delete_role : Bool → Str → IamState → Outcome
delete_role false name s = (s, some not_written)
delete_role true name s = (record s { roles = remove name s.roles }, none)

unfoldable pub set_permission_boundary : Bool → Str → Str → IamState → Outcome
set_permission_boundary writes user policy s = on_found s (lookup user s.users) (λ u.
    if has_entry policy s.policies
    then put_user writes user (record u { permission_boundary = policy }) s
    else (s, some not_found))

unfoldable pub remove_permission_boundary : Bool → Str → IamState → Outcome
remove_permission_boundary writes user s =
    on_found s (lookup user s.users)
      (λ u. put_user writes user (record u { permission_boundary = [] }) s)

abbrev pub has_policy_ref : Str → List Str → Bool
has_policy_ref name refs = any (λ ref. str_eq ref name || str_eq ref (make_policy_arn name)) refs

abbrev pub users_refer : Str → List (Str × IamUser) → Option ServiceError
users_refer name [] = none
users_refer name ((n, u) ∷ users) =
    let rest = users_refer name users in
    if has_policy_ref name u.attached_policies
    then some attached_to_user
    else if has_policy_ref name (u.permission_boundary ∷ [])
    then some used_as_boundary
    else rest

abbrev pub groups_refer : Str → List (Str × IamGroup) → Option ServiceError
groups_refer name [] = none
groups_refer name ((n, g) ∷ groups) =
    let rest = groups_refer name groups in
    if has_policy_ref name g.attached_policies then some attached_to_group else rest

abbrev pub roles_refer : Str → List (Str × IamRole) → Option ServiceError
roles_refer name [] = none
roles_refer name ((n, r) ∷ roles) =
    let rest = roles_refer name roles in
    if has_policy_ref name r.permission_policies then some attached_to_role else rest

abbrev pub or_else : Option ServiceError → Option ServiceError → Option ServiceError
or_else none later = later
or_else (some e) later = some e

unfoldable pub ensure_policy_not_attached : Str → IamState → Option ServiceError
ensure_policy_not_attached name s =
    or_else (users_refer name s.users)
      (or_else (groups_refer name s.groups) (roles_refer name s.roles))

abbrev pub delete_unless : Bool → Str → IamState → Option ServiceError → Outcome
delete_unless writes name s (some e) = (s, some e)
delete_unless false name s none = (s, some not_written)
delete_unless true name s none = (record s { policies = remove name s.policies }, none)

unfoldable pub delete_policy : Bool → Str → IamState → Outcome
delete_policy writes name s = delete_unless writes name s (ensure_policy_not_attached name s)

pub data ServiceCall : Type 0 where
  create_user_call : Str → ServiceCall
  create_group_call : Str → ServiceCall
  create_role_call : Str → PolicyDocument → ServiceCall
  create_policy_call : Str → PolicyDocument → ServiceCall
  attach_user_call : Str → Str → ServiceCall
  detach_user_call : Str → Str → ServiceCall
  attach_group_call : Str → Str → ServiceCall
  detach_group_call : Str → Str → ServiceCall
  attach_role_call : Str → Str → ServiceCall
  detach_role_call : Str → Str → ServiceCall
  delete_role_call : Str → ServiceCall
  set_boundary_call : Str → Str → ServiceCall
  remove_boundary_call : Str → ServiceCall
  delete_policy_call : Str → ServiceCall

unfoldable pub apply_call : Bool → ServiceCall → IamState → Outcome
apply_call writes (create_user_call name) s = create_user writes name s
apply_call writes (create_group_call name) s = create_group writes name s
apply_call writes (create_role_call name trust) s = create_role writes name trust s
apply_call writes (create_policy_call name document) s = create_policy writes name document s
apply_call writes (attach_user_call user policy) s = attach_user_policy writes user policy s
apply_call writes (detach_user_call user policy) s = detach_user_policy writes user policy s
apply_call writes (attach_group_call group policy) s = attach_group_policy writes group policy s
apply_call writes (detach_group_call group policy) s = detach_group_policy writes group policy s
apply_call writes (attach_role_call role policy) s = attach_role_policy writes role policy s
apply_call writes (detach_role_call role policy) s = detach_role_policy writes role policy s
apply_call writes (delete_role_call name) s = delete_role writes name s
apply_call writes (set_boundary_call user policy) s = set_permission_boundary writes user policy s
apply_call writes (remove_boundary_call user) s = remove_permission_boundary writes user s
apply_call writes (delete_policy_call name) s = delete_policy writes name s

-- Calls one after the other, each with whether the store writes.
unfoldable pub run_service : List (Bool × ServiceCall) → IamState → IamState
run_service [] s = s
run_service ((writes, call) ∷ calls) s = run_service calls (apply_call writes call s).0
