-- ===== src/Iam/Service/Kept.antt =====
-- References to policies under each call of internal/iam/service.go.
use cipher_lake.Prelude.{
  Bool, true, false, Option, none, some, List, [], ◌∷◌, Str, str_eq, str_eq_iff, any, insert,
  remove, lookup-insert, lookup-remove, str_key, if◌then◌else◌, ◌≡◌, ◌⊎◌, inl, inr, refl, arith, ap,
  sym, ◌∙◌, Bool-cases,
}
use cipher_lake.Iam.Types.{IamUser, IamGroup, IamPolicy}
use cipher_lake.Iam.Service.{
  IamRole, IamState, ServiceError, already_exists, not_found, Outcome, on_found, put_policy,
  is_some, attach_to, has_policy_ref, users_refer, groups_refer, roles_refer, or_else,
  ensure_policy_not_attached, delete_unless, delete_policy,
}
use cipher_lake.Iam.Service.Attached.{
  IsAll, IsPolicy, IsPolicies, IsUserKnown, IsGroupKnown, IsRoleKnown, IsKnown, IsAll-map,
  IsPolicies-map,
}

pub put_policy-IsKnown :
    (writes : Bool) (name : Str) (p : IamPolicy) (s : IamState)
    → IsKnown s
    → IsKnown (put_policy writes name p s).0
put_policy-IsKnown false name p s k = k
put_policy-IsKnown true name p s k = record {
  of_users =
      IsAll-map (IsUserKnown s.policies) (IsUserKnown after) s.users
        (λ u h. (IsPolicies-map s.policies after u.attached_policies stays h.0, bounded u h.1))
        k.of_users;
  of_groups =
      IsAll-map (IsGroupKnown s.policies) (IsGroupKnown after) s.groups
        (λ g h. IsPolicies-map s.policies after g.attached_policies stays h) k.of_groups;
  of_roles =
      IsAll-map (IsRoleKnown s.policies) (IsRoleKnown after) s.roles
        (λ r h. IsPolicies-map s.policies after r.permission_policies stays h) k.of_roles;
}
  where
    after : List (Str × IamPolicy)
    after = insert name p s.policies

    stays : (r : Str) → IsPolicy s.policies r → IsPolicy (insert name p s.policies) r
    stays r h = elim (Bool-cases (str_eq name r)) [
      | inl same ↦ ap is_some (lookup-insert name r p s.policies) ∙ rw same refl
      | inr other ↦ ap is_some (lookup-insert name r p s.policies) ∙ rw other h
    ]

    bounded :
        (u : IamUser)
        → (u.permission_boundary ≡ []) ⊎ IsPolicy s.policies u.permission_boundary
        → (u.permission_boundary ≡ []) ⊎ IsPolicy (insert name p s.policies) u.permission_boundary
    bounded u (inl e) = inl e
    bounded u (inr h) = inr (stays u.permission_boundary h)

-- A reference that is to another policy stays good when this one is removed.
IsPolicy-remove :
    (name : Str) (policies : List (Str × IamPolicy)) (ref : Str)
    → has_policy_ref name (ref ∷ []) ≡ false
    → IsPolicy policies ref
    → IsPolicy (remove name policies) ref
IsPolicy-remove name policies ref h k = elim (Bool-cases (str_eq name ref)) [
  | inl same ↦
      let e = (str_eq_iff ref name).1 (sym ((str_eq_iff name ref).0 same)) in
      absurd (ground (arith, h, e))
  | inr other ↦ ap is_some (lookup-remove name ref policies) ∙ rw other k
]

IsPolicies-remove :
    (name : Str) (policies : List (Str × IamPolicy)) (refs : List Str)
    → has_policy_ref name refs ≡ false
    → IsPolicies policies refs
    → IsPolicies (remove name policies) refs
IsPolicies-remove name policies [] h k = tt
IsPolicies-remove name policies (r ∷ refs) h (p, k) = (
  IsPolicy-remove name policies r (ground (arith, h)) p,
  IsPolicies-remove name policies refs (ground (arith, h)) k,
)

users_refer-IsUserKnown :
    (name : Str) (policies : List (Str × IamPolicy)) (users : List (Str × IamUser))
    → users_refer name users ≡ none
    → IsAll (IsUserKnown policies) users
    → IsAll (IsUserKnown (remove name policies)) users
users_refer-IsUserKnown name policies [] h k = tt
users_refer-IsUserKnown name policies ((n, u) ∷ users) h ((a, b), k) = (
  (IsPolicies-remove name policies u.attached_policies (ground (arith, h)) a, bounded b),
  users_refer-IsUserKnown name policies users (ground (arith, h)) k,
)
  where
    free : has_policy_ref name (u.permission_boundary ∷ []) ≡ false
    free = ground (arith, h)

    bounded :
        (u.permission_boundary ≡ []) ⊎ IsPolicy policies u.permission_boundary
        → (u.permission_boundary ≡ []) ⊎ IsPolicy (remove name policies) u.permission_boundary
    bounded (inl e) = inl e
    bounded (inr p) = inr (IsPolicy-remove name policies u.permission_boundary free p)

groups_refer-IsGroupKnown :
    (name : Str) (policies : List (Str × IamPolicy)) (groups : List (Str × IamGroup))
    → groups_refer name groups ≡ none
    → IsAll (IsGroupKnown policies) groups
    → IsAll (IsGroupKnown (remove name policies)) groups
groups_refer-IsGroupKnown name policies [] h k = tt
groups_refer-IsGroupKnown name policies ((n, g) ∷ groups) h (a, k) = (
  IsPolicies-remove name policies g.attached_policies (ground (arith, h)) a,
  groups_refer-IsGroupKnown name policies groups (ground (arith, h)) k,
)

roles_refer-IsRoleKnown :
    (name : Str) (policies : List (Str × IamPolicy)) (roles : List (Str × IamRole))
    → roles_refer name roles ≡ none
    → IsAll (IsRoleKnown policies) roles
    → IsAll (IsRoleKnown (remove name policies)) roles
roles_refer-IsRoleKnown name policies [] h k = tt
roles_refer-IsRoleKnown name policies ((n, r) ∷ roles) h (a, k) = (
  IsPolicies-remove name policies r.permission_policies (ground (arith, h)) a,
  roles_refer-IsRoleKnown name policies roles (ground (arith, h)) k,
)

or_else-none : (a b : Option ServiceError) → or_else a b ≡ none → (a ≡ none) × (b ≡ none)
or_else-none none b h = (refl, h)
or_else-none (some e) b h = absurd (ground (arith, h))

pub delete_policy-IsKnown :
    (writes : Bool) (name : Str) (s : IamState)
    → IsKnown s
    → IsKnown (delete_policy writes name s).0
unfolding delete_policy ensure_policy_not_attached
delete_policy-IsKnown writes name s k = go writes (ensure_policy_not_attached name s) refl
  where
    go :
        (b : Bool) (found : Option ServiceError)
        → ensure_policy_not_attached name s ≡ found
        → IsKnown (delete_unless b name s found).0
    go b (some e) h = k
    go false none h = k
    go true none h =
        let (u, rest) =
          or_else-none (users_refer name s.users)
            (or_else (groups_refer name s.groups) (roles_refer name s.roles)) h in
        let (g, r) = or_else-none (groups_refer name s.groups) (roles_refer name s.roles) rest in
        record {
          of_users = users_refer-IsUserKnown name s.policies s.users u k.of_users;
          of_groups = groups_refer-IsGroupKnown name s.policies s.groups g k.of_groups;
          of_roles = roles_refer-IsRoleKnown name s.policies s.roles r k.of_roles;
        }

pub unless_there-IsKnown :
    (there : Bool) (s : IamState) (put : Outcome)
    → IsKnown s
    → IsKnown put.0
    → IsKnown (if there then (s, some already_exists) else put).0
unless_there-IsKnown true s put k h = k
unless_there-IsKnown false s put k h = h

pub attach_to-IsKnown :
    (known : Bool) (refs : List Str) (name : Str) (put : Outcome) (s : IamState)
    → IsKnown s
    → (known ≡ true → IsKnown put.0)
    → IsKnown (attach_to known refs name put s).0
attach_to-IsKnown false refs name put s k h = k
attach_to-IsKnown true refs name put s k h = elim (Bool-cases (any (λ r. str_eq r name) refs)) [
  | inl there ↦ rw there k
  | inr absent ↦ rw absent (h refl)
]

pub if-IsKnown :
    (known : Bool) (put : Outcome) (s : IamState)
    → IsKnown s
    → (known ≡ true → IsKnown put.0)
    → IsKnown (if known then put else (s, some not_found)).0
if-IsKnown false put s k h = k
if-IsKnown true put s k h = h refl

-- A call that looks up a record and changes it.
pub on_found-IsKnown :
    {V : Type 0} (found : Option V) (s : IamState) (change : V → Outcome)
    → IsKnown s
    → ((v : V) → found ≡ some v → IsKnown (change v).0)
    → IsKnown (on_found s found change).0
on_found-IsKnown none s change k h = k
on_found-IsKnown (some v) s change k h = h v refl
