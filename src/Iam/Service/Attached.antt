-- ===== src/Iam/Service/Attached.antt =====
-- What users, groups and roles refer to (internal/iam/service.go): references to policies that are there.
use cipher_lake.Prelude.{
  Bool, true, false, some, List, [], ◌∷◌, ◌++◌, Str, str_eq, lookup, insert, remove, str_key, ◌≡◌,
  ◌⊎◌, inl, inr, arith, subst, Bool-cases,
}
use cipher_lake.Iam.Types.{IamUser, IamGroup, IamPolicy}
use cipher_lake.Iam.Service.{
  IamRole, IamState, put_user, put_group, put_role, has_entry, remove_string,
}

module _ {V : Type 0} (P : V → Type 0) where
  -- Every entry has the property.
  abbrev pub IsAll : List (Str × V) → Type 0
  IsAll [] = Unit
  IsAll ((k, v) ∷ entries) = P v × IsAll entries

  pub remove-IsAll : (k : Str) (entries : List (Str × V)) → IsAll entries → IsAll (remove k entries)
  unfolding remove
  remove-IsAll k [] h = tt
  remove-IsAll k ((j, v) ∷ entries) (p, h) = elim (Bool-cases (str_eq k j)) [
    | inl same ↦ rw same (remove-IsAll k entries h)
    | inr other ↦ rw other (p, remove-IsAll k entries h)
  ]

  pub insert-IsAll :
      (k : Str) (v : V) (entries : List (Str × V))
      → P v
      → IsAll entries
      → IsAll (insert k v entries)
  unfolding insert
  insert-IsAll k v entries p h = (p, remove-IsAll k entries h)

  pub lookup-IsAll :
      (k : Str) (v : V) (entries : List (Str × V)) → IsAll entries → lookup k entries ≡ some v → P v
  unfolding lookup
  lookup-IsAll k v [] h e = absurd (ground (arith, e))
  lookup-IsAll k v ((j, w) ∷ entries) (p, h) e = elim (Bool-cases (str_eq k j)) [
    | inl same ↦ subst P (ground (arith, e, same)) p
    | inr other ↦ lookup-IsAll k v entries h (ground (arith, e, other))
  ]

abbrev pub IsPolicy : List (Str × IamPolicy) → Str → Type 0
IsPolicy policies ref = has_entry ref policies ≡ true

abbrev pub IsPolicies : List (Str × IamPolicy) → List Str → Type 0
IsPolicies policies [] = Unit
IsPolicies policies (ref ∷ refs) = IsPolicy policies ref × IsPolicies policies refs

-- A user without a boundary has an empty one.
abbrev pub IsUserKnown : List (Str × IamPolicy) → IamUser → Type 0
IsUserKnown policies u =
    IsPolicies policies u.attached_policies
    × ((u.permission_boundary ≡ []) ⊎ IsPolicy policies u.permission_boundary)

abbrev pub IsGroupKnown : List (Str × IamPolicy) → IamGroup → Type 0
IsGroupKnown policies g = IsPolicies policies g.attached_policies

abbrev pub IsRoleKnown : List (Str × IamPolicy) → IamRole → Type 0
IsRoleKnown policies r = IsPolicies policies r.permission_policies

pub record IsKnown (s : IamState) : Type 0 where
  pub of_users : IsAll (IsUserKnown s.policies) s.users
  pub of_groups : IsAll (IsGroupKnown s.policies) s.groups
  pub of_roles : IsAll (IsRoleKnown s.policies) s.roles

pub IsPolicies-append :
    (policies : List (Str × IamPolicy)) (refs : List Str) (ref : Str)
    → IsPolicies policies refs
    → IsPolicy policies ref
    → IsPolicies policies (refs ++ ref ∷ [])
IsPolicies-append policies [] ref h k = (k, tt)
IsPolicies-append policies (r ∷ refs) ref (p, h) k = (p, IsPolicies-append policies refs ref h k)

pub IsPolicies-remove_string :
    (policies : List (Str × IamPolicy)) (refs : List Str) (ref : Str)
    → IsPolicies policies refs
    → IsPolicies policies (remove_string refs ref)
IsPolicies-remove_string policies [] ref h = tt
IsPolicies-remove_string policies (r ∷ refs) ref (p, h) = elim (Bool-cases (str_eq r ref)) [
  | inl same ↦ rw same h
  | inr other ↦ rw other (p, IsPolicies-remove_string policies refs ref h)
]

pub put_user-IsKnown :
    (writes : Bool) (name : Str) (u : IamUser) (s : IamState)
    → IsUserKnown s.policies u
    → IsKnown s
    → IsKnown (put_user writes name u s).0
put_user-IsKnown false name u s h k = k
put_user-IsKnown true name u s h k = record {
  of_users = insert-IsAll (IsUserKnown s.policies) name u s.users h k.of_users;
  of_groups = k.of_groups;
  of_roles = k.of_roles;
}

pub put_group-IsKnown :
    (writes : Bool) (name : Str) (g : IamGroup) (s : IamState)
    → IsGroupKnown s.policies g
    → IsKnown s
    → IsKnown (put_group writes name g s).0
put_group-IsKnown false name g s h k = k
put_group-IsKnown true name g s h k = record {
  of_users = k.of_users;
  of_groups = insert-IsAll (IsGroupKnown s.policies) name g s.groups h k.of_groups;
  of_roles = k.of_roles;
}

pub put_role-IsKnown :
    (writes : Bool) (name : Str) (r : IamRole) (s : IamState)
    → IsRoleKnown s.policies r
    → IsKnown s
    → IsKnown (put_role writes name r s).0
put_role-IsKnown false name r s h k = k
put_role-IsKnown true name r s h k = record {
  of_users = k.of_users;
  of_groups = k.of_groups;
  of_roles = insert-IsAll (IsRoleKnown s.policies) name r s.roles h k.of_roles;
}

-- Policies that keep what is referred to.
pub IsAll-map :
    {V : Type 0} (P Q : V → Type 0) (entries : List (Str × V))
    → ((v : V) → P v → Q v)
    → IsAll P entries
    → IsAll Q entries
IsAll-map P Q [] f h = tt
IsAll-map P Q ((k, v) ∷ entries) f (p, h) = (f v p, IsAll-map P Q entries f h)

pub IsPolicies-map :
    (before after : List (Str × IamPolicy)) (refs : List Str)
    → ((r : Str) → IsPolicy before r → IsPolicy after r)
    → IsPolicies before refs
    → IsPolicies after refs
IsPolicies-map before after [] f h = tt
IsPolicies-map before after (r ∷ refs) f (p, h) = (f r p, IsPolicies-map before after refs f h)
