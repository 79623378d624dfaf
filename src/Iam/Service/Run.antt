-- ===== src/Iam/Service/Run.antt =====
-- References to policies over sequences of calls of internal/iam/service.go.
use cipher_lake.Prelude.{Bool, true, false, List, [], ◌∷◌, Str, lookup, str_key, inl, inr, refl}
use cipher_lake.Iam.Types.{IamUser}
use cipher_lake.Iam.Service.{
  IamState, new_iam_state, on_found, put_user, put_group, has_entry, new_user, new_group,
  create_user, create_group, create_role, create_policy, remove_string, attach_user_policy,
  detach_user_policy, attach_group_policy, detach_group_policy, attach_role_policy,
  detach_role_policy, delete_role, set_permission_boundary, remove_permission_boundary, ServiceCall,
  create_user_call, create_group_call, create_role_call, create_policy_call, attach_user_call,
  detach_user_call, attach_group_call, detach_group_call, attach_role_call, detach_role_call,
  delete_role_call, set_boundary_call, remove_boundary_call, delete_policy_call, apply_call,
  run_service,
}
use cipher_lake.Iam.Service.Attached.{
  remove-IsAll, lookup-IsAll, IsUserKnown, IsGroupKnown, IsRoleKnown, IsKnown, IsPolicies-append,
  IsPolicies-remove_string, put_user-IsKnown, put_group-IsKnown, put_role-IsKnown,
}
use cipher_lake.Iam.Service.Kept.{
  put_policy-IsKnown, delete_policy-IsKnown, unless_there-IsKnown, attach_to-IsKnown, if-IsKnown,
  on_found-IsKnown,
}

users_call :
    (writes : Bool) (user : Str) (s : IamState) (change : IamUser → IamUser)
    → ((u : IamUser) → IsUserKnown s.policies u → IsUserKnown s.policies (change u))
    → IsKnown s
    → IsKnown (on_found s (lookup user s.users) (λ u. put_user writes user (change u) s)).0
users_call writes user s change h k =
    on_found-IsKnown (lookup user s.users) s (λ u. put_user writes user (change u) s) k
      (λ u e.
        put_user-IsKnown writes user (change u) s
          (h u (lookup-IsAll (IsUserKnown s.policies) user u s.users k.of_users e)) k)

apply_call-IsKnown :
    (writes : Bool) (call : ServiceCall) (s : IamState)
    → IsKnown s
    → IsKnown (apply_call writes call s).0
unfolding apply_call create_user create_group create_role create_policy attach_user_policy
    detach_user_policy attach_group_policy detach_group_policy attach_role_policy detach_role_policy
    delete_role set_permission_boundary remove_permission_boundary
apply_call-IsKnown writes (create_user_call name) s k =
    unless_there-IsKnown (has_entry name s.users) s (put_user writes name (new_user name) s) k
      (put_user-IsKnown writes name (new_user name) s (tt, inl refl) k)
apply_call-IsKnown writes (create_group_call name) s k =
    unless_there-IsKnown (has_entry name s.groups) s (put_group writes name (new_group name) s) k
      (put_group-IsKnown writes name (new_group name) s tt k)
apply_call-IsKnown writes (create_role_call name trust) s k =
    unless_there-IsKnown (has_entry name s.roles) s _ k (put_role-IsKnown writes name _ s tt k)
apply_call-IsKnown writes (create_policy_call name document) s k =
    unless_there-IsKnown (has_entry name s.policies) s _ k (put_policy-IsKnown writes name _ s k)
apply_call-IsKnown writes (attach_user_call user policy) s k =
    on_found-IsKnown (lookup user s.users) s _ k (λ u e.
      let (refs, bound) = lookup-IsAll (IsUserKnown s.policies) user u s.users k.of_users e in
      attach_to-IsKnown (has_entry policy s.policies) u.attached_policies policy _ s k (λ there.
        put_user-IsKnown writes user _ s
          (IsPolicies-append s.policies u.attached_policies policy refs there, bound) k))
apply_call-IsKnown writes (detach_user_call user policy) s k =
    users_call writes user s
      (λ u. record u { attached_policies = remove_string u.attached_policies policy })
      (λ u (refs, bound).
        (IsPolicies-remove_string s.policies u.attached_policies policy refs, bound))
      k
apply_call-IsKnown writes (attach_group_call group policy) s k =
    on_found-IsKnown (lookup group s.groups) s _ k (λ g e.
      let refs = lookup-IsAll (IsGroupKnown s.policies) group g s.groups k.of_groups e in
      attach_to-IsKnown (has_entry policy s.policies) g.attached_policies policy _ s k (λ there.
        put_group-IsKnown writes group _ s
          (IsPolicies-append s.policies g.attached_policies policy refs there) k))
apply_call-IsKnown writes (detach_group_call group policy) s k =
    on_found-IsKnown (lookup group s.groups) s _ k (λ g e.
      let refs = lookup-IsAll (IsGroupKnown s.policies) group g s.groups k.of_groups e in
      put_group-IsKnown writes group _ s
        (IsPolicies-remove_string s.policies g.attached_policies policy refs) k)
apply_call-IsKnown writes (attach_role_call role policy) s k =
    on_found-IsKnown (lookup role s.roles) s _ k (λ r e.
      let refs = lookup-IsAll (IsRoleKnown s.policies) role r s.roles k.of_roles e in
      attach_to-IsKnown (has_entry policy s.policies) r.permission_policies policy _ s k (λ there.
        put_role-IsKnown writes role _ s
          (IsPolicies-append s.policies r.permission_policies policy refs there) k))
apply_call-IsKnown writes (detach_role_call role policy) s k =
    on_found-IsKnown (lookup role s.roles) s _ k (λ r e.
      let refs = lookup-IsAll (IsRoleKnown s.policies) role r s.roles k.of_roles e in
      put_role-IsKnown writes role _ s
        (IsPolicies-remove_string s.policies r.permission_policies policy refs) k)
apply_call-IsKnown false (delete_role_call name) s k = k
apply_call-IsKnown true (delete_role_call name) s k = record {
  of_users = k.of_users;
  of_groups = k.of_groups;
  of_roles = remove-IsAll (IsRoleKnown s.policies) name s.roles k.of_roles;
}
apply_call-IsKnown writes (set_boundary_call user policy) s k =
    on_found-IsKnown (lookup user s.users) s _ k (λ u e.
      let (refs, bound) = lookup-IsAll (IsUserKnown s.policies) user u s.users k.of_users e in
      if-IsKnown (has_entry policy s.policies) _ s k
        (λ there. put_user-IsKnown writes user _ s (refs, inr there) k))
apply_call-IsKnown writes (remove_boundary_call user) s k =
    users_call writes user s (λ u. record u { permission_boundary = [] })
      (λ u (refs, bound). (refs, inl refl)) k
apply_call-IsKnown writes (delete_policy_call name) s k = delete_policy-IsKnown writes name s k

run_from-IsKnown :
    (calls : List (Bool × ServiceCall)) (s : IamState) → IsKnown s → IsKnown (run_service calls s)
unfolding run_service
run_from-IsKnown [] s k = k
run_from-IsKnown ((writes, call) ∷ calls) s k =
    run_from-IsKnown calls (apply_call writes call s).0 (apply_call-IsKnown writes call s k)

-- After any sequence of calls that create users, groups, roles and policies, attach, detach and bound, and delete roles
-- and policies, with writes that succeed or fail: each policy that a user, a group or a role has, and each boundary
-- of a user, is there.
pub run_service-new_iam_state-IsKnown :
    (calls : List (Bool × ServiceCall)) → IsKnown (run_service calls new_iam_state)
run_service-new_iam_state-IsKnown calls =
    run_from-IsKnown calls new_iam_state (record { of_users = tt; of_groups = tt; of_roles = tt })
