-- ===== src/Iam/Evaluate/Decisions.antt =====
-- What `Evaluate` and `EvaluateWithTempCreds` of internal/iam/policy.go decide.
use cipher_lake.Prelude.{
  true, Option, none, some, List, [], ◌∷◌, ◌++◌, map, Str, bytes, ◌&&◌, if◌then◌else◌, Option-cases,
  inl, inr, ◌≡◌, refl, arith,
}
use cipher_lake.Iam.Types.{
  EvalContext, deny, allow, IamStore, IamUser, PolicyDocument, effect_allow, effect_deny,
}
use cipher_lake.Iam.Conditions.Operators.{GoLibrary}
use cipher_lake.Iam.Evaluate.{
  Named, group_policies, named_policies, identity_policies, resource_policies, first_named,
  boundary_gate, resource_phase, allow_phases, evaluate_scp, evaluate, evaluate_with_boundary,
  result,
}
use cipher_lake.Iam.Evaluate.Spec.{
  is_allow, any_applies, scp_allows, inside_boundary, identity_documents, permitted,
  is_some-first_in_documents, is_some-first_named, is_allow-evaluate_boundary,
}

-- Which documents are collected does not depend on the service control policy.
named_policies-scp :
    (s : IamStore) (names : List Str)
    → named_policies (record s { scp = none }) names ≡ named_policies s names
unfolding named_policies
named_policies-scp s [] = refl
named_policies-scp s (name ∷ names) = ground (arith, named_policies-scp s names)

group_policies-scp :
    (s : IamStore) (names : List Str)
    → group_policies (record s { scp = none }) names ≡ group_policies s names
unfolding group_policies
group_policies-scp s [] = refl
group_policies-scp s (name ∷ names) =
    let rest = group_policies-scp s names in
    elim (Option-cases (s.get_group name)) [
      | inl e ↦ rw (e, group_policies) rest
      | inr (group, e) ↦
          rw (e, group_policies)
            (ground (arith, rest, named_policies-scp s group.attached_policies))
    ]

identity_policies-scp :
    (s : IamStore) (user : Option IamUser)
    → identity_policies (record s { scp = none }) user ≡ identity_policies s user
unfolding identity_policies
identity_policies-scp s none = refl
identity_policies-scp s (some user) = rw (named_policies-scp, group_policies-scp)

module _ (go : GoLibrary) (ctx : EvalContext) where
  is_allow-resource_phase :
      (docs : List PolicyDocument)
      → is_allow (resource_phase go ctx docs).decision ≡ any_applies go ctx effect_allow docs
  unfolding resource_phase
  is_allow-resource_phase docs = ground (arith, is_some-first_in_documents go ctx effect_allow docs)

  is_allow-boundary_gate :
      (s : IamStore) (user : IamUser) (by kind name : Str)
      → is_allow (boundary_gate go ctx s user (result allow by kind name)).decision
        ≡ inside_boundary go ctx s (some user)
  unfolding boundary_gate inside_boundary
  is_allow-boundary_gate s user by kind name =
      elim (Option-cases (s.get_policy user.permission_boundary)) [
        | inl e ↦ rw (e, boundary_gate, inside_boundary) (ground arith)
        | inr (policy, e) ↦
            rw (e, boundary_gate, inside_boundary)
              (ground (arith, is_allow-evaluate_boundary go ctx policy.document))
      ]

  is_allow-allow_phases :
      (s : IamStore) (user : Option IamUser) (identity : List Named) (docs : List PolicyDocument)
      → is_allow (allow_phases go ctx s user identity docs).decision ≡ (
          if any_applies go ctx effect_allow (map (λ n. n.1) identity)
          then inside_boundary go ctx s user
          else any_applies go ctx effect_allow docs)
  unfolding allow_phases inside_boundary
  is_allow-allow_phases s none identity docs =
      ground (arith, is_some-first_named go ctx identity, is_allow-resource_phase docs)
  is_allow-allow_phases s (some u) identity docs =
      elim (Option-cases (first_named go ctx identity)) [
        | inl e ↦
            rw (e, allow_phases)
              (ground (arith, is_some-first_named go ctx identity, is_allow-resource_phase docs))
        | inr ((name, stmt), e) ↦
            rw (e, allow_phases)
              (ground (
                arith,
                is_some-first_named go ctx identity,
                is_allow-boundary_gate s u stmt.sid (bytes "identity") name,
              ))
      ]

  is_allow-evaluate_with_boundary :
      (s : IamStore) (user : Option IamUser)
      → is_allow (evaluate_with_boundary go ctx s user).decision ≡ permitted go ctx s user
  unfolding evaluate_with_boundary permitted
  is_allow-evaluate_with_boundary s user = ground (
    arith,
    is_some-first_in_documents go ctx effect_deny
        (identity_documents s user ++ resource_policies s ctx.resource),
    is_allow-allow_phases s user (identity_policies s user) (resource_policies s ctx.resource),
  )

  is_allow-evaluate_scp :
      (s : IamStore) → is_allow (evaluate_scp go ctx (some s)).decision ≡ scp_allows go ctx s
  unfolding evaluate_scp scp_allows
  is_allow-evaluate_scp s = elim (Option-cases s.scp) [
    | inl e ↦ rw (e, evaluate_scp, scp_allows) refl
    | inr (doc, e) ↦ rw (e, evaluate_scp, scp_allows) (is_allow-evaluate_boundary go ctx doc)
  ]

  -- A request is allowed exactly when the service control policy, if there is one, allows it, no
  -- `Deny` applies, and either an identity policy allows it inside the permission boundary, or no
  -- identity policy allows it and the bucket policy does.
  pub evaluate_allows_iff :
      (s : IamStore)
      → is_allow (evaluate go ctx (some s)).decision
        ≡ (scp_allows go ctx s && permitted go ctx s (s.get_user ctx.principal))
  unfolding evaluate scp_allows
  evaluate_allows_iff s =
      ground (
        arith,
        is_allow-evaluate_scp s,
        is_allow-evaluate_with_boundary s (s.get_user ctx.principal),
      )

  evaluate_with_boundary_denies :
      (s : IamStore) (user : Option IamUser)
      → any_applies go ctx effect_deny
          (identity_documents s user ++ resource_policies s ctx.resource)
        ≡ true
      → (evaluate_with_boundary go ctx s user).decision ≡ deny
  unfolding evaluate_with_boundary
  evaluate_with_boundary_denies s user h = ground (
    arith,
    is_some-first_in_documents go ctx effect_deny
        (identity_documents s user ++ resource_policies s ctx.resource),
  )

  -- An applying `Deny`, in any identity policy of the user or in the bucket policy, denies the
  -- request, whatever else allows it and whatever the service control policy is.
  pub evaluate_denies :
      (s : IamStore)
      → any_applies go ctx effect_deny
          (identity_documents s (s.get_user ctx.principal) ++ resource_policies s ctx.resource)
        ≡ true
      → (evaluate go ctx (some s)).decision ≡ deny
  unfolding evaluate
  evaluate_denies s h = ground (arith, evaluate_with_boundary_denies s (s.get_user ctx.principal) h)

  permitted-scp :
      (s : IamStore) (user : Option IamUser)
      → permitted go ctx (record s { scp = none }) user ≡ permitted go ctx s user
  unfolding permitted inside_boundary resource_policies
  permitted-scp s none = ground (arith, identity_policies-scp s none)
  permitted-scp s (some user) = ground (arith, identity_policies-scp s (some user))

  -- A service control policy only takes away: what is allowed under one is allowed without it.
  pub scp_restricts :
      (s : IamStore)
      → (evaluate go ctx (some s)).decision ≡ allow
      → (evaluate go ctx (some (record s { scp = none }))).decision ≡ allow
  unfolding scp_allows
  scp_restricts s h = ground (
    arith,
    evaluate_allows_iff s,
    evaluate_allows_iff (record s { scp = none }),
    permitted-scp s (s.get_user ctx.principal),
  )

  allow_phases-missing :
      (s : IamStore) (user : IamUser) (identity : List Named) (docs : List PolicyDocument)
      → s.get_policy user.permission_boundary ≡ none
      → allow_phases go ctx s (some user) identity docs
        ≡ allow_phases go ctx s (some (record user { permission_boundary = [] })) identity docs
  unfolding allow_phases boundary_gate
  allow_phases-missing s user identity docs h = ground arith

  -- A permission boundary whose policy is not in the store restricts nothing: the decision is that
  -- for the same user with no boundary.
  pub missing_boundary_ignored :
      (s : IamStore) (user : IamUser)
      → s.get_policy user.permission_boundary ≡ none
      → evaluate_with_boundary go ctx s (some user)
        ≡ evaluate_with_boundary go ctx s (some (record user { permission_boundary = [] }))
  unfolding evaluate_with_boundary identity_policies
  missing_boundary_ignored s user h = ground (
    arith,
    allow_phases-missing s user (identity_policies s (some user)) (resource_policies s ctx.resource)
        h,
  )
