-- ===== src/Iam/Evaluate.antt =====
-- The policy decisions of internal/iam/policy.go, over the store of internal/iam/store.go.
pub mod Spec
pub mod Decisions
use cipher_lake.Prelude.{
  Option, none, some, List, [], ◌∷◌, ◌++◌, map, Str, bytes, str_eq, ◌&&◌, if◌then◌else◌, is_nil,
}
use cipher_lake.Iam.Types.{
  EvalContext, EvalResult, Decision, deny, allow, implicit_deny, IamStore, IamUser, PolicyDocument,
  Statement, effect_allow, effect_deny,
}
use cipher_lake.Iam.Arn.{extract_bucket_from_resource}
use cipher_lake.Iam.Conditions.Operators.{GoLibrary}
use cipher_lake.Iam.Match.{statement_matches}

-- A document with the name under which it was collected: the two slices that grow together.
abbrev pub Named : Type 0
Named = Str × PolicyDocument

-- The documents of the policies that exist, in order; a name with no policy is passed over.
unfoldable pub named_policies : IamStore → List Str → List Named
named_policies s [] = []
named_policies s (name ∷ names) =
    let rest = named_policies s names in
    elim (s.get_policy name) [ none ↦ rest | some policy ↦ (name, policy.document) ∷ rest ]

unfoldable pub group_policies : IamStore → List Str → List Named
group_policies s [] = []
group_policies s (name ∷ names) =
    let rest = group_policies s names in
    elim (s.get_group name) [
      | none ↦ rest
      | some group ↦ named_policies s group.attached_policies ++ rest
    ]

-- The inline policies, the attached ones, and those of the groups.
unfoldable pub identity_policies : IamStore → Option IamUser → List Named
identity_policies s none = []
identity_policies s (some user) =
    map (λ ip. (ip.id, ip)) user.inline_policies
    ++ (named_policies s user.attached_policies ++ group_policies s user.groups)

unfoldable pub resource_policies : IamStore → Str → List PolicyDocument
resource_policies s resource =
    let bucket = extract_bucket_from_resource resource in
    let found : List PolicyDocument = elim (s.get_bucket_policy bucket) [
      | none ↦ []
      | some bp ↦ bp.document ∷ []
    ] in
    if is_nil bucket then [] else found

-- The inline policy of a session, if there is one.
unfoldable pub session_documents : Option PolicyDocument → List PolicyDocument
session_documents none = []
session_documents (some doc) = doc ∷ []

abbrev pub result : Decision → Str → Str → Str → EvalResult
result d by kind name = record {
  decision = d;
  matched_by = by;
  policy_type = kind;
  policy_name = name;
}

abbrev pub default_deny : EvalResult
default_deny = result implicit_deny [] [] []

module _ (go : GoLibrary) (ctx : EvalContext) where
  -- The first statement with the effect that applies.
  unfoldable pub first_statement : Str → List Statement → Option Statement
  first_statement effect [] = none
  first_statement effect (stmt ∷ rest) =
      let later = first_statement effect rest in
      if str_eq stmt.effect effect && statement_matches go stmt ctx then some stmt else later

  unfoldable pub first_in_documents : Str → List PolicyDocument → Option Statement
  first_in_documents effect [] = none
  first_in_documents effect (doc ∷ docs) =
      let later = first_in_documents effect docs in
      elim (first_statement effect doc.statement) [ none ↦ later | some stmt ↦ some stmt ]

  -- The first applying `Allow` of the named documents, with its document's name.
  unfoldable pub first_named : List Named → Option (Str × Statement)
  first_named [] = none
  first_named ((name, doc) ∷ docs) =
      let later = first_named docs in
      elim (first_statement effect_allow doc.statement) [
        | none ↦ later
        | some stmt ↦ some (name, stmt)
      ]

  -- `evaluateBoundary`; `evaluateSCP` decides in the same way.
  unfoldable pub evaluate_boundary : PolicyDocument → EvalResult
  evaluate_boundary doc = elim (first_statement effect_deny doc.statement) [
    | some stmt ↦ result deny stmt.sid [] []
    | none ↦ elim (first_statement effect_allow doc.statement) [
      | some stmt ↦ result allow stmt.sid [] []
      | none ↦ default_deny
    ]
  ]

  unfoldable pub evaluate_scp : Option IamStore → EvalResult
  evaluate_scp none = result allow [] [] []
  evaluate_scp (some s) = elim s.scp [
    | none ↦ result allow [] [] []
    | some doc ↦ evaluate_boundary doc
  ]

  -- A boundary that the store no longer has is passed over.
  unfoldable pub boundary_gate : IamStore → IamUser → EvalResult → EvalResult
  boundary_gate s user allowed =
      let checked : EvalResult = elim (s.get_policy user.permission_boundary) [
        | none ↦ allowed
        | some policy ↦
            let inside = evaluate_boundary policy.document in
            elim inside.decision [
              | allow ↦ allowed
              | _ ↦ result deny inside.matched_by (bytes "boundary") user.permission_boundary
            ]
      ] in
      if is_nil user.permission_boundary then allowed else checked

  -- Phase 4 and 5: the bucket policy, and the default.
  unfoldable pub resource_phase : List PolicyDocument → EvalResult
  resource_phase docs = elim (first_in_documents effect_allow docs) [
    | none ↦ default_deny
    | some stmt ↦ result allow stmt.sid (bytes "resource") []
  ]

  -- Phases 2 to 5.
  unfoldable pub allow_phases :
      IamStore → Option IamUser → List Named → List PolicyDocument → EvalResult
  allow_phases s user identity resource = elim (first_named identity) [
    | none ↦ resource_phase resource
    | some (name, stmt) ↦
        let allowed = result allow stmt.sid (bytes "identity") name in
        elim user [ none ↦ allowed | some u ↦ boundary_gate s u allowed ]
  ]

  -- `EvaluateWithBoundary`: phases 1 to 5, for a user that the caller gives.
  unfoldable pub evaluate_with_boundary : IamStore → Option IamUser → EvalResult
  evaluate_with_boundary s user =
      let identity = identity_policies s user in
      let resource = resource_policies s ctx.resource in
      elim (first_in_documents effect_deny (map (λ n. n.1) identity ++ resource)) [
        | some stmt ↦ result deny stmt.sid (bytes "identity") []
        | none ↦ allow_phases s user identity resource
      ]

  -- `Evaluate`: the service control policy, and the phases for the stored user.
  unfoldable pub evaluate : Option IamStore → EvalResult
  evaluate none = default_deny
  evaluate (some s) =
      let gate = evaluate_scp (some s) in
      let phases = evaluate_with_boundary s (s.get_user ctx.principal) in
      elim s.scp [
        | none ↦ phases
        | some doc ↦ elim gate.decision [
          | deny ↦ record gate { policy_type = bytes "scp" }
          | allow ↦ phases
          | implicit_deny ↦ result deny [] (bytes "scp") []
        ]
      ]

  -- `EvaluateWithTempCreds`: the policies of the role, and the inline policy of the session.
  unfoldable pub evaluate_with_temp_creds : IamStore → List Str → Option PolicyDocument → EvalResult
  evaluate_with_temp_creds s role_policies inline_policy =
      let identity =
        map (λ n. n.1) (named_policies s role_policies) ++ session_documents inline_policy in
      let resource = resource_policies s ctx.resource in
      elim (first_in_documents effect_deny (identity ++ resource)) [
        | some stmt ↦ result deny stmt.sid (bytes "identity") []
        | none ↦ elim (first_in_documents effect_allow identity) [
          | some stmt ↦ result allow stmt.sid (bytes "identity") []
          | none ↦ resource_phase resource
        ]
      ]
