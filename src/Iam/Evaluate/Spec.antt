-- ===== src/Iam/Evaluate/Spec.antt =====
-- When a request is to be allowed, with no order of evaluation: which effects apply, whatever the
-- document or the place in it. `Evaluate` of internal/iam/policy.go is held to this.
use cipher_lake.Prelude.{
  Bool, true, false, not, Option, none, some, List, [], ◌∷◌, ◌++◌, map, Str, str_eq, ◌&&◌, ◌||◌,
  if◌then◌else◌, is_nil, any, is_some, ◌≡◌, refl, arith, any-append,
}
use cipher_lake.Iam.Types.{
  EvalContext, Decision, allow, IamStore, IamUser, PolicyDocument, Statement, effect_allow,
  effect_deny,
}
use cipher_lake.Iam.Conditions.Operators.{GoLibrary}
use cipher_lake.Iam.Match.{statement_matches}
use cipher_lake.Iam.Evaluate.{
  Named, identity_policies, resource_policies, first_statement, first_in_documents, first_named,
  evaluate_boundary,
}

abbrev pub is_allow : Decision → Bool
is_allow allow = true
is_allow _ = false

abbrev pub identity_documents : IamStore → Option IamUser → List PolicyDocument
identity_documents s user = map (λ n. n.1) (identity_policies s user)

module _ (go : GoLibrary) (ctx : EvalContext) where
  abbrev pub applies : Str → Statement → Bool
  applies effect stmt = str_eq stmt.effect effect && statement_matches go stmt ctx

  -- Some statement with the effect applies.
  unfoldable pub any_applies : Str → List PolicyDocument → Bool
  any_applies effect docs = any (λ doc. any (applies effect) doc.statement) docs

  -- A document on its own: an `Allow` applies and no `Deny` does.
  unfoldable pub document_allows : PolicyDocument → Bool
  document_allows doc =
      not (any_applies effect_deny (doc ∷ [])) && any_applies effect_allow (doc ∷ [])

  unfoldable pub scp_allows : IamStore → Bool
  scp_allows s = elim s.scp [ none ↦ true | some doc ↦ document_allows doc ]

  unfoldable pub inside_boundary : IamStore → Option IamUser → Bool
  inside_boundary s none = true
  inside_boundary s (some user) =
      is_nil user.permission_boundary || elim (s.get_policy user.permission_boundary) [
        | none ↦ true
        | some policy ↦ document_allows policy.document
      ]

  -- No `Deny` applies; an identity policy allows, inside the boundary, or else a bucket policy does.
  unfoldable pub permitted : IamStore → Option IamUser → Bool
  permitted s user =
      not (any_applies effect_deny (identity_documents s user ++ resource_policies s ctx.resource))
      && (if any_applies effect_allow (identity_documents s user)
          then inside_boundary s user
          else any_applies effect_allow (resource_policies s ctx.resource))

  pub any_applies-append :
      (effect : Str) (xs ys : List PolicyDocument)
      → any_applies effect (xs ++ ys) ≡ (any_applies effect xs || any_applies effect ys)
  unfolding any_applies
  any_applies-append effect xs ys = any-append (λ doc. any (applies effect) doc.statement) xs ys

  -- The scans find a statement exactly when one applies.
  pub is_some-first_statement :
      (effect : Str) (stmts : List Statement)
      → is_some (first_statement go ctx effect stmts) ≡ any (applies effect) stmts
  unfolding first_statement
  is_some-first_statement effect [] = refl
  is_some-first_statement effect (stmt ∷ rest) = ground (arith, is_some-first_statement effect rest)

  pub is_some-first_in_documents :
      (effect : Str) (docs : List PolicyDocument)
      → is_some (first_in_documents go ctx effect docs) ≡ any_applies effect docs
  unfolding first_in_documents any_applies
  is_some-first_in_documents effect [] = refl
  is_some-first_in_documents effect (doc ∷ docs) =
      ground (
        arith,
        is_some-first_statement effect doc.statement,
        is_some-first_in_documents effect docs,
      )

  pub is_some-first_named :
      (docs : List Named)
      → is_some (first_named go ctx docs) ≡ any_applies effect_allow (map (λ n. n.1) docs)
  unfolding first_named any_applies
  is_some-first_named [] = refl
  is_some-first_named ((name, doc) ∷ docs) =
      ground (arith, is_some-first_statement effect_allow doc.statement, is_some-first_named docs)

  pub is_allow-evaluate_boundary :
      (doc : PolicyDocument)
      → is_allow (evaluate_boundary go ctx doc).decision ≡ document_allows doc
  unfolding evaluate_boundary document_allows any_applies
  is_allow-evaluate_boundary doc = ground (
    arith,
    is_some-first_statement effect_deny doc.statement,
    is_some-first_statement effect_allow doc.statement,
  )
