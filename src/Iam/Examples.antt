-- ===== src/Iam/Examples.antt =====
-- The theorems on internal/iam at concrete requests, and tests of the definitions.
use cipher_lake.Prelude.{
  true, false, none, some, List, [], ◌∷◌, ◌++◌, Str, bytes, ◌&&◌, ◌≡◌, refl, str_eq, has_prefix,
  has_suffix, trim_prefix, trim_suffix, split_first, lookup,
}
use cipher_lake.Iam.Types.{
  EvalContext, deny, allow, IamStore, IamUser, PolicyDocument, Statement, effect_allow, effect_deny,
}
use cipher_lake.Iam.Arn.{extract_bucket_from_resource}
use cipher_lake.Iam.Glob.{glob_match}
use cipher_lake.Iam.Glob.Reference.{matches}
use cipher_lake.Iam.Glob.Correct.{glob_match-eq-matches, glob_match_misses_star}
use cipher_lake.Iam.Conditions.{
  substitute_loop, resolve_condition_key, resolve_variable_substitution,
}
use cipher_lake.Iam.Conditions.Substitution.{
  substitute_total, substitute_diverges, principal_variable, dollars,
}
use cipher_lake.Iam.Conditions.Operators.{GoLibrary}
use cipher_lake.Iam.Match.{statement_matches}
use cipher_lake.Iam.Evaluate.{
  evaluate, evaluate_with_boundary, named_policies, resource_policies, identity_policies,
  allow_phases, first_in_documents, first_statement, first_named, boundary_gate, group_policies,
  evaluate_scp, evaluate_boundary,
}
use cipher_lake.Iam.Evaluate.Spec.{is_allow, scp_allows, permitted, any_applies}
use cipher_lake.Iam.Evaluate.Decisions.{evaluate_allows_iff, evaluate_denies}

-- A Go library that parses nothing.
abbrev parses_nothing : GoLibrary
parses_nothing = record {
  compare_floats = λ _ _. none;
  compare_times = λ _ _. none;
  prefix_contains = λ _ _. none;
}

abbrev read_photo : EvalContext
read_photo = record {
  principal = bytes "ann";
  action = bytes "s3:GetObject";
  resource = bytes "arn:cipherlake:s3:::pics/a.png";
  conditions = [];
  source_ip = [];
  time = none;
  user_agent = [];
  principal_type = bytes "User";
  resource_tags = [];
  principal_tags = [];
  request_tags = [];
  s3_prefix = [];
  s3_acl = [];
}

abbrev statement : Str → Str → Str → Statement
statement effect action resource = record {
  sid = [];
  effect = effect;
  action = action ∷ [];
  not_action = [];
  resource = resource ∷ [];
  not_resource = [];
  principal = none;
  not_principal = none;
  condition = [];
}

abbrev document : List Statement → PolicyDocument
document stmts = record { version = []; id = []; statement = stmts }

abbrev pictures : PolicyDocument
pictures = document (statement effect_allow (bytes "s3:*") (bytes "*") ∷ [])

abbrev no_pictures : PolicyDocument
no_pictures = document (statement effect_deny (bytes "*") (bytes "*") ∷ [])

abbrev ann : IamUser
ann = record {
  name = bytes "ann";
  groups = [];
  attached_policies = [];
  inline_policies = pictures ∷ [];
  permission_boundary = bytes "gone";
}

abbrev denied_store : IamStore
denied_store = record {
  get_user = λ _. some (record ann { inline_policies = pictures ∷ no_pictures ∷ [] });
  get_group = λ _. none;
  get_policy = λ _. none;
  get_bucket_policy = λ _. none;
  scp = none;
}

abbrev users_only : IamStore
users_only = record {
  get_user = λ _. some ann;
  get_group = λ _. none;
  get_policy = λ _. none;
  get_bucket_policy = λ _. none;
  scp = some pictures;
}

glob_match-eq-matches_example :
    glob_match (bytes "a*c?") (bytes "abccd") ≡ matches (bytes "a*c?") (bytes "abccd")
glob_match-eq-matches_example =
    glob_match-eq-matches (bytes "a*c?") (bytes "abccd") (refl, (refl, (refl, (refl, (refl, tt)))))

glob_accepts : glob_match (bytes "a*c?") (bytes "abccd") ≡ true
unfolding glob_match
glob_accepts = refl

glob_match_misses_star_example :
    (glob_match (bytes "pics/*") (bytes "pics/*x") ≡ false)
    × (matches (bytes "pics/*") (bytes "pics/*x") ≡ true)
glob_match_misses_star_example = glob_match_misses_star (bytes "pics/") [] b'x'

abbrev looping : EvalContext
looping = record read_photo {
  principal_tags = (bytes "team", principal_variable (bytes "team")) ∷ [];
}

substitute_diverges_example :
    substitute_loop
      (λ key. resolve_condition_key key looping)
      1000
      (principal_variable (bytes "team") ++ [])
    ≡ none
unfolding lookup str_eq
substitute_diverges_example = substitute_diverges 1000 (bytes "team") [] looping refl refl

evaluate_allows_iff_example :
    is_allow (evaluate parses_nothing read_photo (some users_only)).decision ≡ (
      scp_allows parses_nothing read_photo users_only
      && permitted parses_nothing read_photo users_only (users_only.get_user (bytes "ann")))
evaluate_allows_iff_example = evaluate_allows_iff parses_nothing read_photo users_only

ann_reads : (evaluate parses_nothing read_photo (some users_only)).decision ≡ allow
unfolding evaluate evaluate_with_boundary evaluate_scp evaluate_boundary first_statement
    first_in_documents first_named allow_phases boundary_gate identity_policies group_policies
    named_policies resource_policies extract_bucket_from_resource statement_matches lookup str_eq
    has_prefix has_suffix trim_prefix trim_suffix split_first
ann_reads = refl

evaluate_denies_example : (evaluate parses_nothing read_photo (some denied_store)).decision ≡ deny
unfolding first_statement named_policies group_policies identity_policies any_applies
    resource_policies extract_bucket_from_resource statement_matches lookup str_eq has_prefix
    has_suffix trim_prefix trim_suffix split_first
evaluate_denies_example = evaluate_denies parses_nothing read_photo denied_store refl

substitute_total_example :
    substitute_loop (λ key. resolve_condition_key key read_photo) 7 (bytes "${a:b}")
    ≡ some (resolve_variable_substitution (bytes "${a:b}") read_photo)
unfolding dollars lookup
substitute_total_example = substitute_total (bytes "${a:b}") read_photo (record {
  resource_tags = λ key. refl;
  principal_tags = λ key. refl;
  request_tags = λ key. refl;
  conditions = λ key. refl;
  source_ip = refl;
  time = refl;
  user_agent = refl;
  principal_type = refl;
  s3_prefix = refl;
  s3_acl = refl;
})
