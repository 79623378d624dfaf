-- ===== src/Iam/Match.antt =====
-- Whether a policy statement applies to a request: `statementMatches` and what it calls, in
-- internal/iam/policy.go. Lower case is that of ASCII.
pub mod Actions
use cipher_lake.Prelude.{
  ℕ, Bool, true, false, not, Option, none, some, List, [], ◌∷◌, ◌++◌, Str, bytes, to_lower, str_eq,
  has_prefix, has_suffix, trim_suffix, ◌||◌, ◌&&◌, if◌then◌else◌, any, is_nil,
}
use cipher_lake.Iam.Types.{EvalContext, Principal, Statement, arn_prefix}
use cipher_lake.Iam.Glob.{glob_match}
use cipher_lake.Iam.Conditions.Operators.{GoLibrary, has_wildcard, conditions_match}

match_lower : Str → Str → Bool
match_lower pattern action =
    if str_eq pattern action
    then true
    else if has_suffix pattern (bytes ":*")
    then has_prefix action (trim_suffix pattern (bytes ":*") ++ bytes ":")
    else if has_wildcard pattern
    then glob_match pattern action
    else false

pub match_action : Str → Str → Bool
unfolding match_lower
match_action pattern action =
    if str_eq pattern (bytes "*") then true else match_lower (to_lower pattern) (to_lower action)

pub action_matches : List Str → Str → Bool
action_matches policy_actions request_action =
    any (λ action. match_action action request_action) policy_actions

pub match_resource : Str → Str → Bool
match_resource pattern resource =
    if str_eq pattern (bytes "*")
    then true
    else if str_eq pattern resource
    then true
    else if has_wildcard pattern
    then glob_match pattern resource
    else false

pub resource_matches : List Str → Str → Bool
resource_matches policy_resources request_resource =
    any (λ resource. match_resource resource request_resource) policy_resources

one_principal : Str → Str → Bool
one_principal request_principal p =
    str_eq p (bytes "*")
    || (str_eq p request_principal
        || has_prefix request_principal arn_prefix && glob_match p request_principal)

pub principal_matches : Principal → Str → Bool
unfolding one_principal
principal_matches principal request_principal =
    any (one_principal request_principal) principal.aws
    || is_nil principal.aws && (is_nil principal.service && is_nil principal.federated)

-- A test of the action or of the resource: by the list, or else by the list of exceptions.
listed_or_not_excepted : (List Str → Bool) → List Str → List Str → Bool
listed_or_not_excepted listed names not_names =
    if listed names then true else if is_nil not_names then false else not (listed not_names)

principal_applies : Option Principal → Str → Bool
principal_applies none request_principal = true
principal_applies (some p) request_principal = principal_matches p request_principal

unfoldable pub statement_matches : GoLibrary → Statement → EvalContext → Bool
unfolding listed_or_not_excepted principal_applies action_matches match_action resource_matches
    match_resource
statement_matches go stmt ctx =
    listed_or_not_excepted (λ l. action_matches l ctx.action) stmt.action stmt.not_action
    && (listed_or_not_excepted (λ l. resource_matches l ctx.resource) stmt.resource
          stmt.not_resource
        && (principal_applies stmt.principal ctx.principal
            && (if is_nil stmt.condition then true else conditions_match go stmt.condition ctx)))
