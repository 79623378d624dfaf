-- ===== src/Iam/Conditions.antt =====
-- The condition keys and the `${...}` substitution of internal/iam/policy.go.
pub mod Substitution
pub mod Operators
use cipher_lake.Prelude.{
  ℕ, zero, suc, Bool, true, false, Option, none, some, get_or, List, [], ◌∷◌, ◌++◌, Str, bytes,
  has_prefix, to_lower, drop, length, lookup, str_key, str_eq, split_first, nat_beq, ◌&&◌,
  if◌then◌else◌,
}
use cipher_lake.Iam.Types.{EvalContext}

-- A read of a Go map of texts: a missing key reads as the empty text.
abbrev pub tag_value : Str → List (Str × Str) → Str
tag_value key tags = get_or (lookup key tags) []

resolve_named : Str → Str → EvalContext → Str
resolve_named key_lower key ctx =
    if str_eq key_lower (bytes "aws:sourceip")
    then ctx.source_ip
    else if str_eq key_lower (bytes "aws:currenttime")
    then get_or ctx.time []
    else if str_eq key_lower (bytes "aws:useragent")
    then ctx.user_agent
    else if str_eq key_lower (bytes "aws:principaltype")
    then ctx.principal_type
    else if str_eq key_lower (bytes "s3:prefix")
    then ctx.s3_prefix
    else if str_eq key_lower (bytes "s3:x-amz-acl")
    then ctx.s3_acl
    else tag_value key ctx.conditions

-- `resolveConditionKey`.
pub resolve_condition_key : Str → EvalContext → Str
resolve_condition_key key ctx =
    let key_lower = to_lower key in
    if has_prefix key_lower (bytes "aws:resourcetag/")
    then tag_value (drop (length (bytes "aws:resourcetag/")) key) ctx.resource_tags
    else if has_prefix key_lower (bytes "aws:principaltag/")
    then tag_value (drop (length (bytes "aws:principaltag/")) key) ctx.principal_tags
    else if has_prefix key_lower (bytes "aws:requesttag/")
    then tag_value (drop (length (bytes "aws:requesttag/")) key) ctx.request_tags
    else resolve_named key_lower key ctx

-- `strings.Index(result, "${")`: the text before it, and the text behind it.
pub find_variable : Str → Option (Str × Str)
find_variable [] = none
find_variable (c ∷ []) = none
find_variable (c ∷ d ∷ s) =
    let rest = find_variable (d ∷ s) in
    if nat_beq c b'$' && nat_beq d b'{'
    then some ([], s)
    else elim rest [ none ↦ none | some (before, behind) ↦ some (c ∷ before, behind) ]

-- The loop of `resolveVariableSubstitution`. `none` means that the fuel ran out.
pub substitute_loop : (Str → Str) → ℕ → Str → Option Str
unfolding find_variable
substitute_loop resolve zero result = none
substitute_loop resolve (suc fuel) result = elim (find_variable result) [
  | none ↦ some result
  | some (before, behind) ↦
      let (var_ref, closed) = split_first b'}' behind in
      elim closed [
        | none ↦ some result
        | some rest ↦ substitute_loop resolve fuel (before ++ (resolve var_ref ++ rest))
      ]
]

-- `resolveVariableSubstitution`, with a round for each byte and one more. Where these are not enough,
-- the model returns the value as it is. The loop of the source then runs for ever (see `Substitution`), or goes on for
-- longer and ends, where keys resolve to text with more variables in it.
pub resolve_variable_substitution : Str → EvalContext → Str
unfolding substitute_loop
resolve_variable_substitution value ctx =
    get_or (substitute_loop (λ key. resolve_condition_key key ctx) (suc (length value)) value) value
