-- ===== src/Iam/Conditions/Operators.antt =====
-- The condition operators of internal/iam/policy.go. What Go's `strconv.ParseFloat`, `time.Parse` and
-- `net/netip` make of two texts is a parameter; lower case is that of ASCII.
use cipher_lake.Prelude.{
  Bool, true, false, not, Option, none, some, List, [], ◌∷◌, Str, bytes, to_lower, contains_byte,
  str_eq, nat_beq, ltb, ◌||◌, ◌&&◌, if◌then◌else◌, is_nil,
}
use cipher_lake.Iam.Types.{EvalContext, CondValue, text, texts, boolean, other}
use cipher_lake.Iam.Glob.{glob_match}
use cipher_lake.Iam.Glob.Reference.{star_byte, any_byte}
use cipher_lake.Iam.Conditions.{resolve_condition_key, resolve_variable_substitution}

-- How two numbers compare; `unordered` where one is not a number.
pub data Order : Type 0 where
  less same greater unordered : Order

-- `none` where one of the two texts does not parse.
pub record GoLibrary : Type 0 where
  pub compare_floats : Str → Str → Option Order
  pub compare_times : Str → Str → Option Order
  pub prefix_contains : Str → Str → Option Bool

abbrev is_less : Order → Bool
is_less less = true
is_less _ = false

abbrev is_same : Order → Bool
is_same same = true
is_same _ = false

abbrev is_greater : Order → Bool
is_greater greater = true
is_greater _ = false

-- `<` on Go strings.
pub str_less : Str → Str → Bool
str_less [] [] = false
str_less [] (b ∷ t) = true
str_less (a ∷ s) [] = false
str_less (a ∷ s) (b ∷ t) = ltb a b || nat_beq a b && str_less s t

parsed_or : Option Order → (Order → Bool) → Bool → Bool
parsed_or none test fallback = fallback
parsed_or (some o) test fallback = test o

abbrev pub has_wildcard : Str → Bool
has_wildcard p = contains_byte star_byte p || contains_byte any_byte p

unfoldable pub arn_match : Str → Str → Bool
arn_match pattern arn =
    if str_eq pattern (bytes "*")
    then true
    else if str_eq pattern arn
    then true
    else if has_wildcard pattern
    then glob_match pattern arn
    else str_eq (to_lower pattern) (to_lower arn)

module _ (go : GoLibrary) where
  -- The range is a CIDR prefix if it holds a slash.
  ip_in_range : Str → Str → Bool
  ip_in_range ip cidr =
      if str_eq cidr (bytes "*")
      then true
      else if contains_byte b'/' cidr
      then elim (go.prefix_contains ip cidr) [ none ↦ false | some inside ↦ inside ]
      else str_eq ip cidr

  date_less_than : Str → Str → Bool
  unfolding parsed_or
  date_less_than actual expected =
      parsed_or (go.compare_times actual expected) is_less (str_less actual expected)

  date_greater_than : Str → Str → Bool
  unfolding parsed_or
  date_greater_than actual expected =
      parsed_or (go.compare_times actual expected) is_greater (str_less expected actual)

  numeric_equals : Str → Str → Bool
  unfolding parsed_or
  numeric_equals actual expected =
      parsed_or (go.compare_floats actual expected) is_same (str_eq actual expected)

  numeric_less_than : Str → Str → Bool
  unfolding parsed_or
  numeric_less_than actual expected =
      parsed_or (go.compare_floats actual expected) is_less (str_less actual expected)

  numeric_greater_than : Str → Str → Bool
  unfolding parsed_or
  numeric_greater_than actual expected =
      parsed_or (go.compare_floats actual expected) is_greater (str_less expected actual)

  -- `compareValues`, on the operator in lower case.
  pub compare_values : Str → Str → Str → Bool
  unfolding ip_in_range date_less_than date_greater_than numeric_equals numeric_less_than
      numeric_greater_than arn_match
  compare_values operator actual expected =
      if str_eq operator (bytes "stringequals")
      then str_eq actual expected
      else if str_eq operator (bytes "stringnotequals")
      then not (str_eq actual expected)
      else if str_eq operator (bytes "stringlike")
      then glob_match expected actual
      else if str_eq operator (bytes "stringnotlike")
      then not (glob_match expected actual)
      else if str_eq operator (bytes "numericequals")
      then numeric_equals actual expected
      else if str_eq operator (bytes "numericnotequals")
      then not (numeric_equals actual expected)
      else if str_eq operator (bytes "numericlessthan")
      then numeric_less_than actual expected
      else if str_eq operator (bytes "numericgreaterthan")
      then numeric_greater_than actual expected
      else if str_eq operator (bytes "datelessthan")
      then date_less_than actual expected
      else if str_eq operator (bytes "dategreaterthan")
      then date_greater_than actual expected
      else if str_eq operator (bytes "ipaddress")
      then ip_in_range actual expected
      else if str_eq operator (bytes "notipaddress")
      then not (ip_in_range actual expected)
      else if str_eq operator (bytes "bool")
      then str_eq (to_lower actual) (to_lower expected)
      else if str_eq operator (bytes "arnequals") || str_eq operator (bytes "arnlike")
      then arn_match expected actual
      else str_eq actual expected

expected_null : CondValue → Bool
expected_null (text v) = str_eq (to_lower v) (bytes "true")
expected_null (boolean v) = v
expected_null _ = false

null_condition_matches : Str → CondValue → EvalContext → Bool
unfolding expected_null
null_condition_matches key expected_value ctx =
    let key_is_absent = is_nil (resolve_condition_key key ctx) in
    if expected_null expected_value then key_is_absent else not key_is_absent

-- `fmt.Sprintf("%v", b)`.
abbrev bool_text : Bool → Str
bool_text true = bytes "true"
bool_text false = bytes "false"

module _ (go : GoLibrary) where
  any_item : Str → Str → EvalContext → List (Option Str) → Bool
  any_item op_lower actual_value ctx [] = false
  any_item op_lower actual_value ctx (none ∷ items) = any_item op_lower actual_value ctx items
  any_item op_lower actual_value ctx (some s ∷ items) =
      compare_values go op_lower actual_value (resolve_variable_substitution s ctx)
      || any_item op_lower actual_value ctx items

  value_matches : Str → Str → CondValue → EvalContext → Bool
  unfolding any_item
  value_matches op_lower actual_value (text v) ctx =
      compare_values go op_lower actual_value (resolve_variable_substitution v ctx)
  value_matches op_lower actual_value (texts items) ctx = any_item op_lower actual_value ctx items
  value_matches op_lower actual_value (boolean b) ctx =
      compare_values go op_lower actual_value (bool_text b)
  value_matches op_lower actual_value (other printed) ctx =
      compare_values go op_lower actual_value printed

  pub condition_matches : Str → Str → CondValue → EvalContext → Bool
  unfolding null_condition_matches value_matches
  condition_matches operator key expected_value ctx =
      let op_lower = to_lower operator in
      if str_eq op_lower (bytes "null")
      then null_condition_matches key expected_value ctx
      else value_matches op_lower (resolve_condition_key key ctx) expected_value ctx

  keys_match : Str → EvalContext → List (Str × CondValue) → Bool
  keys_match operator ctx [] = true
  keys_match operator ctx ((key, expected_value) ∷ rest) =
      condition_matches operator key expected_value ctx && keys_match operator ctx rest

  -- `conditionsMatch`: all conditions hold. The order in which Go visits a map does not matter.
  pub conditions_match : List (Str × List (Str × CondValue)) → EvalContext → Bool
  unfolding keys_match
  conditions_match [] ctx = true
  conditions_match ((operator, by_key) ∷ rest) ctx =
      keys_match operator ctx by_key && conditions_match rest ctx
