-- ===== src/Iam/Conditions/Substitution.antt =====
-- When the loop of `resolveVariableSubstitution` in internal/iam/policy.go ends, and when it never
-- does.
use mathlib.Core.List.{append_assoc}
use cipher_lake.Prelude.{
  ◌∙◌, ℕ, zero, suc, ◌+◌, ◌≤◌, ◌<◌, true, false, Option, none, some, [], ◌∷◌, ◌++◌, Str, length,
  nat_beq, ◌≡◌, refl, arith, is_some, some-get_or, bytes, has_prefix, lookup, str_key,
  contains_byte, split_first, split_first-append, if◌then◌else◌, ap, get_or, drop, to_lower,
}
use cipher_lake.Iam.Types.{EvalContext}
use cipher_lake.Iam.Conditions.{
  find_variable, substitute_loop, resolve_condition_key, resolve_variable_substitution, tag_value,
  resolve_named,
}

abbrev dollar : ℕ
dollar = b'$'

-- How many dollar signs a text holds.
unfoldable pub dollars : Str → ℕ
dollars [] = 0
dollars (c ∷ s) = let rest = dollars s in if nat_beq c dollar then suc rest else rest

dollars-append : (s t : Str) → dollars (s ++ t) ≡ dollars s + dollars t
unfolding dollars
dollars-append [] t = omega arith
dollars-append (c ∷ s) t = ground (arith, dollars-append s t)

dollars-le-length : (s : Str) → dollars s ≤ length s
unfolding dollars
dollars-le-length [] = omega arith
dollars-le-length (c ∷ s) = ground (arith, dollars-le-length s)

abbrev FoundAt : Str → Option (Str × Str) → Type 0
FoundAt s none = Unit {0}
FoundAt s (some (before, behind)) = suc (dollars before + dollars behind) ≤ dollars s

find_variable-FoundAt : (s : Str) → FoundAt s (find_variable s)
unfolding find_variable dollars
find_variable-FoundAt [] = tt
find_variable-FoundAt (c ∷ []) = tt
find_variable-FoundAt (c ∷ d ∷ s) = ground (arith, find_variable-FoundAt (d ∷ s))

split_first-dollars : (s rest : Str) → (split_first b'}' s).1 ≡ some rest → dollars rest ≤ dollars s
unfolding split_first dollars
split_first-dollars [] rest h = ground arith
split_first-dollars (c ∷ s) rest h = ground (arith, split_first-dollars s rest)

module _ (resolve : Str → Str) where
  -- One round, for each outcome of the two searches.
  substitute_round :
      (fuel : ℕ) (s : Str) (found : Option (Str × Str))
      → find_variable s ≡ found
      → FoundAt s found
      → ((key : Str) → dollars (resolve key) ≡ 0)
      → dollars s < suc fuel
      → ((t : Str) → dollars t < fuel → is_some (substitute_loop resolve fuel t) ≡ true)
      → is_some (substitute_loop resolve (suc fuel) s) ≡ true
  unfolding substitute_loop
  substitute_round fuel s none e at plain h ih = rw (e, substitute_loop)
  substitute_round fuel s (some (before, behind)) e at plain h ih =
      rw (e, substitute_loop) (closing (split_first b'}' behind).1 refl)
    where
      var_ref : Str
      var_ref = (split_first b'}' behind).0

      closing :
          (closed : Option Str)
          → (split_first b'}' behind).1 ≡ closed
          → is_some (elim closed [
            | none ↦ some s
            | some rest ↦ substitute_loop resolve fuel (before ++ (resolve var_ref ++ rest))
          ])
            ≡ true
      closing none c = refl
      closing (some rest) c = ih (before ++ (resolve var_ref ++ rest)) (
          omega (
            arith,
            plain var_ref,
            dollars-append before (resolve var_ref ++ rest),
            dollars-append (resolve var_ref) rest,
            split_first-dollars behind rest c,
          ))

  -- Where no value that a key resolves to holds a dollar sign, one round for each dollar sign of the
  -- text and one more are enough.
  substitute_loop_total :
      ((key : Str) → dollars (resolve key) ≡ 0)
      → (fuel : ℕ) (s : Str) → dollars s < fuel
      → is_some (substitute_loop resolve fuel s) ≡ true
  substitute_loop_total plain zero s h = absurd (omega arith)
  substitute_loop_total plain (suc fuel) s h =
      substitute_round fuel s (find_variable s) refl (find_variable-FoundAt s) plain h
        (substitute_loop_total plain fuel)

-- No value of the context holds a dollar sign.
pub record IsPlain (ctx : EvalContext) : Type 0 where
  pub resource_tags : (key : Str) → dollars (tag_value key ctx.resource_tags) ≡ 0
  pub principal_tags : (key : Str) → dollars (tag_value key ctx.principal_tags) ≡ 0
  pub request_tags : (key : Str) → dollars (tag_value key ctx.request_tags) ≡ 0
  pub conditions : (key : Str) → dollars (tag_value key ctx.conditions) ≡ 0
  pub source_ip : dollars ctx.source_ip ≡ 0
  pub time : dollars (get_or ctx.time []) ≡ 0
  pub user_agent : dollars ctx.user_agent ≡ 0
  pub principal_type : dollars ctx.principal_type ≡ 0
  pub s3_prefix : dollars ctx.s3_prefix ≡ 0
  pub s3_acl : dollars ctx.s3_acl ≡ 0

resolve_named-plain :
    (key_lower key : Str) (ctx : EvalContext)
    → IsPlain ctx
    → dollars (resolve_named key_lower key ctx) ≡ 0
unfolding resolve_named
resolve_named-plain key_lower key ctx h = ground (arith, h.conditions key)

resolve_condition_key-plain :
    (key : Str) (ctx : EvalContext) → IsPlain ctx → dollars (resolve_condition_key key ctx) ≡ 0
unfolding resolve_condition_key
resolve_condition_key-plain key ctx h = ground (
  arith,
  h.resource_tags (drop 16 key),
  h.principal_tags (drop 17 key),
  h.request_tags (drop 15 key),
  resolve_named-plain (to_lower key) key ctx h,
)

-- If no value of the context holds a dollar sign, the rounds granted are enough: the loop ends, and
-- the substitution is its result.
pub substitute_total :
    (value : Str) (ctx : EvalContext)
    → IsPlain ctx
    → substitute_loop (λ key. resolve_condition_key key ctx) (suc (length value)) value
      ≡ some (resolve_variable_substitution value ctx)
unfolding resolve_variable_substitution
substitute_total value ctx h = some-get_or _ value (
    substitute_loop_total (λ key. resolve_condition_key key ctx)
      (λ key. resolve_condition_key-plain key ctx h) (suc (length value)) value
      (omega (arith, dollars-le-length value)))

-- The variable of a principal's tag, as text.
abbrev pub principal_variable : Str → Str
principal_variable tag = bytes "${aws:PrincipalTag/" ++ (tag ++ bytes "}")

resolve_condition_key-principal :
    (tag : Str) (ctx : EvalContext)
    → resolve_condition_key (bytes "aws:PrincipalTag/" ++ tag) ctx
      ≡ tag_value tag ctx.principal_tags
unfolding resolve_condition_key has_prefix
resolve_condition_key-principal tag ctx = refl

find_variable-principal :
    (tag rest : Str)
    → find_variable (principal_variable tag ++ rest)
      ≡ some ([], bytes "aws:PrincipalTag/" ++ (tag ++ (b'}' ∷ rest)))
unfolding find_variable
find_variable-principal tag rest = rw append_assoc

split_first-principal :
    (tag rest : Str)
    → contains_byte b'}' tag ≡ false
    → split_first b'}' (bytes "aws:PrincipalTag/" ++ (tag ++ (b'}' ∷ rest)))
      ≡ (bytes "aws:PrincipalTag/" ++ tag, some rest)
split_first-principal tag rest plain =
    split_first-append b'}' (bytes "aws:PrincipalTag/" ++ tag) rest plain

substitute_loop-round :
    (resolve : Str → Str) (fuel : ℕ) (s before behind var_ref rest : Str)
    → find_variable s ≡ some (before, behind)
    → split_first b'}' behind ≡ (var_ref, some rest)
    → substitute_loop resolve (suc fuel) s
      ≡ substitute_loop resolve fuel (before ++ (resolve var_ref ++ rest))
unfolding substitute_loop
substitute_loop-round resolve fuel s before behind var_ref rest f c =
    rw (
      f,
      ap (λ (x : Str × Option Str). x.1) c,
      ap (λ (x : Str × Option Str). x.0) c,
      substitute_loop,
    )

-- A principal's tag whose value is its own variable is expanded for ever: whatever the rounds, the
-- loop has not ended.
pub substitute_diverges :
    (fuel : ℕ) (tag rest : Str) (ctx : EvalContext)
    → contains_byte b'}' tag ≡ false
    → lookup tag ctx.principal_tags ≡ some (principal_variable tag)
    → substitute_loop (λ key. resolve_condition_key key ctx) fuel (principal_variable tag ++ rest)
      ≡ none
unfolding substitute_loop
substitute_diverges zero tag rest ctx plain own = refl
substitute_diverges (suc fuel) tag rest ctx plain own =
    substitute_loop-round resolve fuel (principal_variable tag ++ rest) []
      (bytes "aws:PrincipalTag/" ++ (tag ++ (b'}' ∷ rest))) (bytes "aws:PrincipalTag/" ++ tag) rest
      (find_variable-principal tag rest) (split_first-principal tag rest plain)
    ∙ rw (resolve_condition_key-principal tag ctx)
        (rw own (substitute_diverges fuel tag rest ctx plain own))
  where
    resolve : Str → Str
    resolve key = resolve_condition_key key ctx
