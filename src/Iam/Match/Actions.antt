-- ===== src/Iam/Match/Actions.antt =====
-- What an action pattern of a policy means: `matchAction` of internal/iam/policy.go.
use mathlib.Core.List.{map-append, append_assoc}
use cipher_lake.Prelude.{
  true, false, [], ◌∷◌, ◌++◌, Str, bytes, to_lower, str_eq, str_eq_iff, has_prefix,
  has_prefix-append, has_suffix-append, trim_suffix-append, ◌≡◌, refl, arith, sym, inl, inr,
  Bool-cases, subst,
}
use cipher_lake.Iam.Match.{match_action, match_lower}

not_star : (service : Str) → str_eq (service ++ bytes ":*") (bytes "*") ≡ false
unfolding str_eq
not_star [] = refl
not_star (c ∷ []) = ground arith
not_star (c ∷ d ∷ s) = ground arith

match_lower-service : (l a : Str) → match_lower (l ++ bytes ":*") a ≡ has_prefix a (l ++ bytes ":")
unfolding match_lower
match_lower-service l a = elim (Bool-cases (str_eq (l ++ bytes ":*") a)) [
  | inl e ↦
      rw e (
        sym
          (subst (λ (x : Str). has_prefix x (l ++ bytes ":") ≡ true) ((str_eq_iff _ _).0 e) whole))
  | inr e ↦ rw (e, has_suffix-append, trim_suffix-append)
]
  where
    whole : has_prefix (l ++ bytes ":*") (l ++ bytes ":") ≡ true
    whole =
        rw (append_assoc l (bytes ":") (bytes "*")) at
          (has_prefix-append (l ++ bytes ":") (bytes "*"))

-- The pattern `service:*` matches exactly the actions of that service, in any case of letters.
pub match_action-service :
    (service action : Str)
    → match_action (service ++ bytes ":*") action
      ≡ has_prefix (to_lower action) (to_lower service ++ bytes ":")
unfolding match_action
match_action-service service action =
    rw (not_star, map-append) (match_lower-service (to_lower service) (to_lower action))
