-- ===== src/Loader/CapabilityExamples.antt =====
-- Tokens of two plugins (internal/pluginloader/capability.go).
use cipher_lake.Prelude.{
  true, none, some, List, [], ◌∷◌, Str, bytes, str_eq, has_prefix, nat_beq, ◌-◌, ◌^◌, if◌then◌else◌,
  lookup, insert, remove, nat_key, ◌≡◌, ◌≢◌, ◌↔◌, refl, arith,
}
use cipher_lake.Loader.Capability.{
  Capability, CapabilityTable, issued, issue, issue_attempts, revoke_all_for_plugin, unknown_token,
  requires_tier_2, authorize, lookup_token, delete_token, is_tier2_only, capability_matches,
  granted_to,
}
use cipher_lake.Loader.Capability.Authorized.{IsAllowing, authorize_iff}
use cipher_lake.Loader.Capability.Revoked.{
  TableOp, issue_op, delete_op, apply_table, run_table, revoked_plugin_refused,
}

abbrev ocr : Str
ocr = bytes "ocr"

abbrev reads : List Str
reads = bytes "storage:get:memories/*" ∷ []

abbrev two_tokens : CapabilityTable
two_tokens = record {
  next_id = 0;
  tokens =
      (5, granted_to ocr 0 reads 1 none) ∷ (6, granted_to (bytes "tags") 2 reads 1 (some 9)) ∷ [];
}

-- The first draw is the sentinel and the second is taken.
passed_over :
    (issue ocr 0 reads none 3 (λ n. some (if nat_beq n 7 then 2 ^ 63 else n - 1)) two_tokens).1
    ≡ issued 4
unfolding issue issue_attempts lookup
passed_over = refl

unscoped_scope_authorizes :
    capability_matches (bytes "storage:get:memories") (bytes "storage:get") ≡ true
unfolding capability_matches str_eq has_prefix
unscoped_scope_authorizes = refl

tier_2_required :
    authorize 3 two_tokens 5 (bytes "kms:datakey:generate")
    ≡ some (record { capability = bytes "kms:datakey:generate"; reason = requires_tier_2 })
unfolding authorize lookup_token lookup is_tier2_only str_eq has_prefix
tier_2_required = refl

authorize_iff_example : (authorize 3 two_tokens 6 (bytes "storage:get:memories/a") ≡ none) ↔ (
    (c : Capability) × (lookup 6 two_tokens.tokens ≡ some c)
    × IsAllowing 3 (bytes "storage:get:memories/a") c)
authorize_iff_example = authorize_iff 3 two_tokens 6 (bytes "storage:get:memories/a")

abbrev later : List TableOp
later = issue_op (bytes "tags") 2 reads none 4 (λ n. some 7) ∷ delete_op 6 ∷ []

revoked_plugin_refused_example :
    authorize 3
      (run_table later (revoke_all_for_plugin ocr two_tokens).0)
      5
      (bytes "storage:get:memories/a")
    ≡ some (record { capability = bytes "storage:get:memories/a"; reason = unknown_token })
unfolding run_table apply_table revoke_all_for_plugin lookup issue issue_attempts insert remove
    delete_token str_eq
revoked_plugin_refused_example =
    revoked_plugin_refused ocr later two_tokens 3 5 (bytes "storage:get:memories/a")
      (record (granted_to ocr 0 reads 1 none) { revoked = true }) (tags_differ, tt) refl refl
  where
    tags_differ : bytes "tags" ≢ ocr
    tags_differ e = absurd (ground (arith, e))
