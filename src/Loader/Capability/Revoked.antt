-- ===== src/Loader/Capability/Revoked.antt =====
-- Tokens that have been revoked (internal/pluginloader/capability.go), over all later operations on the table.
use cipher_lake.Prelude.{
  ℕ, Option, some, List, [], ◌∷◌, Str, lookup, nat_key, ◌≡◌, ◌≢◌, refl, ap, ◌∙◌,
}
use cipher_lake.Loader.Capability.{
  Capability, CapabilityTable, unknown_token, issue, lookup_token, revoke, delete_token,
  revoke_all_for_plugin, authorize, usable, judge,
}
use cipher_lake.Loader.Capability.Barred.{
  IsBarred, issue-IsBarred, revoke-IsBarred, delete_token-IsBarred, revoke_all_for_plugin-IsBarred,
  revoke_all_for_plugin_bars,
}

pub data TableOp : Type 0 where
  issue_op : Str → ℕ → List Str → Option ℕ → ℕ → (ℕ → Option ℕ) → TableOp
  revoke_op : ℕ → TableOp
  delete_op : ℕ → TableOp
  revoke_all_op : Str → TableOp

unfoldable pub apply_table : TableOp → CapabilityTable → CapabilityTable
apply_table (issue_op plugin tier caps expires_at now draws) t =
    (issue plugin tier caps expires_at now draws t).0
apply_table (revoke_op tok) t = revoke tok t
apply_table (delete_op tok) t = delete_token tok t
apply_table (revoke_all_op plugin) t = (revoke_all_for_plugin plugin t).0

unfoldable pub run_table : List TableOp → CapabilityTable → CapabilityTable
run_table [] t = t
run_table (op ∷ ops) t = run_table ops (apply_table op t)

-- None of these issues a token to the plugin.
abbrev pub IsWithoutIssue : Str → List TableOp → Type 0
IsWithoutIssue plugin [] = Unit
IsWithoutIssue plugin (issue_op p tier caps expires_at now draws ∷ ops) =
    (p ≢ plugin) × IsWithoutIssue plugin ops
IsWithoutIssue plugin (op ∷ ops) = IsWithoutIssue plugin ops

run_table-IsBarred :
    (plugin : Str) (ops : List TableOp) (t : CapabilityTable)
    → IsWithoutIssue plugin ops
    → IsBarred plugin t
    → IsBarred plugin (run_table ops t)
unfolding run_table apply_table
run_table-IsBarred plugin [] t h barred = barred
run_table-IsBarred plugin (issue_op p tier caps expires_at now draws ∷ ops) t (other, h) barred =
    run_table-IsBarred plugin ops (issue p tier caps expires_at now draws t).0 h
      (issue-IsBarred plugin p tier caps expires_at now draws t other barred)
run_table-IsBarred plugin (revoke_op tok ∷ ops) t h barred =
    run_table-IsBarred plugin ops (revoke tok t) h (revoke-IsBarred plugin tok t barred)
run_table-IsBarred plugin (delete_op tok ∷ ops) t h barred =
    run_table-IsBarred plugin ops (delete_token tok t) h (delete_token-IsBarred plugin tok t barred)
run_table-IsBarred plugin (revoke_all_op p ∷ ops) t h barred =
    run_table-IsBarred plugin ops (revoke_all_for_plugin p t).0 h
      (revoke_all_for_plugin-IsBarred plugin p t barred)

-- Once all tokens of a plugin are revoked, and whatever else then happens to the table but the issue of a token to this
-- plugin, each token that is the plugin's is refused every call, at any time.
pub revoked_plugin_refused :
    (plugin : Str) (ops : List TableOp) (t : CapabilityTable) (now tok : ℕ) (requested : Str)
    (c : Capability)
    → IsWithoutIssue plugin ops
    → lookup tok (run_table ops (revoke_all_for_plugin plugin t).0).tokens ≡ some c
    → c.plugin_name ≡ plugin
    → authorize now (run_table ops (revoke_all_for_plugin plugin t).0) tok requested
      ≡ some (record { capability = requested; reason = unknown_token })
unfolding authorize lookup_token
revoked_plugin_refused plugin ops t now tok requested c h e name =
    let out =
      run_table-IsBarred plugin ops (revoke_all_for_plugin plugin t).0 h
        (revoke_all_for_plugin_bars plugin t) tok c e name in
    ap (λ found. judge requested (usable now found)) e ∙ rw out refl
