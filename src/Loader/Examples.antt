-- ===== src/Loader/Examples.antt =====
-- The plugin loader's state (internal/pluginloader/fsm.go) over association lists in place of bbolt.
use cipher_lake.Prelude.{
  none, some, arith, [], ◌∷◌, Str, bytes, str_eq, has_prefix, lookup, str_key, if◌then◌else◌, ◌≡◌,
  refl,
}
use cipher_lake.Loader.Lists.{lists}
use cipher_lake.Loader.Fsm.{
  LoaderState, version_mismatch, state_put, plugin_uninstall, hook_prefix, apply_op,
}
use cipher_lake.Loader.Fsm.Cas.{IsWrite, state_put_swaps, second_put_refused}
use cipher_lake.Loader.Fsm.Uninstall.{uninstall_removes}

abbrev plugin : Str
plugin = bytes "ocr"

abbrev cursor : Str
cursor = bytes "cursor"

-- A plugin with a hook and an entry of version 1, beside a hook of another plugin.
abbrev installed : LoaderState lists
installed = record {
  plugin_registry = (plugin, bytes "1.0") ∷ [];
  trusted_keys = [];
  plugin_state = (plugin, (cursor, record { value = bytes "a"; version = 1 }) ∷ []) ∷ [];
  hook_registry = (bytes "ocr:get", bytes "before") ∷ (bytes "ocr2:get", bytes "after") ∷ [];
}

state_put_swaps_example :
    IsWrite lists installed plugin cursor
      (bytes "b")
      1
      (apply_op lists installed (state_put plugin cursor (bytes "b") 1))
state_put_swaps_example = state_put_swaps lists installed plugin cursor (bytes "b") 1 refl refl

second_put_refused_example :
    ((apply_op lists installed (state_put plugin cursor (bytes "b") 1)).1 ≡ none)
    × (apply_op lists
          (apply_op lists installed (state_put plugin cursor (bytes "b") 1)).0
          (state_put plugin cursor (bytes "c") 1)
        ≡ (
          (apply_op lists installed (state_put plugin cursor (bytes "b") 1)).0,
          some (version_mismatch 1 2),
        ))
unfolding lookup str_eq
second_put_refused_example =
    second_put_refused lists installed plugin cursor (bytes "b") (bytes "c")
      (record { value = bytes "a"; version = 1 }) refl refl refl (omega arith) (omega arith)

uninstall_removes_example :
    (lookup (bytes "ocr:get") (apply_op lists installed (plugin_uninstall plugin)).0.plugin_registry
      ≡ (if str_eq plugin (bytes "ocr:get")
          then none
          else lookup (bytes "ocr:get") installed.plugin_registry))
    × (lookup (bytes "ocr:get") (apply_op lists installed (plugin_uninstall plugin)).0.plugin_state
        ≡ (if str_eq plugin (bytes "ocr:get")
            then none
            else lookup (bytes "ocr:get") installed.plugin_state))
    × (lookup (bytes "ocr:get") (apply_op lists installed (plugin_uninstall plugin)).0.hook_registry
        ≡ (if has_prefix (bytes "ocr:get") (hook_prefix plugin)
            then none
            else lookup (bytes "ocr:get") installed.hook_registry))
    × (lookup (bytes "ocr:get") (apply_op lists installed (plugin_uninstall plugin)).0.trusted_keys
        ≡ lookup (bytes "ocr:get") installed.trusted_keys)
uninstall_removes_example = uninstall_removes lists installed plugin (bytes "ocr:get")
