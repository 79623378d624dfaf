-- ===== src/Loader/Fsm/Uninstall.antt =====
-- What `applyPluginUninstall` of internal/pluginloader/fsm.go removes, and what it leaves.
use cipher_lake.Prelude.{none, Str, str_eq, has_prefix, if◌then◌else◌, ◌≡◌, refl}
use cipher_lake.Loader.Bolt.{Bolt}
use cipher_lake.Loader.Deletion.{get-delete_prefix}
use cipher_lake.Loader.Fsm.{
  LoaderState, hook_prefix, apply_plugin_uninstall, apply_op, plugin_uninstall,
}

module _ (bolt : Bolt) where
  -- After an uninstall, for every key: the registry and the plugin state have lost the plugin alone, the hooks
  -- whose keys start with the plugin's name and a colon are gone and all others are as before, and the trusted
  -- keys are as before.
  pub uninstall_removes :
      (s : LoaderState bolt) (plugin k : Str)
      → (bolt.get k (apply_op bolt s (plugin_uninstall plugin)).0.plugin_registry
          ≡ (if str_eq plugin k then none else bolt.get k s.plugin_registry))
        × (bolt.get k (apply_op bolt s (plugin_uninstall plugin)).0.plugin_state
            ≡ (if str_eq plugin k then none else bolt.get k s.plugin_state))
        × (bolt.get k (apply_op bolt s (plugin_uninstall plugin)).0.hook_registry
            ≡ (if has_prefix k (hook_prefix plugin) then none else bolt.get k s.hook_registry))
        × (bolt.get k (apply_op bolt s (plugin_uninstall plugin)).0.trusted_keys
            ≡ bolt.get k s.trusted_keys)
  unfolding apply_op apply_plugin_uninstall
  uninstall_removes s plugin k = (
    bolt.get-delete plugin k s.plugin_registry,
    bolt.get-delete plugin k s.plugin_state,
    get-delete_prefix bolt (hook_prefix plugin) k s.hook_registry,
    refl,
  )
