-- ===== src/Loader/Fsm.antt =====
-- `LoaderFSM` of internal/pluginloader/fsm.go: the operations that Raft replicates, each in one transaction
-- that an error takes back. Records are kept as the bytes they come in; the top-level buckets exist from
-- the start. The empty key and bucket name are refused by bbolt.
pub mod Cas
pub mod Uninstall
use cipher_lake.Prelude.{
  ℕ, zero, suc, ◌+◌, ◌%◌, ◌^◌, Bool, true, false, ◌||◌, not, Option, none, some, List, [], ◌∷◌,
  ◌++◌, Str, bytes, nat_beq, if◌then◌else◌,
}
use cipher_lake.Loader.Bolt.{Bolt}
use cipher_lake.Loader.Deletion.{delete_all}

pub record StateEntry : Type 0 where
  pub value : Str
  pub version : ℕ

pub data ApplyError : Type 0 where
  key_refused unknown_op : ApplyError
  version_mismatch : ℕ → ℕ → ApplyError

pub data LoaderOp : Type 0 where
  plugin_install trusted_key_add : Str → Str → LoaderOp
  plugin_uninstall trusted_key_remove : Str → LoaderOp
  state_put : Str → Str → Str → ℕ → LoaderOp
  state_delete hook_unregister : Str → Str → LoaderOp
  hook_register : Str → Str → Str → LoaderOp
  other_op : LoaderOp

abbrev pub hook_prefix : Str → Str
hook_prefix plugin = plugin ++ bytes ":"

module _ (bolt : Bolt) where
  pub record LoaderState : Type 0 where
    pub plugin_registry : bolt.Bucket Str
    pub trusted_keys : bolt.Bucket Str
    pub plugin_state : bolt.Bucket (bolt.Bucket StateEntry)
    pub hook_registry : bolt.Bucket Str

  unfoldable pub new_state : LoaderState
  new_state = record {
    plugin_registry = bolt.empty;
    trusted_keys = bolt.empty;
    plugin_state = bolt.empty;
    hook_registry = bolt.empty;
  }

  -- A transaction's outcome: an error takes its writes back.
  abbrev pub Outcome : Type 0
  Outcome = LoaderState × Option ApplyError

  unfoldable pub put_checked : {V : Type 0} → Str → V → bolt.Bucket V → Option (bolt.Bucket V)
  put_checked k v b = if bolt.key_allowed k then some (bolt.put k v b) else none

  abbrev pub committed :
      {V : Type 0} → LoaderState → (bolt.Bucket V → LoaderState) → Option (bolt.Bucket V) → Outcome
  committed s f none = (s, some key_refused)
  committed s f (some b) = (f b, none)

  unfoldable pub apply_plugin_install : LoaderState → Str → Str → Outcome
  apply_plugin_install s plugin data_ =
      committed s (λ b. record s { plugin_registry = b })
        (put_checked plugin data_ s.plugin_registry)

  -- The plugin's record, its bucket of state, and the hooks whose keys have its prefix.
  unfoldable pub apply_plugin_uninstall : LoaderState → Str → Outcome
  apply_plugin_uninstall s plugin = (
    record s {
      plugin_registry = bolt.delete plugin s.plugin_registry;
      plugin_state = bolt.delete plugin s.plugin_state;
      hook_registry =
          delete_all bolt (bolt.seek_prefix (hook_prefix plugin) s.hook_registry) s.hook_registry;
    },
    none,
  )

  unfoldable pub apply_trusted_key_add : LoaderState → Str → Str → Outcome
  apply_trusted_key_add s key data_ =
      committed s (λ b. record s { trusted_keys = b }) (put_checked key data_ s.trusted_keys)

  unfoldable pub apply_trusted_key_remove : LoaderState → Str → Outcome
  apply_trusted_key_remove s key =
      (record s { trusted_keys = bolt.delete key s.trusted_keys }, none)

  -- The plugin's bucket of state, made where there is none.
  abbrev pub or_new : Option (bolt.Bucket StateEntry) → bolt.Bucket StateEntry
  or_new none = bolt.empty
  or_new (some b) = b

  abbrev pub nested_or_new : LoaderState → Str → bolt.Bucket StateEntry
  nested_or_new s plugin = or_new (bolt.get plugin s.plugin_state)

  -- The version of an entry, and 0 where there is none.
  abbrev pub version_of : Option StateEntry → ℕ
  version_of none = 0
  version_of (some entry) = entry.version

  -- Versions are uint64.
  abbrev pub next_version : Option StateEntry → ℕ
  next_version none = 1
  next_version (some entry) = (entry.version + 1) % 2 ^ 64

  -- The test of an expected version against the entry; 0 expects nothing.
  unfoldable pub cas_allows : ℕ → Option StateEntry → Bool
  cas_allows expected none = nat_beq expected 0
  cas_allows expected (some entry) = nat_beq expected 0 || nat_beq entry.version expected

  unfoldable pub write_entry : LoaderState → Str → Str → Str → bolt.Bucket StateEntry → Outcome
  write_entry s plugin key data_ nested =
      let entry : StateEntry = record {
        value = data_;
        version = next_version (bolt.get key nested);
      } in
      committed s (λ b. record s { plugin_state = bolt.put plugin b s.plugin_state })
        (put_checked key entry nested)

  abbrev pub entry_at : LoaderState → Str → Str → Option StateEntry
  entry_at s plugin key = bolt.get key (nested_or_new s plugin)

  -- A bucket that is there has a name that is allowed.
  unfoldable pub apply_state_put : LoaderState → Str → Str → Str → ℕ → Outcome
  apply_state_put s plugin key data_ expected =
      let nested = nested_or_new s plugin in
      if not (bolt.key_allowed plugin)
      then (s, some key_refused)
      else if cas_allows expected (bolt.get key nested)
      then write_entry s plugin key data_ nested
      else (s, some (version_mismatch expected (version_of (bolt.get key nested))))

  unfoldable pub apply_state_delete : LoaderState → Str → Str → Outcome
  apply_state_delete s plugin key = elim (bolt.get plugin s.plugin_state) [
    | none ↦ (s, none)
    | some b ↦
        (record s { plugin_state = bolt.put plugin (bolt.delete key b) s.plugin_state }, none)
  ]

  unfoldable pub apply_hook_register : LoaderState → Str → Str → Str → Outcome
  apply_hook_register s plugin key data_ =
      committed s (λ b. record s { hook_registry = b })
        (put_checked (hook_prefix plugin ++ key) data_ s.hook_registry)

  unfoldable pub apply_hook_unregister : LoaderState → Str → Str → Outcome
  apply_hook_unregister s plugin key =
      (record s { hook_registry = bolt.delete (hook_prefix plugin ++ key) s.hook_registry }, none)

  unfoldable pub apply_op : LoaderState → LoaderOp → Outcome
  apply_op s (plugin_install plugin data_) = apply_plugin_install s plugin data_
  apply_op s (plugin_uninstall plugin) = apply_plugin_uninstall s plugin
  apply_op s (trusted_key_add key data_) = apply_trusted_key_add s key data_
  apply_op s (trusted_key_remove key) = apply_trusted_key_remove s key
  apply_op s (state_put plugin key data_ expected) = apply_state_put s plugin key data_ expected
  apply_op s (state_delete plugin key) = apply_state_delete s plugin key
  apply_op s (hook_register plugin key data_) = apply_hook_register s plugin key data_
  apply_op s (hook_unregister plugin key) = apply_hook_unregister s plugin key
  apply_op s other_op = (s, some unknown_op)
