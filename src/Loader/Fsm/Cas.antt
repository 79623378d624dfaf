-- ===== src/Loader/Fsm/Cas.antt =====
-- Versions of plugin state in internal/pluginloader/fsm.go: a write with an expected version is a compare and
-- swap.
use cipher_lake.Prelude.{
  ℕ, ◌+◌, ◌%◌, ◌^◌, ◌≤◌, ◌<◌, true, false, ◌&&◌, nat_beq, nat_beq_iff, Option, none, some, Str,
  str_eq, str_eq_iff, if◌then◌else◌, ◌≡◌, ◌≢◌, refl, arith, ap, subst, sym, ◌∙◌, Bool-cases, inl,
  inr, ◌⊎◌,
}
use cipher_lake.Loader.Bolt.{Bolt}
use cipher_lake.Loader.Fsm.{
  StateEntry, ApplyError, version_mismatch, state_put, LoaderState, put_checked, nested_or_new,
  or_new, next_version, version_of, cas_allows, write_entry, entry_at, apply_state_put, apply_op,
}

module _ (bolt : Bolt) where
  -- The state after a write that goes through.
  abbrev written : LoaderState bolt → Str → Str → Str → LoaderState bolt
  written s plugin key data_ =
      let nested = nested_or_new bolt s plugin in
      record s {
        plugin_state =
            bolt.put plugin
              (bolt.put key
                (record { value = data_; version = next_version bolt (bolt.get key nested) })
                nested)
              s.plugin_state;
      }

  put-allows :
      (s : LoaderState bolt) (plugin key data_ : Str) (expected : ℕ)
      → bolt.key_allowed plugin ≡ true
      → bolt.key_allowed key ≡ true
      → cas_allows bolt expected (entry_at bolt s plugin key) ≡ true
      → apply_op bolt s (state_put plugin key data_ expected) ≡ (written s plugin key data_, none)
  unfolding apply_op apply_state_put write_entry put_checked
  put-allows s plugin key data_ expected named keyed allows = rw named (rw allows (rw keyed refl))

  put-refuses :
      (s : LoaderState bolt) (plugin key data_ : Str) (expected : ℕ)
      → bolt.key_allowed plugin ≡ true
      → cas_allows bolt expected (entry_at bolt s plugin key) ≡ false
      → apply_op bolt s (state_put plugin key data_ expected)
        ≡ (s, some (version_mismatch expected (version_of bolt (entry_at bolt s plugin key))))
  unfolding apply_op apply_state_put
  put-refuses s plugin key data_ expected named refuses = rw named (rw refuses refl)

  abbrev new_entry : LoaderState bolt → Str → Str → Str → StateEntry
  new_entry s plugin key data_ = record {
    value = data_;
    version = next_version bolt (entry_at bolt s plugin key);
  }

  -- The bucket of a plugin after the write: the written one, or the old one of another plugin.
  nested-written :
      (s : LoaderState bolt) (plugin key data_ p : Str)
      → nested_or_new bolt (written s plugin key data_) p
        ≡ or_new bolt (
            if str_eq plugin p
            then some (bolt.put key (new_entry s plugin key data_) (nested_or_new bolt s plugin))
            else bolt.get p s.plugin_state)
  nested-written s plugin key data_ p = ap (or_new bolt) (
      bolt.get-put plugin p
        (bolt.put key (new_entry s plugin key data_) (nested_or_new bolt s plugin)) s.plugin_state)

  entry_at-written :
      (s : LoaderState bolt) (plugin key data_ p k : Str)
      → entry_at bolt (written s plugin key data_) p k ≡ (
          if str_eq plugin p && str_eq key k
          then some (new_entry s plugin key data_)
          else entry_at bolt s p k)
  entry_at-written s plugin key data_ p k = elim (Bool-cases (str_eq plugin p)) [
    | inl here ↦
        let same : plugin ≡ p = (str_eq_iff plugin p).0 here in
        let old = ap (λ q. entry_at bolt s q k) same in
        let put = bolt.get-put key k (new_entry s plugin key data_) (nested_or_new bolt s plugin) in
        ap (bolt.get k) (nested-written s plugin key data_ p) ∙ rw here (put ∙ rw old refl)
    | inr there ↦ ap (bolt.get k) (nested-written s plugin key data_ p) ∙ rw there refl
  ]

  -- The version that an entry gets, of the one that was there.
  abbrev pub IsNext : Option StateEntry → ℕ → Type 0
  IsNext none v = v ≡ 1
  IsNext (some old) v = v ≡ (old.version + 1) % 2 ^ 64

  -- No version is expected, or that of the entry.
  abbrev pub IsExpected : ℕ → Option StateEntry → Type 0
  IsExpected expected none = expected ≡ 0
  IsExpected expected (some old) = (expected ≡ 0) ⊎ (old.version ≡ expected)

  -- The version that a mismatch reports.
  abbrev pub IsActual : Option StateEntry → ℕ → Type 0
  IsActual none v = v ≡ 0
  IsActual (some old) v = v ≡ old.version

  -- What a write with an expected version makes of the state, with the answer.
  abbrev pub IsWrite :
      LoaderState bolt → Str → Str → Str → ℕ → LoaderState bolt × Option ApplyError → Type 0
  IsWrite s plugin key data_ expected (after, answer) =
      (IsExpected expected (entry_at bolt s plugin key)
        × (answer ≡ none)
        × ((v : ℕ) × IsNext (entry_at bolt s plugin key) v
            × ((p k : Str)
                → entry_at bolt after p k ≡ (
                    if str_eq plugin p && str_eq key k
                    then some (record { value = data_; version = v })
                    else entry_at bolt s p k))))
      ⊎ (¬ IsExpected expected (entry_at bolt s plugin key)
          × (after ≡ s)
          × ((v : ℕ) × IsActual (entry_at bolt s plugin key) v
              × (answer ≡ some (version_mismatch expected v))))

  next_version-IsNext : (old : Option StateEntry) → IsNext old (next_version bolt old)
  next_version-IsNext none = refl
  next_version-IsNext (some old) = refl

  version_of-IsActual : (old : Option StateEntry) → IsActual old (version_of bolt old)
  version_of-IsActual none = refl
  version_of-IsActual (some old) = refl

  cas_allows-IsExpected :
      (expected : ℕ) (old : Option StateEntry)
      → cas_allows bolt expected old ≡ true
      → IsExpected expected old
  unfolding cas_allows
  cas_allows-IsExpected expected none h = ground (arith, h)
  cas_allows-IsExpected expected (some old) h = elim (Bool-cases (nat_beq expected 0)) [
    | inl unexpecting ↦ inl (ground (arith, unexpecting))
    | inr expecting ↦ inr (ground (arith, h, expecting))
  ]

  cas_allows-unexpected :
      (expected : ℕ) (old : Option StateEntry)
      → cas_allows bolt expected old ≡ false
      → ¬ IsExpected expected old
  unfolding cas_allows
  cas_allows-unexpected expected none h e = absurd (ground (arith, h, e))
  cas_allows-unexpected expected (some old) h (inl e) = absurd (ground (arith, h, e))
  cas_allows-unexpected expected (some old) h (inr e) = absurd (ground (arith, h, e))

  -- A write of plugin state under allowed names. Where no version is expected, or the one of the entry, the entry gets
  -- the data and a version one higher (modulo 2 ^ 64), or 1 where there was none, and every other entry of every
  -- plugin is as before. Otherwise, also where a version is expected of an entry that is not there, the state is as
  -- before, and the answer is a mismatch with the entry's version, or 0 for no entry.
  pub state_put_swaps :
      (s : LoaderState bolt) (plugin key data_ : Str) (expected : ℕ)
      → bolt.key_allowed plugin ≡ true
      → bolt.key_allowed key ≡ true
      → IsWrite s plugin key data_ expected (apply_op bolt s (state_put plugin key data_ expected))
  state_put_swaps s plugin key data_ expected named keyed =
      let old = entry_at bolt s plugin key in
      elim (Bool-cases (cas_allows bolt expected old)) [
        | inl allows ↦
            subst (IsWrite s plugin key data_ expected)
              (sym (put-allows s plugin key data_ expected named keyed allows))
              (inl (
                cas_allows-IsExpected expected old allows,
                refl,
                (
                  next_version bolt old,
                  next_version-IsNext old,
                  entry_at-written s plugin key data_,
                ),
              ))
        | inr refuses ↦
            subst (IsWrite s plugin key data_ expected)
              (sym (put-refuses s plugin key data_ expected named refuses))
              (inr (
                cas_allows-unexpected expected old refuses,
                refl,
                (version_of bolt old, version_of-IsActual old, refl),
              ))
      ]

  next-moves :
      (e : Option StateEntry) (expected : ℕ)
      → cas_allows bolt expected e ≡ true
      → 1 ≤ expected
      → expected < 2 ^ 64
      → next_version bolt e ≡ (expected + 1) % 2 ^ 64
  unfolding cas_allows
  next-moves none expected allows positive word = absurd (ground (arith, allows, positive))
  next-moves (some entry) expected allows positive word =
      let same : entry.version ≡ expected = ground (arith, allows, positive) in
      ap (λ v. (v + 1) % 2 ^ 64) same

  stale :
      (entry : StateEntry) (expected : ℕ)
      → entry.version ≡ (expected + 1) % 2 ^ 64
      → 1 ≤ expected
      → expected < 2 ^ 64
      → cas_allows bolt expected (some entry) ≡ false
  unfolding cas_allows
  stale entry expected e positive word =
      let moved : (expected + 1) % 2 ^ 64 ≢ expected = λ same. omega (arith, same, word) in
      ground (arith, e, moved, positive)

  own_version : (entry : StateEntry) → cas_allows bolt entry.version (some entry) ≡ true
  unfolding cas_allows
  own_version entry = ground (arith, nat_beq_iff entry.version entry.version)

  -- Of two writes of one entry that expect its version, which is not 0, the first is done and the second is refused
  -- with the version that the first has left, the next one in 64 bits; it changes nothing: no update is lost.
  pub second_put_refused :
      (s : LoaderState bolt) (plugin key first second : Str) (entry : StateEntry)
      → bolt.key_allowed plugin ≡ true
      → bolt.key_allowed key ≡ true
      → entry_at bolt s plugin key ≡ some entry
      → 1 ≤ entry.version
      → entry.version < 2 ^ 64
      → let one = apply_op bolt s (state_put plugin key first entry.version) in
        (one.1 ≡ none)
        × (apply_op bolt one.0 (state_put plugin key second entry.version)
            ≡ (one.0, some (version_mismatch entry.version ((entry.version + 1) % 2 ^ 64))))
  second_put_refused s plugin key first second entry named keyed there positive word =
      let expected = entry.version in
      let after = written s plugin key first in
      let allows : cas_allows bolt expected (entry_at bolt s plugin key) ≡ true =
        rw there (own_version entry) in
      let done = put-allows s plugin key first expected named keyed allows in
      let next = next-moves (entry_at bolt s plugin key) expected allows positive word in
      let now : entry_at bolt after plugin key ≡ some (new_entry s plugin key first) =
        entry_at-written s plugin key first plugin key
        ∙ rw ((str_eq_iff plugin plugin).1 refl) (rw ((str_eq_iff key key).1 refl) refl) in
      let refused : cas_allows bolt expected (entry_at bolt after plugin key) ≡ false =
        rw now (stale (new_entry s plugin key first) expected next positive word) in
      let answer = put-refuses after plugin key second expected named refused in
      let mismatch = ap (version_of bolt) now ∙ next in
      (
        ap (λ r. r.1) done,
        subst
            (λ r.
              apply_op bolt r.0 (state_put plugin key second expected)
              ≡ (r.0, some (version_mismatch expected ((expected + 1) % 2 ^ 64))))
            (sym done) (answer ∙ ap (λ v. (after, some (version_mismatch expected v))) mismatch),
      )
