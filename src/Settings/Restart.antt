-- ===== src/Settings/Restart.antt =====
-- What `settings_init` gives on a store that holds settings, and on one that does not.
use fruitchip.Common.{
  ℕ, Bool, true, false, ◌+◌, ◌-◌, ◌&&◌, if◌then◌else◌, length, ◌<◌, ◌≡◌, refl, arith, ◌∙◌, ap, ◌==◌,
  Option, some, get_or, not, leb, ltb, ==-refl,
}
use fruitchip.Settings.{Settings, settings_version_magic}
use fruitchip.Settings.Startup.{
  Store, StoreLaws, store_all, settings_init, load_settings, settings_of, settings_reset,
  settings_bytes, default_settings,
}
use fruitchip.Settings.Durable.{Saves, Succeed, set_setting-Saves, settings_of-Saves, init-Saves}
use fruitchip.BootRom.Write.Kv.{set_setting}

set_setting-version :
    (key value : ℕ) (s : Settings) → (set_setting key value s).0.version_magic ≡ s.version_magic
unfolding set_setting
set_setting-version key value s = ground arith

module _ {S : Type 0} (store : Store S) (laws : StoreLaws store) where
  load_settings-Saves :
      (t : S) (s : Settings)
      → Saves store t s
      → s.version_magic ≡ settings_version_magic
      → load_settings store t ≡ some (s, t)
  unfolding load_settings
  load_settings-Saves t s saved version =
      ap choose (settings_of-Saves store laws t s saved)
      ∙ keeps (s.version_magic == settings_version_magic)
          (ap (λ v. v == settings_version_magic) version ∙ ==-refl settings_version_magic)
    where
      choose : Settings → Option (Settings × S)
      choose x =
          if not (x.version_magic == settings_version_magic)
          then settings_reset store t
          else some (x, t)

      keeps :
          (b : Bool)
          → b ≡ true
          → (if not b then settings_reset store t else some (s, t)) ≡ some (s, t)
      keeps b e = rw e refl

  -- The store holds the settings, with this version's magic. A key is set and every write that its
  -- setter makes succeeds. Then the next start, its opening of the store succeeding, has the
  -- settings that the setter left.
  pub settings_init-set_setting :
      (t : S) (s : Settings) (key value : ℕ)
      → Saves store t s
      → s.version_magic ≡ settings_version_magic
      → key < 4
      → Succeed store (set_setting key value s).1 t
      → (store.init (store_all store (set_setting key value s).1 t)).0 ≡ true
      → settings_init store (store_all store (set_setting key value s).1 t)
        ≡ some (
          (set_setting key value s).0,
          (store.init (store_all store (set_setting key value s).1 t)).1,
        )
  unfolding settings_init
  settings_init-set_setting t s key value saved version h writes opens = rw opens (
      load_settings-Saves (store.init (store_all store (set_setting key value s).1 t)).1
        (set_setting key value s).0
        (init-Saves store laws (store_all store (set_setting key value s).1 t)
          (set_setting key value s).0 opens
          (set_setting-Saves store laws t s saved key value h writes))
        (set_setting-version key value s ∙ version))

  -- The store can be opened and has another magic, and the write of the defaults succeeds. Then a
  -- start has the default settings, and the store holds them.
  pub settings_init-default :
      (t : S)
      → (store.init t).0 ≡ true
      → ((settings_of (store.read 0 12 (store.init t).1)).version_magic == settings_version_magic)
        ≡ false
      → (store.write 0 (settings_bytes default_settings) (store.init t).1).0 ≡ true
      → let u = (store.write 0 (settings_bytes default_settings) (store.init t).1).1 in
        (settings_init store t ≡ some (default_settings, u)) × Saves store u default_settings
  unfolding settings_init load_settings settings_reset
  settings_init-default t opens other writes = (
    rw (opens, other, writes) refl,
    record {
      magic = rw (at 0, at 1, at 2, at 3) refl;
      autoboot = at 4;
      delay = rw (at 6, at 7) refl;
      item = at 8;
      options = at 9;
    },
  )
    where
      at :
          (a : ℕ)
          → store.content (store.write 0 (settings_bytes default_settings) (store.init t).1).1 a ≡ (
              if leb 0 a && ltb a (0 + length (settings_bytes default_settings))
              then get_or (settings_bytes default_settings) (a - 0) 0
              else store.content (store.init t).1 a)
      at a = laws.write_content 0 (settings_bytes default_settings) (store.init t).1 a writes
