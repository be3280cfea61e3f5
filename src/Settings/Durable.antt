-- ===== src/Settings/Durable.antt =====
-- A setting that a setter has stored is there after the next start.
use fruitchip.Common.{
  ℕ, Bool, true, false, List, [], ◌∷◌, ◌+◌, ◌%◌, ◌^◌, ◌<◌, ◌≡◌, refl, arith, ◌==◌, Bool-cases, inl,
  inr, bytes16, to_ℕ, is_nonzero, word16, word32, get_or, u8,
}
use fruitchip.Common.Words.{word16-byte_of}
use fruitchip.Settings.{
  Settings, StoreWrite, wear_leveling_write, settings_set_menu_autoboot,
  settings_set_menu_autoboot_delay_sec, settings_set_menu_autoboot_item_idx,
  settings_set_menu_osdsys_options, same_bool,
}
use fruitchip.Settings.Startup.{Store, StoreLaws, store_all, settings_of}
use fruitchip.BootRom.Write.Kv.{set_setting}

module _ {S : Type 0} (store : Store S) where
  -- The fields of a settings record lie in the store.
  pub record Saves (t : S) (s : Settings) : Type 0 where
    pub magic :
        word32 (store.content t 0) (store.content t 1) (store.content t 2) (store.content t 3)
        ≡ s.version_magic
    pub autoboot : store.content t 4 ≡ to_ℕ s.menu_autoboot
    pub delay : word16 (store.content t 6) (store.content t 7) ≡ s.menu_autoboot_delay_sec
    pub item : store.content t 8 ≡ s.menu_autoboot_item_idx
    pub options : store.content t 9 ≡ s.menu_osdsys_options

  -- Every write of a list succeeds.
  abbrev pub Succeed : List StoreWrite → S → Type 0
  Succeed [] t = Unit
  Succeed (wear_leveling_write address bytes ∷ ws) t =
      ((store.write address bytes t).0 ≡ true) × Succeed ws (store.write address bytes t).1

  abbrev pub Kept : Settings × List StoreWrite → S → Type 0
  Kept (s, ws) t = Succeed ws t → Saves (store_all store ws t) s

  module _ (laws : StoreLaws store) (t : S) (s : Settings) (saved : Saves t s) where
    set_delay-Saves : (v : ℕ) → v < 2 ^ 16 → Kept (settings_set_menu_autoboot_delay_sec v s) t
    unfolding settings_set_menu_autoboot_delay_sec
    set_delay-Saves v fits = elim (Bool-cases (s.menu_autoboot_delay_sec == v)) [
      | inl same ↦ rw same (λ ok. saved)
      | inr other ↦ rw other (λ ok.
          let at = λ (a : ℕ). laws.write_content 6 (bytes16 v) t a ok.0 in
          record {
            magic = rw (at 0, at 1, at 2, at 3) saved.magic;
            autoboot = rw (at 4) saved.autoboot;
            delay = rw (at 6, at 7) (word16-byte_of v fits);
            item = rw (at 8) saved.item;
            options = rw (at 9) saved.options;
          })
    ]

    set_autoboot-Saves : (v : Bool) → Kept (settings_set_menu_autoboot v s) t
    unfolding settings_set_menu_autoboot
    set_autoboot-Saves v = elim (Bool-cases (same_bool s.menu_autoboot v)) [
      | inl same ↦ rw same (λ ok. saved)
      | inr other ↦ rw other (λ ok.
          let at = λ (a : ℕ). laws.write_content 4 (to_ℕ v ∷ []) t a ok.0 in
          record {
            magic = rw (at 0, at 1, at 2, at 3) saved.magic;
            autoboot = rw (at 4) refl;
            delay = rw (at 6, at 7) saved.delay;
            item = rw (at 8) saved.item;
            options = rw (at 9) saved.options;
          })
    ]

    set_item-Saves : (v : ℕ) → Kept (settings_set_menu_autoboot_item_idx v s) t
    unfolding settings_set_menu_autoboot_item_idx
    set_item-Saves v = elim (Bool-cases (s.menu_autoboot_item_idx == v)) [
      | inl same ↦ rw same (λ ok. saved)
      | inr other ↦ rw other (λ ok.
          let at = λ (a : ℕ). laws.write_content 8 (u8 v ∷ []) t a ok.0 in
          record {
            magic = rw (at 0, at 1, at 2, at 3) saved.magic;
            autoboot = rw (at 4) saved.autoboot;
            delay = rw (at 6, at 7) saved.delay;
            item = rw (at 8) refl;
            options = rw (at 9) saved.options;
          })
    ]

    set_options-Saves : (v : ℕ) → Kept (settings_set_menu_osdsys_options v s) t
    unfolding settings_set_menu_osdsys_options
    set_options-Saves v = elim (Bool-cases (s.menu_osdsys_options == v)) [
      | inl same ↦ rw same (λ ok. saved)
      | inr other ↦ rw other (λ ok.
          let at = λ (a : ℕ). laws.write_content 9 (v ∷ []) t a ok.0 in
          record {
            magic = rw (at 0, at 1, at 2, at 3) saved.magic;
            autoboot = rw (at 4) saved.autoboot;
            delay = rw (at 6, at 7) saved.delay;
            item = rw (at 8) saved.item;
            options = rw (at 9) refl;
          })
    ]

    -- The setter of any key.
    pub set_setting-Saves : (key value : ℕ) → key < 4 → Kept (set_setting key value s) t
    unfolding set_setting
    set_setting-Saves ℕ.zero value h = set_autoboot-Saves (is_nonzero value)
    set_setting-Saves (ℕ.suc ℕ.zero) value h = set_delay-Saves (value % 2 ^ 16) (omega arith)
    set_setting-Saves (ℕ.suc (ℕ.suc ℕ.zero)) value h = set_item-Saves (value % 2 ^ 16)
    set_setting-Saves (ℕ.suc (ℕ.suc (ℕ.suc ℕ.zero))) value h = set_options-Saves (value % 2 ^ 8)
    set_setting-Saves (ℕ.suc (ℕ.suc (ℕ.suc (ℕ.suc k)))) value h = absurd (omega arith)

  pub settings_of-Saves :
      (laws : StoreLaws store) (t : S) (s : Settings)
      → Saves t s
      → settings_of (store.read 0 12 t) ≡ s
  settings_of-Saves laws t s saved =
      rw
        (
          at 0 (omega arith),
          at 1 (omega arith),
          at 2 (omega arith),
          at 3 (omega arith),
          at 4 (omega arith),
          at 6 (omega arith),
          at 7 (omega arith),
          at 8 (omega arith),
          at 9 (omega arith),
          saved.magic,
          saved.autoboot,
          saved.delay,
          saved.item,
          saved.options,
        )
        (flag s.menu_autoboot)
    where
      at : (i : ℕ) → i < 12 → get_or (store.read 0 12 t) i 0 ≡ store.content t (0 + i)
      at i h = laws.read_content 0 12 t i h

      flag :
          (b : Bool)
          → record s { menu_autoboot = is_nonzero (to_ℕ b) } ≡ record s { menu_autoboot = b }
      flag true = refl
      flag false = refl

  pub init-Saves :
      (laws : StoreLaws store) (t : S) (s : Settings)
      → (store.init t).0 ≡ true
      → Saves t s
      → Saves (store.init t).1 s
  init-Saves laws t s ok saved = record {
    magic = rw (at 0, at 1, at 2, at 3) saved.magic;
    autoboot = rw (at 4) saved.autoboot;
    delay = rw (at 6, at 7) saved.delay;
    item = rw (at 8) saved.item;
    options = rw (at 9) saved.options;
  }
    where
      at : (a : ℕ) → store.content (store.init t).1 a ≡ store.content t a
      at a = laws.init_content t a ok
