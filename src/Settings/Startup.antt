-- ===== src/Settings/Startup.antt =====
-- The part of fruitchip-fw/src/settings.c that runs at start-up, and a start-up after a setter. The
-- wear_leveling library is a record of its three functions, with what its header promises as laws.
use fruitchip.Common.{
  ℕ, Bool, true, not, List, [], ◌∷◌, ◌++◌, ◌+◌, ◌-◌, ◌<◌, ◌≡◌, ◌==◌, if◌then◌else◌, leb, ltb, ◌&&◌,
  to_ℕ, is_nonzero, bytes16, bytes32, word16, word32, length, get_or, Option, some, none,
}
use fruitchip.Settings.{Settings, StoreWrite, wear_leveling_write, settings_version_magic}

-- `wear_leveling.h`; a result is true unless it is `WEAR_LEVELING_FAILED`. `content` is the byte that
-- the store holds at an address.
pub record Store (S : Type 0) : Type 0 where
  pub init : S → Bool × S
  pub read : ℕ → ℕ → S → List ℕ
  pub write : ℕ → List ℕ → S → Bool × S
  pub content : S → ℕ → ℕ

pub record StoreLaws {S : Type 0} (store : Store S) : Type 0 where
  pub read_content :
      (address count : ℕ) (s : S) (i : ℕ)
      → i < count
      → get_or (store.read address count s) i 0 ≡ store.content s (address + i)
  pub write_content :
      (address : ℕ) (bytes : List ℕ) (s : S) (a : ℕ)
      → (store.write address bytes s).0 ≡ true
      → store.content (store.write address bytes s).1 a ≡ (
          if leb address a && ltb a (address + length bytes)
          then get_or bytes (a - address) 0
          else store.content s a)
  pub init_content :
      (s : S) (a : ℕ)
      → (store.init s).0 ≡ true
      → store.content (store.init s).1 a ≡ store.content s a

-- The bytes of a `settings_t`; the three padding bytes are those that `memset` leaves.
abbrev pub settings_bytes : Settings → List ℕ
settings_bytes s =
    bytes32 s.version_magic
    ++ (to_ℕ s.menu_autoboot
        ∷ 0
        ∷ (bytes16 s.menu_autoboot_delay_sec
            ++ s.menu_autoboot_item_idx ∷ s.menu_osdsys_options ∷ 0 ∷ 0 ∷ []))

-- The record whose bytes these are.
abbrev pub settings_of : List ℕ → Settings
settings_of l = record {
  version_magic = word32 (get_or l 0 0) (get_or l 1 0) (get_or l 2 0) (get_or l 3 0);
  menu_autoboot = is_nonzero (get_or l 4 0);
  menu_autoboot_delay_sec = word16 (get_or l 6 0) (get_or l 7 0);
  menu_autoboot_item_idx = get_or l 8 0;
  menu_osdsys_options = get_or l 9 0;
}

-- What `settings_reset` sets.
abbrev pub default_settings : Settings
default_settings = record {
  version_magic = settings_version_magic;
  menu_autoboot = true;
  menu_autoboot_delay_sec = 10;
  menu_autoboot_item_idx = 0;
  menu_osdsys_options = 0;
}

module _ {S : Type 0} (store : Store S) where
  -- `none` is the panic.
  unfoldable pub settings_reset : S → Option (Settings × S)
  settings_reset s =
      let (ok, t) = store.write 0 (settings_bytes default_settings) s in
      if ok then some (default_settings, t) else none

  -- The part of `settings_init` after the store has been opened.
  unfoldable pub load_settings : S → Option (Settings × S)
  unfolding settings_reset
  load_settings s =
      let settings = settings_of (store.read 0 12 s) in
      if not (settings.version_magic == settings_version_magic)
      then settings_reset s
      else some (settings, s)

  reopen : Option (Settings × S) → Option (Settings × S)
  unfolding load_settings
  reopen none = none
  reopen (some (settings, s)) = let (ok, t) = store.init s in if ok then load_settings t else none

  unfoldable pub settings_init : S → Option (Settings × S)
  unfolding settings_reset load_settings reopen
  settings_init s =
      let (ok, t) = store.init s in if ok then load_settings t else reopen (settings_reset t)

  -- The calls that a setter makes, none of which it looks at.
  abbrev pub store_all : List StoreWrite → S → S
  store_all [] s = s
  store_all (wear_leveling_write address bytes ∷ ws) s =
      store_all ws (store.write address bytes s).1
