-- ===== src/Settings.antt =====
-- fruitchip-fw/src/settings.c: the settings record, its setters and what they store. The store
-- below them, wear_leveling, is a vendored library: the setters list the calls that they make of
-- it, and `Startup` takes it as an interface.
pub mod Startup
pub mod Restart
pub mod Durable
use fruitchip.Common.{ℕ, Bool, true, false, List, [], ◌∷◌, ◌==◌, if◌then◌else◌, to_ℕ, u8, bytes16}

-- `SETTINGS_VERSION_MAGIC`.
abbrev pub settings_version_magic : ℕ
settings_version_magic = 0x73de0002

-- `settings_t`, 12 bytes: the magic at 0, then fields at 4, 6, 8 and 9.
pub record Settings : Type 0 where
  pub version_magic : ℕ
  pub menu_autoboot : Bool
  pub menu_autoboot_delay_sec : ℕ
  pub menu_autoboot_item_idx : ℕ
  pub menu_osdsys_options : ℕ

-- A call of `wear_leveling_write(address, value, length)`.
pub data StoreWrite : Type 0 where
  wear_leveling_write : ℕ → List ℕ → StoreWrite

-- `settings_update_part`: the field's address within the record, and its bytes. The lockout of
-- the other core around the call changes no data.
unfoldable pub settings_update_part : ℕ → List ℕ → List StoreWrite
settings_update_part address bytes = wear_leveling_write address bytes ∷ []

abbrev pub same_bool : Bool → Bool → Bool
same_bool true b = b
same_bool false true = false
same_bool false false = true

unfoldable pub settings_set_menu_autoboot : Bool → Settings → Settings × List StoreWrite
unfolding settings_update_part
settings_set_menu_autoboot menu_autoboot s =
    if same_bool s.menu_autoboot menu_autoboot then (s, []) else (
      record s { menu_autoboot = menu_autoboot },
      settings_update_part 4 (to_ℕ menu_autoboot ∷ []),
    )

unfoldable pub settings_set_menu_autoboot_delay_sec : ℕ → Settings → Settings × List StoreWrite
unfolding settings_update_part
settings_set_menu_autoboot_delay_sec delay s =
    if s.menu_autoboot_delay_sec == delay
    then (s, [])
    else (record s { menu_autoboot_delay_sec = delay }, settings_update_part 6 (bytes16 delay))

-- The argument is a `uint16_t` and the field a `uint8_t`, so the assignment truncates.
unfoldable pub settings_set_menu_autoboot_item_idx : ℕ → Settings → Settings × List StoreWrite
unfolding settings_update_part
settings_set_menu_autoboot_item_idx idx s =
    if s.menu_autoboot_item_idx == idx
    then (s, [])
    else (record s { menu_autoboot_item_idx = u8 idx }, settings_update_part 8 (u8 idx ∷ []))

unfoldable pub settings_set_menu_osdsys_options : ℕ → Settings → Settings × List StoreWrite
unfolding settings_update_part
settings_set_menu_osdsys_options options s =
    if s.menu_osdsys_options == options
    then (s, [])
    else (record s { menu_osdsys_options = options }, settings_update_part 9 (options ∷ []))
