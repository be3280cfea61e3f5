-- ===== src/Menu/State.antt =====
-- fruitchip-menu/include/state.h: what the scenes of the menu share, the buttons that they test, and
-- the calls that they make of the console's libraries, of the modchip and of each other.
use fruitchip.Common.{ℕ, Bool, List, ◌+◌, ◌*◌, to_ℕ, Option}
use fruitchip.Menu.AppsList.{BootList}

-- `union osdsys_settings`; `unused` is the rest of `value`.
pub record Osdsys : Type 0 where
  pub skip_intro : Bool
  pub boot_browser : Bool
  pub skip_mc_update : Bool
  pub skip_hdd_update : Bool
  pub unused : ℕ

abbrev pub osdsys_value : Osdsys → ℕ
osdsys_value o =
    to_ℕ o.skip_intro
    + 2 * to_ℕ o.boot_browser
    + 4 * to_ℕ o.skip_mc_update
    + 8 * to_ℕ o.skip_hdd_update
    + 16 * o.unused

-- `struct state`. The alarm `none` is -1.
pub record MenuState : Type 0 where
  pub repaint : Bool
  pub apps : BootList
  pub mass_event_received : Bool
  pub rescue_item_idx : ℕ
  pub autoboot : Bool
  pub autoboot_item_idx : ℕ
  pub autoboot_delay_sec : ℕ
  pub autoboot_countdown : Bool
  pub autoboot_countdown_sec : ℕ
  pub autoboot_countdown_alarm : Option ℕ
  pub osdsys : Osdsys

-- The bits of an input.
pub record Pad : Type 0 where
  pub up : Bool
  pub down : Bool
  pub left : Bool
  pub right : Bool
  pub cross : Bool
  pub circle : Bool
  pub triangle : Bool
  pub square : Bool
  pub start : Bool

-- The paths that are loaded, and the arguments.
pub data ElfPath : Type 0 where
  rom0_osdsys rescue_elf : ElfPath
  fwfs : ℕ → ElfPath

pub data OsdsysArg : Type 0 where
  boot_clock boot_browser skip_mc skip_hdd : OsdsysArg

pub data MenuCall : Type 0 where
  disable_next_osdsys_hook : MenuCall
  load_elf_from_file : ElfPath → List OsdsysArg → MenuCall
  settings_set : ℕ → ℕ → MenuCall
  settings_get : ℕ → MenuCall
  set_timer_alarm : MenuCall
  release_timer_alarm : Option ℕ → MenuCall
  masswatch_set_connect_callback : MenuCall
  switch_to_message switch_to_settings switch_to_about : MenuCall
  switch_to_options : ℕ → MenuCall
  push_scene pop_scene : MenuCall
