-- ===== src/Menu/BootScene.antt =====
-- fruitchip-menu/src/scene/boot_list.c: the scene of the boot list. A handler returns the new state
-- and the calls that it makes, in order. A load that succeeds does not return; what stands behind it
-- is what happens where it fails.
pub mod Run
use fruitchip.Common.{
  ℕ, Bool, true, false, not, ◌&&◌, ◌==◌, List, [], ◌∷◌, ◌++◌, ◌+◌, ◌-◌, if◌then◌else◌, ltb, leb, u8,
  u32, sub32, bit_and, is_nonzero, Option, none, some, get_or,
}
use fruitchip.Modchip.{settings_menu_autoboot_item_idx}
use fruitchip.Host.Apps.{attr_disable_next_osdsys_hook, attr_osdsys}
use fruitchip.Menu.Navigation.{list_len, list_push_item}
use fruitchip.Menu.WideText.{Libc}
use fruitchip.Menu.AppsList.{
  BootList, apps_list_push_item, apps_list_remove_item, apps_list_populate,
  apps_attr_is_configurable, boot_item_osdsys, boot_item_fwfs,
}
use fruitchip.Menu.State.{
  Osdsys, MenuState, Pad, ElfPath, OsdsysArg, MenuCall, disable_next_osdsys_hook,
  load_elf_from_file, settings_set, set_timer_alarm, release_timer_alarm,
  masswatch_set_connect_callback, switch_to_message, switch_to_settings, switch_to_options,
  push_scene,
}

abbrev pub Effect : Type 0
Effect = MenuState × List MenuCall

abbrev pub hilite : MenuState → ℕ
hilite s = s.apps.boot_list.hilite_idx

abbrev pub set_hilite : ℕ → MenuState → MenuState
set_hilite i s = record s {
  apps = record (s.apps) { boot_list = record (s.apps.boot_list) { hilite_idx = i } };
  repaint = true;
}

abbrev pub items_len : MenuState → ℕ
items_len s = list_len s.apps.boot_list

-- The attribute word of an item; mlib asserts against an index out of range, which reads 0 here.
abbrev pub attr_at : MenuState → ℕ → ℕ
attr_at s i = get_or s.apps.boot_list_attr i 0

abbrev pub osdsys_argv : Osdsys → List OsdsysArg
osdsys_argv o =
    (if o.skip_intro then OsdsysArg.boot_clock ∷ [] else [])
    ++ ((if o.boot_browser then OsdsysArg.boot_browser ∷ [] else [])
        ++ ((if o.skip_mc_update then OsdsysArg.skip_mc ∷ [] else [])
            ++ (if o.skip_hdd_update then OsdsysArg.skip_hdd ∷ [] else [])))

unfoldable pub boot_osdsys : MenuState → List MenuCall
boot_osdsys s =
    disable_next_osdsys_hook ∷ load_elf_from_file ElfPath.rom0_osdsys (osdsys_argv s.osdsys) ∷ []

unfoldable pub boot_fwfs : MenuState → List MenuCall
boot_fwfs s =
    let app_idx = u8 (hilite s) in
    let attr = attr_at s app_idx in
    (if is_nonzero (bit_and attr attr_disable_next_osdsys_hook)
      then disable_next_osdsys_hook ∷ []
      else [])
    ++ load_elf_from_file (ElfPath.fwfs app_idx)
        (if is_nonzero (bit_and attr attr_osdsys) then osdsys_argv s.osdsys else [])
      ∷ []

unfoldable pub boot_rescue_elf : List MenuCall
boot_rescue_elf = load_elf_from_file ElfPath.rescue_elf [] ∷ []

-- tick

abbrev pub mass_connected_handler : MenuState → MenuState
mass_connected_handler s = record s { mass_event_received = true }

-- "mass:/RESCUE.ELF".
abbrev pub rescue_text : List ℕ
rescue_text =
    b'm' ∷ b'a' ∷ b's' ∷ b's' ∷ b':' ∷ b'/' ∷ b'R' ∷ b'E' ∷ b'S' ∷ b'C' ∷ b'U' ∷ b'E' ∷ b'.' ∷ b'E'
    ∷ b'L' ∷ b'F' ∷ []

-- The rounds that the model gives the loop which moves the highlight back: one for its step, and one
-- to see that it has ended.
abbrev pub remove_rounds : ℕ
remove_rounds = 2

abbrev pub mass_event_done : MenuState → MenuState
mass_event_done s = record s { mass_event_received = false; repaint = true }

unfoldable pub add_rescue_elf : MenuState → MenuState
add_rescue_elf s = record s {
  apps = apps_list_push_item s.apps rescue_text attr_disable_next_osdsys_hook;
  rescue_item_idx = (list_push_item s.apps.boot_list rescue_text).0;
}

unfoldable pub remove_rescue_elf : MenuState → Option MenuState
remove_rescue_elf s = removed (apps_list_remove_item remove_rounds s.apps s.rescue_item_idx)
  where
    removed : Option BootList → Option MenuState
    removed none = none
    removed (some apps) = some (mass_event_done (record s { apps = apps; rescue_item_idx = 0 }))

-- `opened` is whether the file could be opened.
unfoldable pub add_or_remove_rescue_elf : Bool → MenuState → Option MenuState
add_or_remove_rescue_elf opened s =
    if opened
    then some (mass_event_done (add_rescue_elf s))
    else if is_nonzero s.rescue_item_idx
    then remove_rescue_elf s
    else some (mass_event_done s)

unfoldable pub scene_tick_handler_boot_list : Bool → MenuState → Option MenuState
scene_tick_handler_boot_list opened s =
    if s.mass_event_received then add_or_remove_rescue_elf opened s else some s

-- input

unfoldable pub boot_hilited_item : MenuState → List MenuCall
boot_hilited_item s =
    if hilite s == boot_item_osdsys
    then boot_osdsys s
    else if hilite s == s.rescue_item_idx
    then boot_rescue_elf
    else if leb boot_item_fwfs (hilite s)
    then boot_fwfs s
    else []

abbrev pub is_autoboot_item_hilited : MenuState → Bool
is_autoboot_item_hilited s = hilite s == s.autoboot_item_idx

abbrev pub is_rescue_elf_hilited : MenuState → Bool
is_rescue_elf_hilited s =
    if is_nonzero s.rescue_item_idx then hilite s == s.rescue_item_idx else false

unfoldable pub is_hilite_autobootable : MenuState → Bool
is_hilite_autobootable s =
    if is_autoboot_item_hilited s then false else not (is_rescue_elf_hilited s)

-- `stored` is what `modchip_settings_set` returns.
unfoldable pub set_autoboot_item_idx : Bool → MenuState → Effect
set_autoboot_item_idx stored s =
    if is_hilite_autobootable s
    then if stored
      then (
        record s { autoboot_item_idx = hilite s; repaint = true },
        settings_set settings_menu_autoboot_item_idx (hilite s) ∷ [],
      )
      else (
        record s { repaint = true },
        settings_set settings_menu_autoboot_item_idx (hilite s) ∷ switch_to_message ∷ [],
      )
    else (s, [])

abbrev pub stop_countdown : MenuState → MenuState
stop_countdown s =
    if s.autoboot_countdown then record s { autoboot_countdown = false; repaint = true } else s

abbrev pub hilite_up : MenuState → MenuState
hilite_up s =
    if hilite s == 0 then set_hilite (sub32 (items_len s) 1) s else set_hilite (hilite s - 1) s

abbrev pub hilite_down : MenuState → MenuState
hilite_down s =
    let next = u32 (hilite s + 1) in
    if ltb (sub32 (items_len s) 1) next then set_hilite 0 s else set_hilite next s

unfoldable pub open_options : MenuState → Effect
open_options s =
    let app_idx = u8 (hilite s) in
    if apps_attr_is_configurable (attr_at s app_idx)
    then (record s { repaint = true }, switch_to_options app_idx ∷ [])
    else (s, [])

-- What follows the end of the countdown.
unfoldable pub handle_buttons : Bool → Pad → MenuState → Effect
handle_buttons stored input s =
    if input.up
    then (hilite_up s, [])
    else if input.down
    then (hilite_down s, [])
    else if input.cross
    then (record s { repaint = true }, boot_hilited_item s)
    else if input.triangle
    then open_options s
    else if input.square
    then set_autoboot_item_idx stored s
    else if input.start
    then (record s { repaint = true }, switch_to_settings ∷ [])
    else (s, [])

unfoldable pub scene_input_handler_boot_list : Bool → Pad → MenuState → Effect
scene_input_handler_boot_list stored input s = handle_buttons stored input (stop_countdown s)

-- paint

unfoldable pub handle_autoboot_countdown : MenuState → List MenuCall
handle_autoboot_countdown s =
    if s.autoboot_countdown
    then if is_nonzero s.autoboot_countdown_sec then [] else boot_hilited_item s
    else []

-- Whether the guide shows a text for a button.
pub record ButtonGuide : Type 0 where
  pub cross : Bool
  pub start : Bool
  pub triangle : Bool
  pub square : Bool

unfoldable pub draw_button_guide : MenuState → ButtonGuide
draw_button_guide s = record {
  cross = true;
  start = true;
  triangle = apps_attr_is_configurable (attr_at s (u8 (hilite s)));
  square = is_hilite_autobootable s;
}

-- The alarm of the countdown; `alarm` is what `iSetTimerAlarm` returns.
unfoldable pub update_autoboot_countdown : ℕ → MenuState → Effect
update_autoboot_countdown alarm s =
    let sec =
      if is_nonzero s.autoboot_countdown_sec
      then s.autoboot_countdown_sec - 1
      else s.autoboot_countdown_sec in
    if s.autoboot_countdown && is_nonzero sec
    then (
      record s {
        autoboot_countdown_sec = sec;
        autoboot_countdown_alarm = some alarm;
        repaint = true;
      },
      release_timer_alarm s.autoboot_countdown_alarm ∷ set_timer_alarm ∷ [],
    )
    else (
      record s { autoboot_countdown_sec = sec; autoboot_countdown_alarm = none; repaint = true },
      release_timer_alarm s.autoboot_countdown_alarm ∷ [],
    )

-- What follows `apps_list_populate`, which returned `ret`.
unfoldable pub start_countdown : Bool → ℕ → MenuState → Effect
start_countdown ret alarm s =
    if ret && s.autoboot
    then (
      record s {
        autoboot_countdown = true;
        autoboot_countdown_sec = s.autoboot_delay_sec;
        autoboot_countdown_alarm = some alarm;
        repaint = true;
      },
      set_timer_alarm ∷ [],
    )
    else (record s { repaint = true }, (if ret then [] else switch_to_message ∷ []))

-- The arguments but the last two are those of `apps_list_populate`.
unfoldable pub scene_switch_to_boot_list :
    Libc → (ℕ → ℕ) → Bool × ℕ → Option (List ℕ) → ℕ → MenuState → Option Effect
scene_switch_to_boot_list libc attr_of setting index alarm s =
    switched (apps_list_populate libc attr_of setting index)
  where
    switched : Option (Bool × BootList) → Option Effect
    switched none = none
    switched (some (ret, apps)) =
        let t = record s {
          apps = apps;
          autoboot_item_idx = if ret then setting.1 else s.autoboot_item_idx;
        } in
        let (u, calls) = start_countdown ret alarm t in
        some (u, masswatch_set_connect_callback ∷ push_scene ∷ calls)
