-- ===== src/Menu/OptionsScene.antt =====
-- fruitchip-menu/src/scene/boot_options.c: the scene with the options of the system's own menu. The
-- statics of the file and the fields of the menu's state that it uses are one record.
pub mod Consistent
use fruitchip.Common.{
  ℕ, zero, suc, Bool, true, false, not, ◌==◌, List, [], ◌∷◌, ◌++◌, if◌then◌else◌, bit_and,
  is_nonzero,
}
use fruitchip.Modchip.{settings_menu_osdsys_settings}
use fruitchip.Host.Apps.{attr_osdsys}
use fruitchip.Menu.Navigation.{ListState, list_push_item, list_handle_input, list_clear}
use fruitchip.Menu.AppsList.{max_list_items_on_screen}
use fruitchip.Menu.State.{
  Osdsys, osdsys_value, Pad, MenuCall, settings_get, settings_set, push_scene, pop_scene,
}

-- The left text of an item by name, and whether its right one is `ON` or `OFF`.
pub data OptionLabel : Type 0 where
  skip_opening boot_into_browser skip_memory_card_update skip_hard_drive_update : OptionLabel

abbrev pub OptionItem : Type 0
OptionItem = OptionLabel × Bool

-- `struct scene_state`, with the value of `settings`; then the menu's state.
pub record OptionsScene : Type 0 where
  pub list : ListState OptionItem
  pub settings : ℕ
  pub item_idx_osdsys_skip_intro : ℕ
  pub item_idx_osdsys_boot_browser : ℕ
  pub item_idx_osdsys_skip_mc : ℕ
  pub item_idx_osdsys_skip_hdd : ℕ
  pub osdsys : Osdsys
  pub repaint : Bool

abbrev pub OptionsEffect : Type 0
OptionsEffect = OptionsScene × List MenuCall

-- The right text of an item is replaced.
abbrev pub set_shown : ℕ → Bool → List OptionItem → List OptionItem
set_shown i value [] = []
set_shown zero value (item ∷ items) = (item.0, value) ∷ items
set_shown (suc i) value (item ∷ items) = item ∷ set_shown i value items

abbrev pub show_option : ℕ → Bool → OptionsScene → OptionsScene
show_option i value s = record s {
  list = record (s.list) { items = set_shown i value s.list.items };
}

-- `pop_scene`.
unfoldable pub leave_options : OptionsScene → OptionsEffect
leave_options s = (
  record s { list = list_clear s.list; repaint = true },
  (if s.settings == osdsys_value s.osdsys
        then []
        else settings_set settings_menu_osdsys_settings (osdsys_value s.osdsys) ∷ [])
      ++ pop_scene ∷ [],
)

-- The highlighted item shows the option's new value.
abbrev pub show_hilite : Bool → OptionsScene → OptionsScene
show_hilite value s = record (show_option s.list.hilite_idx value s) { repaint = true }

abbrev pub toggle_skip_intro : OptionsScene → OptionsScene
toggle_skip_intro s =
    let value = not s.osdsys.skip_intro in
    let t = record s { osdsys = record (s.osdsys) { skip_intro = value } } in
    show_hilite value (
      if value
      then show_option s.item_idx_osdsys_boot_browser false
          (record t { osdsys = record (t.osdsys) { boot_browser = false } })
      else t)

abbrev pub toggle_boot_browser : OptionsScene → OptionsScene
toggle_boot_browser s =
    let value = not s.osdsys.boot_browser in
    let t = record s { osdsys = record (s.osdsys) { boot_browser = value } } in
    show_hilite value (
      if value
      then show_option s.item_idx_osdsys_skip_intro false
          (record t { osdsys = record (t.osdsys) { skip_intro = false } })
      else t)

abbrev pub toggle_skip_mc : OptionsScene → OptionsScene
toggle_skip_mc s =
    let value = not s.osdsys.skip_mc_update in
    show_hilite value (record s { osdsys = record (s.osdsys) { skip_mc_update = value } })

abbrev pub toggle_skip_hdd : OptionsScene → OptionsScene
toggle_skip_hdd s =
    let value = not s.osdsys.skip_hdd_update in
    show_hilite value (record s { osdsys = record (s.osdsys) { skip_hdd_update = value } })

unfoldable pub handle_toggle_option : OptionsScene → OptionsScene
handle_toggle_option s =
    if s.list.hilite_idx == s.item_idx_osdsys_skip_intro
    then toggle_skip_intro s
    else if s.list.hilite_idx == s.item_idx_osdsys_boot_browser
    then toggle_boot_browser s
    else if s.list.hilite_idx == s.item_idx_osdsys_skip_mc
    then toggle_skip_mc s
    else if s.list.hilite_idx == s.item_idx_osdsys_skip_hdd
    then toggle_skip_hdd s
    else s

unfoldable pub scene_input_handler_options : Pad → OptionsScene → OptionsEffect
scene_input_handler_options input s =
    let (handled, list) = list_handle_input input.up input.down s.list in
    if handled
    then (record s { list = list; repaint = true }, [])
    else if input.circle
    then leave_options s
    else if input.cross
    then (handle_toggle_option s, [])
    else (s, [])

-- The pushes of the items: an item, and its index.
abbrev pub push_option : OptionLabel → Bool → ListState OptionItem → ℕ × ListState OptionItem
push_option label value list = list_push_item list (label, value)

abbrev pub push_options : OptionsScene → OptionsScene
push_options s =
    let (skip_intro, one) = push_option OptionLabel.skip_opening s.osdsys.skip_intro s.list in
    let (boot_browser, two) = push_option OptionLabel.boot_into_browser s.osdsys.boot_browser one in
    let (skip_mc, three) =
      push_option OptionLabel.skip_memory_card_update s.osdsys.skip_mc_update two in
    let (skip_hdd, four) =
      push_option OptionLabel.skip_hard_drive_update s.osdsys.skip_hdd_update three in
    record s {
      list = four;
      item_idx_osdsys_skip_intro = skip_intro;
      item_idx_osdsys_boot_browser = boot_browser;
      item_idx_osdsys_skip_mc = skip_mc;
      item_idx_osdsys_skip_hdd = skip_hdd;
    }

-- `attr` is the app's attribute word, and `osdsys` what is in the state after
-- `modchip_settings_get_with_retry`.
unfoldable pub scene_switch_to_options : ℕ → Osdsys → OptionsScene → OptionsEffect
scene_switch_to_options attr osdsys s =
    let empty = record s {
      list = record {
        items = [];
        hilite_idx = 0;
        start_item_idx = 0;
        max_items = max_list_items_on_screen;
      };
      settings = osdsys_value osdsys;
      osdsys = osdsys;
      repaint = true;
    } in
    (
      (if is_nonzero (bit_and attr attr_osdsys) then push_options empty else empty),
      settings_get settings_menu_osdsys_settings ∷ push_scene ∷ [],
    )
