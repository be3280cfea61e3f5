-- ===== src/Menu/SettingsScene.antt =====
-- fruitchip-menu/src/scene/settings.c: the scene in which autoboot and its delay are set. The statics
-- of the file and the fields of the menu's state that it uses are one record.
pub mod Delay
pub mod Consistent
use fruitchip.Common.{
  ℕ, zero, suc, Bool, true, false, not, ◌&&◌, ◌||◌, ◌==◌, List, [], ◌∷◌, ◌++◌, ◌+◌, ◌-◌,
  if◌then◌else◌, ltb, u32, sub32, to_ℕ,
}
use fruitchip.Modchip.{settings_menu_autoboot, settings_menu_autoboot_delay}
use fruitchip.Menu.Navigation.{ListState, list_push_item, list_handle_input, list_clear}
use fruitchip.Menu.State.{
  Pad, MenuCall, settings_set, switch_to_message, switch_to_about, push_scene, pop_scene,
}

abbrev pub item_idx_autoboot : ℕ
item_idx_autoboot = 0

abbrev pub item_idx_autoboot_delay : ℕ
item_idx_autoboot_delay = 1

abbrev pub item_idx_about : ℕ
item_idx_about = 2

abbrev pub autoboot_delay_min : ℕ
autoboot_delay_min = 1

abbrev pub autoboot_delay_max : ℕ
autoboot_delay_max = 90

abbrev pub autoboot_delay_step_small : ℕ
autoboot_delay_step_small = 1

abbrev pub autoboot_delay_step_big : ℕ
autoboot_delay_step_big = 10

-- The texts of an item: its left one by name, its right one by what it shows.
pub data Label : Type 0 where
  autoboot_item autoboot_delay_item about_item : Label

pub data Shown : Type 0 where
  nothing arrow : Shown
  on_off : Bool → Shown
  seconds : ℕ → Shown

abbrev pub Item : Type 0
Item = Label × Shown

pub record SettingsScene : Type 0 where
  pub list : ListState Item
  pub adjusting_autoboot_delay : Bool
  pub needs_saving_autoboot : Bool
  pub needs_saving_autoboot_delay : Bool
  pub autoboot : Bool
  pub autoboot_delay_sec : ℕ
  pub repaint : Bool

abbrev pub SceneEffect : Type 0
SceneEffect = SettingsScene × List MenuCall

-- The calls of `save_settings`: `stored` says for a key what `modchip_settings_set` returns.
abbrev pub save_calls : (ℕ → Bool) → Bool → Bool → ℕ → ℕ → List MenuCall
save_calls stored needs_autoboot needs_delay autoboot delay =
    (if needs_autoboot then settings_set settings_menu_autoboot autoboot ∷ [] else [])
    ++ ((if needs_delay then settings_set settings_menu_autoboot_delay delay ∷ [] else [])
        ++ (if (needs_autoboot && not (stored settings_menu_autoboot))
              || (needs_delay && not (stored settings_menu_autoboot_delay))
            then switch_to_message ∷ []
            else []))

unfoldable pub save_settings : (ℕ → Bool) → SettingsScene → SceneEffect
save_settings stored s = (
  record s { needs_saving_autoboot = false; needs_saving_autoboot_delay = false },
  save_calls stored s.needs_saving_autoboot s.needs_saving_autoboot_delay (to_ℕ s.autoboot)
      s.autoboot_delay_sec,
)

-- The right text of an item is replaced.
abbrev pub set_right : ℕ → Shown → List Item → List Item
set_right i text [] = []
set_right zero text (item ∷ items) = (item.0, text) ∷ items
set_right (suc i) text (item ∷ items) = item ∷ set_right i text items

abbrev pub set_items : List Item → SettingsScene → SettingsScene
set_items items s = record s { list = record (s.list) { items = items } }

abbrev pub update_autoboot_text : SettingsScene → SettingsScene
update_autoboot_text s =
    set_items (set_right item_idx_autoboot (Shown.on_off s.autoboot) s.list.items) s

abbrev pub update_autoboot_delay_text : SettingsScene → SettingsScene
update_autoboot_delay_text s =
    set_items (set_right item_idx_autoboot_delay (Shown.seconds s.autoboot_delay_sec) s.list.items)
      s

-- The four changes of the delay.
abbrev pub clamp_delay : ℕ → ℕ
clamp_delay sec =
    if ltb autoboot_delay_max sec
    then autoboot_delay_max
    else if ltb sec autoboot_delay_min
    then autoboot_delay_min
    else sec

unfoldable pub add_delay : ℕ → ℕ → ℕ
add_delay by sec =
    if ltb autoboot_delay_max (u32 (sec + by)) then autoboot_delay_min else u32 (sec + by)

unfoldable pub subtract_delay : ℕ → ℕ → ℕ
subtract_delay by sec =
    clamp_delay (if ltb (sub32 sec by) autoboot_delay_min then autoboot_delay_max else sub32 sec by)

abbrev pub set_delay : ℕ → SettingsScene → SceneEffect
set_delay sec s = (
  update_autoboot_delay_text
      (record s { autoboot_delay_sec = sec; needs_saving_autoboot_delay = true; repaint = true }),
  [],
)

abbrev pub painted : SceneEffect → SceneEffect
painted r = (record (r.0) { repaint = true }, r.1)

unfoldable pub adjust : (ℕ → Bool) → Pad → SettingsScene → SceneEffect
adjust stored input s =
    if input.up
    then set_delay (add_delay autoboot_delay_step_small s.autoboot_delay_sec) s
    else if input.down
    then set_delay (subtract_delay autoboot_delay_step_small s.autoboot_delay_sec) s
    else if input.right
    then set_delay (add_delay autoboot_delay_step_big s.autoboot_delay_sec) s
    else if input.left
    then set_delay (subtract_delay autoboot_delay_step_big s.autoboot_delay_sec) s
    else if input.circle
    then painted (save_settings stored (record s { adjusting_autoboot_delay = false }))
    else (s, [])

abbrev pub toggle_autoboot : (ℕ → Bool) → SettingsScene → SceneEffect
toggle_autoboot stored s =
    let saved =
      save_settings stored (record s { autoboot = not s.autoboot; needs_saving_autoboot = true }) in
    painted (update_autoboot_text saved.0, saved.1)

-- The cross button on the highlighted item.
unfoldable pub choose_item : (ℕ → Bool) → SettingsScene → SceneEffect
choose_item stored s =
    if s.list.hilite_idx == item_idx_autoboot
    then toggle_autoboot stored s
    else if s.list.hilite_idx == item_idx_autoboot_delay
    then (
      record s { adjusting_autoboot_delay = not s.adjusting_autoboot_delay; repaint = true },
      [],
    )
    else if s.list.hilite_idx == item_idx_about
    then (record s { repaint = true }, switch_to_about ∷ [])
    else (s, [])

unfoldable pub leave_settings : SettingsScene → SceneEffect
leave_settings s = (record s { list = list_clear s.list; repaint = true }, pop_scene ∷ [])

unfoldable pub browse : (ℕ → Bool) → Pad → SettingsScene → SceneEffect
browse stored input s =
    let (handled, list) = list_handle_input input.up input.down s.list in
    if handled
    then (record s { list = list; repaint = true }, [])
    else if input.circle
    then leave_settings s
    else if input.cross
    then choose_item stored s
    else (s, [])

unfoldable pub scene_input_handler_settings : (ℕ → Bool) → Pad → SettingsScene → SceneEffect
scene_input_handler_settings stored input s =
    if s.adjusting_autoboot_delay then adjust stored input s else browse stored input s

-- The items that are pushed, each with its right text in place.
unfoldable pub scene_switch_to_settings : SettingsScene → SceneEffect
scene_switch_to_settings s =
    let empty = set_items [] s in
    let one = pushed (Label.autoboot_item, Shown.nothing) empty in
    let two = pushed (Label.autoboot_delay_item, Shown.nothing) (update_autoboot_text one) in
    let three = pushed (Label.about_item, Shown.arrow) (update_autoboot_delay_text two) in
    (three, push_scene ∷ [])
  where
    pushed : Item → SettingsScene → SettingsScene
    pushed item t = record t { list = (list_push_item t.list item).1 }
