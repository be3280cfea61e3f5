-- ===== src/Menu/BootScene/Run.antt =====
-- The boot scene as the one on top: its handlers, called in any order by the main loop of
-- fruitchip-menu/src/main.c, by the alarm and by masswatch. A paint is that of
-- fruitchip-menu/src/scene/superscene.c.
pub mod Invariant
pub mod Countdown
pub mod Delay
pub mod Rescue
pub mod Start
use fruitchip.Common.{
  ℕ, Bool, true, false, ◌||◌, List, [], ◌∷◌, ◌++◌, if◌then◌else◌, ◌≡◌, refl, Option, none, some,
}
use fruitchip.Menu.State.{MenuState, Pad, MenuCall, load_elf_from_file}
use fruitchip.Menu.BootScene.{
  Effect, mass_connected_handler, scene_tick_handler_boot_list, scene_input_handler_boot_list,
  handle_autoboot_countdown, update_autoboot_countdown,
}

-- An input with what storing a setting would return, a tick with whether the file would open, the
-- alarm with the number of the next one.
pub data Event : Type 0 where
  input : Bool → Pad → Event
  tick : Bool → Event
  alarm : ℕ → Event
  mass_event paint : Event

unfoldable pub scene_paint : MenuState → Effect
scene_paint s =
    if s.repaint
    then (record s { repaint = false }, handle_autoboot_countdown (record s { repaint = false }))
    else (s, [])

abbrev pub no_calls : Option MenuState → Option Effect
no_calls none = none
no_calls (some s) = some (s, [])

unfoldable pub step : Event → MenuState → Option Effect
step (Event.input stored pad) s = some (scene_input_handler_boot_list stored pad s)
step (Event.tick opened) s = no_calls (scene_tick_handler_boot_list opened s)
step (Event.alarm id) s = some (update_autoboot_countdown id s)
step Event.mass_event s = some (mass_connected_handler s, [])
step Event.paint s = some (scene_paint s)

abbrev pub prepend : List MenuCall → Option Effect → Option Effect
prepend calls none = none
prepend calls (some e) = some (e.0, calls ++ e.1)

-- A step and then the rest, with the calls of the step first.
abbrev pub followed_by : Option Effect → (MenuState → Option Effect) → Option Effect
followed_by none rest = none
followed_by (some (t, calls)) rest = prepend calls (rest t)

unfoldable pub run : List Event → MenuState → Option Effect
run [] s = some (s, [])
run (e ∷ es) s = followed_by (step e s) (λ t. run es t)

pub run-step :
    (e : Event) (es : List Event) (s t u : MenuState) (calls more : List MenuCall)
    → step e s ≡ some (t, calls)
    → run es t ≡ some (u, more)
    → run (e ∷ es) s ≡ some (u, calls ++ more)
unfolding run
run-step e es s t u calls more h h' = rw (h, h') refl
