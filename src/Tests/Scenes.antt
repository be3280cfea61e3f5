-- ===== src/Tests/Scenes.antt =====
-- The scenes of the menu on small lists.
use fruitchip.Common.{true, false, List, [], ◌∷◌, ◌≡◌, inr, refl, arith, ◌+◌, some}
use fruitchip.Menu.State.{MenuState, Pad, MenuCall, Osdsys}
use fruitchip.Menu.AppsList.{osdsys_text}
use fruitchip.Menu.BootScene.{rescue_text, start_countdown}
use fruitchip.Menu.BootScene.Run.{Event, run}
use fruitchip.Menu.BootScene.Run.Invariant.{IsWellFormed, run-IsWellFormed}
use fruitchip.Menu.BootScene.Run.Countdown.{loads, run-cross_pressed}
use fruitchip.Menu.BootScene.Run.Delay.{alarms, start_countdown-alarms}
use fruitchip.Menu.BootScene.Run.Rescue.{tick-tick}
use fruitchip.Menu.SettingsScene.{SettingsScene, scene_switch_to_settings}
use fruitchip.Menu.SettingsScene.Consistent.{
  Stored, run_settings, run_settings-IsConsistent, scene_switch_to_settings-IsConsistent,
}
use fruitchip.Menu.OptionsScene.{OptionsScene, scene_switch_to_options}
use fruitchip.Menu.OptionsScene.Consistent.{
  run_options, run_options-IsConsistent, scene_switch_to_options-IsConsistent,
}
use fruitchip.Menu.SettingsScene.Consistent as Settings
use fruitchip.Menu.OptionsScene.Consistent as Options

abbrev no_options : Osdsys
no_options = record {
  skip_intro = false;
  boot_browser = false;
  skip_mc_update = false;
  skip_hdd_update = false;
  unused = 0;
}

-- The system's menu and the rescue program, which is highlighted; a countdown of three seconds.
abbrev menu : MenuState
menu = record {
  repaint = true;
  apps = record {
    boot_list = record {
      items = osdsys_text ∷ rescue_text ∷ [];
      hilite_idx = 1;
      start_item_idx = 0;
      max_items = 10;
    };
    boot_list_attr = 3 ∷ 1 ∷ [];
  };
  mass_event_received = true;
  rescue_item_idx = 1;
  autoboot = true;
  autoboot_item_idx = 0;
  autoboot_delay_sec = 3;
  autoboot_countdown = true;
  autoboot_countdown_sec = 2;
  autoboot_countdown_alarm = some 7;
  osdsys = no_options;
}

abbrev released : Pad
released = record {
  up = false;
  down = false;
  left = false;
  right = false;
  cross = false;
  circle = false;
  triangle = false;
  square = false;
  start = false;
}

menu-IsWellFormed : IsWellFormed menu
menu-IsWellFormed = record { paired = refl; inside = omega arith; rescue = inr refl }

-- Up, the file gone, and an alarm.
abbrev events : List Event
events =
    Event.input true (record released { up = true })
    ∷ Event.tick false
    ∷ Event.alarm 8
    ∷ Event.paint
    ∷ []

run-IsWellFormed_example :
    (t : MenuState) × (calls : List MenuCall) × (run events menu ≡ some (t, calls)) × IsWellFormed t
run-IsWellFormed_example = run-IsWellFormed events menu menu-IsWellFormed (omega arith)

run-cross_pressed_example :
    (u : MenuState) × (calls : List MenuCall) × (run
        (Event.input true (record released { down = true }) ∷ events)
        menu
      ≡ some (u, calls))
    × (u.autoboot_countdown ≡ false)
    × (loads calls ≡ false)
run-cross_pressed_example =
    run-cross_pressed true (record released { down = true }) events menu menu-IsWellFormed
      (omega arith) refl refl

start_countdown-alarms_example :
    (t : MenuState) × (calls : List MenuCall) × (run
        (alarms (4 ∷ 5 ∷ 6 ∷ []))
        (start_countdown true 3 menu).0
      ≡ some (t, calls))
    × (t.autoboot_countdown_sec + 3 ≡ 3)
    × (loads calls ≡ true)
start_countdown-alarms_example = start_countdown-alarms menu 3 (4 ∷ 5 ∷ 6 ∷ []) refl (omega arith)

-- The list has the item of the rescue program already, and keeps it when the file is gone.
tick-tick_example :
    run (Event.tick true ∷ Event.mass_event ∷ Event.tick false ∷ []) menu
    ≡ some (record menu { rescue_item_idx = 0; mass_event_received = false; repaint = true }, [])
tick-tick_example = tick-tick menu menu-IsWellFormed refl

abbrev settings : SettingsScene
settings = record {
  list = record { items = []; hilite_idx = 0; start_item_idx = 0; max_items = 10 };
  adjusting_autoboot_delay = false;
  needs_saving_autoboot = false;
  needs_saving_autoboot_delay = false;
  autoboot = true;
  autoboot_delay_sec = 5;
  repaint = false;
}

abbrev has_settings : Stored
has_settings = record { autoboot = 1; autoboot_delay = 5 }

-- To the delay, ten less, done, back.
abbrev inputs : List Pad
inputs =
    record released { down = true }
    ∷ record released { cross = true }
    ∷ record released { left = true }
    ∷ record released { circle = true }
    ∷ record released { circle = true }
    ∷ []

run_settings-IsConsistent_example :
    Settings.IsConsistent has_settings
      (run_settings (λ k. true) inputs (scene_switch_to_settings settings).0)
run_settings-IsConsistent_example =
    run_settings-IsConsistent inputs has_settings (scene_switch_to_settings settings).0 (
      scene_switch_to_settings-IsConsistent has_settings settings refl refl
        (omega arith, omega arith) refl refl refl refl)

abbrev options : OptionsScene
options = record {
  list = record { items = []; hilite_idx = 0; start_item_idx = 0; max_items = 10 };
  settings = 0;
  item_idx_osdsys_skip_intro = 0;
  item_idx_osdsys_boot_browser = 0;
  item_idx_osdsys_skip_mc = 0;
  item_idx_osdsys_skip_hdd = 0;
  osdsys = no_options;
  repaint = false;
}

run_options-IsConsistent_example :
    Options.IsConsistent 0 (run_options inputs (scene_switch_to_options 2 no_options options).0)
run_options-IsConsistent_example =
    run_options-IsConsistent inputs 0 (scene_switch_to_options 2 no_options options).0
      (scene_switch_to_options-IsConsistent 2 no_options options refl refl)
