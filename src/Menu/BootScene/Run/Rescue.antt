-- ===== src/Menu/BootScene/Run/Rescue.antt =====
-- The item of the rescue program comes and goes with the file.
use fruitchip.Common.{
  ℕ, true, false, List, [], ◌∷◌, ◌++◌, ◌≡◌, refl, sym, arith, ap, ◌∙◌, leb, is_nonzero, Option,
  some, length, if-cases,
}
use fruitchip.Host.Apps.{attr_disable_next_osdsys_hook}
use fruitchip.Menu.Navigation.{ListState, list_push_item, list_remove_item, move_back, remove_at}
use fruitchip.Menu.AppsList.{apps_list_push_item, apps_list_remove_item}
use fruitchip.Menu.State.{MenuState}
use fruitchip.Menu.BootScene.{
  hilite, items_len, scene_tick_handler_boot_list, add_or_remove_rescue_elf, add_rescue_elf,
  remove_rescue_elf, mass_event_done, mass_connected_handler, rescue_text, remove_rounds,
}
use fruitchip.Menu.BootScene.Run.{Event, step, run, run-step, no_calls}
use fruitchip.Menu.BootScene.Run.Invariant.{IsWellFormed}

remove_at-length : {A : Type 0} (x : A) (xs : List A) → remove_at (length xs) (xs ++ x ∷ []) ≡ xs
remove_at-length x [] = refl
remove_at-length x (y ∷ xs) = ap (λ l. y ∷ l) (remove_at-length x xs)

run_nothing : (s : MenuState) → run [] s ≡ some (s, [])
unfolding run
run_nothing s = refl

module _ (s : MenuState) (w : IsWellFormed s) where
  -- The state after the file has been opened, and after the next event of a device.
  abbrev added : MenuState
  added = mass_event_done (add_rescue_elf s)

  abbrev restored : MenuState
  restored = record s { rescue_item_idx = 0; mass_event_received = false; repaint = true }

  opened_step : s.mass_event_received ≡ true → scene_tick_handler_boot_list true s ≡ some added
  unfolding scene_tick_handler_boot_list add_or_remove_rescue_elf
  opened_step event =
      if-cases (λ (o : Option MenuState). o ≡ some added) s.mass_event_received (some added)
        (some s) (λ e. refl) (λ e. absurd (ground (arith, e, event)))

  gone :
      remove_at (items_len s) (s.apps.boot_list.items ++ rescue_text ∷ []) ≡ s.apps.boot_list.items
  gone = remove_at-length rescue_text s.apps.boot_list.items

  gone_attr :
      remove_at (items_len s) (s.apps.boot_list_attr ++ attr_disable_next_osdsys_hook ∷ [])
      ≡ s.apps.boot_list_attr
  gone_attr =
      ap (λ l. remove_at l (s.apps.boot_list_attr ++ attr_disable_next_osdsys_hook ∷ []))
        (sym w.paired)
      ∙ remove_at-length attr_disable_next_osdsys_hook s.apps.boot_list_attr

  list_restored :
      list_remove_item remove_rounds (list_push_item s.apps.boot_list rescue_text).1 (items_len s)
      ≡ some s.apps.boot_list
  unfolding list_push_item list_remove_item move_back
  list_restored = rw (ap length gone, here) (ap (λ (l : List (List ℕ)). some (with_items l)) gone)
    where
      here : leb (items_len s) (hilite s) ≡ false
      here = ground (arith, w.inside)

      with_items : List (List ℕ) → ListState (List ℕ)
      with_items l = record (s.apps.boot_list) { items = l }

  removed_step : remove_rescue_elf (mass_connected_handler added) ≡ some restored
  unfolding remove_rescue_elf add_rescue_elf apps_list_push_item apps_list_remove_item
      list_push_item
  removed_step = rw list_restored (ap (λ (l : List ℕ). some (with_attr l)) gone_attr)
    where
      with_attr : List ℕ → MenuState
      with_attr l = record s {
        apps = record { boot_list = s.apps.boot_list; boot_list_attr = l };
        rescue_item_idx = 0;
        mass_event_received = false;
        repaint = true;
      }

  has_item : is_nonzero added.rescue_item_idx ≡ true
  unfolding add_rescue_elf list_push_item
  has_item = ground (arith, w.inside)

  closed_step : scene_tick_handler_boot_list false (mass_connected_handler added) ≡ some restored
  unfolding scene_tick_handler_boot_list add_or_remove_rescue_elf
  closed_step =
      if-cases (λ (o : Option MenuState). o ≡ some restored) (is_nonzero added.rescue_item_idx) _ _
        (λ e. removed_step) (λ e. absurd (ground (arith, e, has_item)))

  -- In a well-formed boot list an event of a device is noticed with the rescue program's file there, and the next one with
  -- the file gone. Then the items, their attribute words and the highlight are those from before, also if these
  -- had an item of the rescue program, and the boot list no longer knows of one.
  pub tick-tick :
      s.mass_event_received ≡ true
      → run (Event.tick true ∷ Event.mass_event ∷ Event.tick false ∷ []) s ≡ some (restored, [])
  unfolding step
  tick-tick event =
      run-step (Event.tick true) _ s added restored [] [] (ap no_calls (opened_step event)) (
        run-step Event.mass_event _ added (mass_connected_handler added) restored [] [] refl (
          run-step (Event.tick false) [] (mass_connected_handler added) restored restored [] []
            (ap no_calls closed_step) (run_nothing restored)))
