-- ===== src/Menu/BootScene/Run/Countdown.antt =====
-- When the boot scene loads a program: on the cross button, and at the end of the countdown.
use mathlib.Core.Path.{subst}
use fruitchip.Common.{
  ◌^◌, ℕ, suc, Bool, true, false, ◌||◌, List, [], ◌∷◌, ◌++◌, ◌+◌, ◌-◌, ◌<◌, ◌≡◌, refl, arith, ap,
  ◌∙◌, ◌==◌, if◌then◌else◌, is_nonzero, ltb, u8, u32, sub32, ◌&&◌, Option, none, some, length,
  if-cases,
}
use fruitchip.Menu.State.{MenuState, Pad, MenuCall, load_elf_from_file}
use fruitchip.Menu.AppsList.{apps_attr_is_configurable, BootList, apps_list_remove_item}
use fruitchip.Menu.BootScene.{
  is_hilite_autobootable, attr_at, items_len, mass_event_done, remove_rounds, add_rescue_elf,
  Effect, hilite, scene_tick_handler_boot_list, scene_input_handler_boot_list,
  update_autoboot_countdown, handle_buttons, set_autoboot_item_idx, open_options, stop_countdown,
  add_or_remove_rescue_elf, handle_autoboot_countdown, remove_rescue_elf,
}
use fruitchip.Menu.BootScene.Run.{Event, step, run, scene_paint, followed_by, prepend, no_calls}
use fruitchip.Menu.BootScene.Run.Invariant.{IsWellFormed, run-IsWellFormed}

abbrev pub is_load : MenuCall → Bool
is_load (load_elf_from_file path args) = true
is_load _ = false

abbrev pub loads : List MenuCall → Bool
loads [] = false
loads (c ∷ calls) = is_load c || loads calls

abbrev pub presses_cross : Event → Bool
presses_cross (Event.input stored pad) = pad.cross
presses_cross _ = false

abbrev pub cross_pressed : List Event → Bool
cross_pressed [] = false
cross_pressed (e ∷ es) = presses_cross e || cross_pressed es

pub loads-append : (xs ys : List MenuCall) → loads (xs ++ ys) ≡ (loads xs || loads ys)
loads-append [] ys = refl
loads-append (x ∷ xs) ys = rw (loads-append xs ys) (assoc (is_load x) (loads xs) (loads ys))
  where
    assoc : (a b c : Bool) → (a || (b || c)) ≡ ((a || b) || c)
    assoc true b c = refl
    assoc false b c = refl

-- The countdown is off, and nothing is loaded.
pub record Idle (r : Effect) : Type 0 where
  pub off : r.0.autoboot_countdown ≡ false
  pub loads_none : loads r.1 ≡ false

abbrev Off : MenuState → Type 0
Off t = t.autoboot_countdown ≡ false

-- What holds of a result if there is one.
abbrev pub Whenever : {A : Type 0} → (A → Type 0) → Option A → Type 0
Whenever P none = Unit {0}
Whenever P (some a) = P a

idle : {r : Effect} → r.0.autoboot_countdown ≡ false → loads r.1 ≡ false → Idle r
idle e e' = record { off = e; loads_none = e' }

module _ (s : MenuState) (off : Off s) where
  square_idle : (stored : Bool) → Idle (set_autoboot_item_idx stored s)
  unfolding set_autoboot_item_idx
  square_idle stored =
      if-cases Idle (is_hilite_autobootable s) _ _
        (λ e. if-cases Idle stored _ _ (λ e. idle off refl) (λ e. idle off refl))
        (λ e. idle off refl)

  options_idle : Idle (open_options s)
  unfolding open_options
  options_idle =
      if-cases Idle (apps_attr_is_configurable (attr_at s (u8 (hilite s)))) _ _ (λ e. idle off refl)
        (λ e. idle off refl)

  buttons_idle :
      (stored : Bool) (pad : Pad) → pad.cross ≡ false → Idle (handle_buttons stored pad s)
  unfolding handle_buttons
  buttons_idle stored pad no_cross =
      if-cases Idle pad.up _ _
        (λ e. idle (if-cases Off (hilite s == 0) _ _ (λ e. off) (λ e. off)) refl)
        λ e.
          if-cases Idle pad.down _ _
            (λ e.
              idle
                (if-cases Off (ltb (sub32 (items_len s) 1) (u32 (hilite s + 1))) _ _ (λ e. off)
                  (λ e. off))
                refl)
            λ e.
              if-cases Idle pad.cross _ _ (λ e. absurd (ground (arith, e, no_cross)))
                λ e.
                  if-cases Idle pad.triangle _ _ (λ e. options_idle)
                    λ e.
                      if-cases Idle pad.square _ _ (λ e. square_idle stored)
                        (λ e. if-cases Idle pad.start _ _ (λ e. idle off refl) (λ e. idle off refl))

  remove-Off : Whenever Off (remove_rescue_elf s)
  unfolding remove_rescue_elf
  remove-Off =
      elim (apps_list_remove_item remove_rounds s.apps s.rescue_item_idx)
        as (λ o. Whenever Off (removed o)) [ none ↦ tt | some apps ↦ off ]
    where
      removed : Option BootList → Option MenuState
      removed none = none
      removed (some apps) = some (mass_event_done (record s { apps = apps; rescue_item_idx = 0 }))

  tick-Off : (opened : Bool) → Whenever Off (scene_tick_handler_boot_list opened s)
  unfolding scene_tick_handler_boot_list add_or_remove_rescue_elf add_rescue_elf
  tick-Off opened =
      if-cases (Whenever Off) s.mass_event_received _ _
        (λ e.
          if-cases (Whenever Off) opened _ _ (λ e. off)
            λ e.
              if-cases (Whenever Off) (is_nonzero s.rescue_item_idx) _ _ (λ e. remove-Off)
                (λ e. off))
        (λ e. off)

  alarm_idle : (id : ℕ) → Idle (update_autoboot_countdown id s)
  unfolding update_autoboot_countdown
  alarm_idle id =
      if-cases Idle
        (s.autoboot_countdown
          && is_nonzero (
              if is_nonzero s.autoboot_countdown_sec
              then s.autoboot_countdown_sec - 1
              else s.autoboot_countdown_sec))
        _ _ (λ e. idle off refl) (λ e. idle off refl)

  paint_idle : Idle (scene_paint s)
  unfolding scene_paint handle_autoboot_countdown
  paint_idle =
      if-cases Idle s.repaint _ _
        (λ e. idle off (
          if-cases (λ (l : List MenuCall). loads l ≡ false) s.autoboot_countdown _ []
            (λ e'. absurd (ground (arith, e', off))) (λ e'. refl)))
        (λ e. idle off refl)

stop-Off : (s : MenuState) → Off (stop_countdown s)
stop-Off s =
    if-cases Off s.autoboot_countdown (record s { autoboot_countdown = false; repaint = true }) s
      (λ e. refl) (λ e. e)

input_idle :
    (stored : Bool) (pad : Pad) (s : MenuState)
    → pad.cross ≡ false
    → Idle (scene_input_handler_boot_list stored pad s)
unfolding scene_input_handler_boot_list
input_idle stored pad s no_cross = buttons_idle (stop_countdown s) (stop-Off s) stored pad no_cross

step_idle : (e : Event) (s : MenuState) → Off s → presses_cross e ≡ false → Whenever Idle (step e s)
unfolding step
step_idle (Event.input stored pad) s off no_cross = input_idle stored pad s no_cross
step_idle (Event.alarm id) s off no_cross = alarm_idle s off id
step_idle Event.mass_event s off no_cross = idle off refl
step_idle Event.paint s off no_cross = paint_idle s off
step_idle (Event.tick opened) s off no_cross =
    without_calls (scene_tick_handler_boot_list opened s) (tick-Off s off opened)
  where
    without_calls : (o : Option MenuState) → Whenever Off o → Whenever Idle (no_calls o)
    without_calls none h = tt
    without_calls (some t) h = idle h refl

prepend_idle :
    (calls : List MenuCall) (o : Option Effect)
    → loads calls ≡ false
    → Whenever Idle o
    → Whenever Idle (prepend calls o)
prepend_idle calls none e h = tt
prepend_idle calls (some r) e h =
    idle h.off (loads-append calls r.1 ∙ ap (λ b. b || loads r.1) e ∙ h.loads_none)

followed_idle :
    (o : Option Effect) (rest : MenuState → Option Effect)
    → Whenever Idle o
    → ((t : MenuState) → Off t → Whenever Idle (rest t))
    → Whenever Idle (followed_by o rest)
followed_idle none rest h k = tt
followed_idle (some r) rest h k = prepend_idle r.1 (rest r.0) h.loads_none (k r.0 h.off)

neither : (a b : Bool) → (a || b) ≡ false → (a ≡ false) × (b ≡ false)
neither false b e = (refl, e)
neither true b e = absurd (ground (arith, e))

run_idle :
    (es : List Event) (s : MenuState) → Off s → cross_pressed es ≡ false → Whenever Idle (run es s)
unfolding run
run_idle [] s off no_cross = idle off refl
run_idle (e ∷ es) s off no_cross =
    let none_of = neither (presses_cross e) (cross_pressed es) no_cross in
    followed_idle (step e s) (λ t. run es t) (step_idle e s off none_of.0)
      (λ t o. run_idle es t o none_of.1)

-- A button other than cross is pressed or one is released in a well-formed boot list, and cross is not pressed afterwards. Then
-- whatever else happens the countdown is off, and no program is loaded.
pub run-cross_pressed :
    (stored : Bool) (pad : Pad) (es : List Event) (s : MenuState)
    → IsWellFormed s
    → items_len s + suc (length es) < 2 ^ 32
    → pad.cross ≡ false
    → cross_pressed es ≡ false
    → (u : MenuState) × (calls : List MenuCall) × (run (Event.input stored pad ∷ es) s
        ≡ some (u, calls))
      × (u.autoboot_countdown ≡ false)
      × (loads calls ≡ false)
unfolding run step
run-cross_pressed stored pad es s w small no_cross later =
    let r = run-IsWellFormed (Event.input stored pad ∷ es) s w small in
    let quiet : Whenever Idle (run (Event.input stored pad ∷ es) s) =
      followed_idle (some (scene_input_handler_boot_list stored pad s)) (λ t. run es t)
        (input_idle stored pad s no_cross) (λ t o. run_idle es t o later) in
    let same : Idle (r.0, r.1) = subst (Whenever Idle) r.2 quiet in
    (r.0, r.1, r.2, same.off, same.loads_none)
