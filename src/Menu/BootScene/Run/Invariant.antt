-- ===== src/Menu/BootScene/Run/Invariant.antt =====
-- The list, its attribute words and the highlight stay together in the boot scene.
use fruitchip.Common.{
  ℕ, Bool, List, [], ◌∷◌, ◌++◌, ◌+◌, ◌-◌, ◌^◌, ◌<◌, ◌≤◌, ◌≡◌, ◌≢◌, ◌⊎◌, inl, inr, refl, arith, ap,
  ◌==◌, ltb, u8, u32, sub32, is_nonzero, Option, some, length, length-append, Bool-cases, if-cases,
}
use fruitchip.Menu.Navigation.Bounds.{list_remove_item-some, length-remove_at}
use fruitchip.Menu.Navigation.{remove_at, list_push_item, list_len}
use fruitchip.Menu.AppsList.{
  apps_attr_is_configurable, BootList, apps_list_push_item, apps_list_remove_item,
}
use fruitchip.Menu.State.{MenuState, Pad, MenuCall}
use fruitchip.Host.Apps.{attr_disable_next_osdsys_hook}
use fruitchip.Menu.BootScene.{
  mass_event_done, rescue_text, is_hilite_autobootable, attr_at, Effect, hilite, items_len,
  set_hilite, hilite_up, hilite_down, scene_tick_handler_boot_list, scene_input_handler_boot_list,
  update_autoboot_countdown, handle_buttons, set_autoboot_item_idx, open_options, stop_countdown,
  add_rescue_elf, remove_rescue_elf, add_or_remove_rescue_elf,
}
use fruitchip.Menu.BootScene.Run.{Event, step, run, run-step, scene_paint, no_calls}

-- Every item has an attribute word, the highlight is in the list, and the item of the rescue program is
-- the last one if there is one.
pub record IsPaired (apps : BootList) (rescue_item_idx : ℕ) : Type 0 where
  pub paired : length apps.boot_list_attr ≡ list_len apps.boot_list
  pub inside : apps.boot_list.hilite_idx < list_len apps.boot_list
  pub rescue : (rescue_item_idx ≡ 0) ⊎ (rescue_item_idx + 1 ≡ list_len apps.boot_list)

abbrev pub IsWellFormed : MenuState → Type 0
IsWellFormed s = IsPaired s.apps s.rescue_item_idx

-- A state is well-formed after a change that adds an item at most.
abbrev Preserved : MenuState → MenuState → Type 0
Preserved s t = IsWellFormed t × (items_len t ≤ items_len s + 1)

module _ (s : MenuState) (w : IsWellFormed s) where
  moved : (i : ℕ) → i < items_len s → Preserved s (set_hilite i s)
  moved i h = (record { paired = w.paired; inside = h; rescue = w.rescue }, omega arith)

  unchanged : Preserved s s
  unchanged = (w, omega arith)

  up_preserves : items_len s < 2 ^ 32 → Preserved s (hilite_up s)
  up_preserves small = elim (Bool-cases (hilite s == 0)) [
    | inl e ↦ rw e (moved (sub32 (items_len s) 1) (omega (arith, w.inside)))
    | inr e ↦ rw e (moved (hilite s - 1) (omega (arith, w.inside)))
  ]

  down_preserves : items_len s < 2 ^ 32 → Preserved s (hilite_down s)
  down_preserves small = elim (Bool-cases (ltb (sub32 (items_len s) 1) (u32 (hilite s + 1)))) [
    | inl e ↦ rw e (moved 0 (omega (arith, w.inside)))
    | inr e ↦ rw e (moved (u32 (hilite s + 1)) (ground (arith, e, w.inside)))
  ]

  set_autoboot_preserves : (stored : Bool) → Preserved s (set_autoboot_item_idx stored s).0
  unfolding set_autoboot_item_idx
  set_autoboot_preserves stored = elim (Bool-cases (is_hilite_autobootable s)) [
    | inr e ↦ rw e unchanged
    | inl e ↦ elim (Bool-cases stored) [ inl y ↦ rw (e, y) unchanged | inr n ↦ rw (e, n) unchanged ]
  ]

  open_options_preserves : Preserved s (open_options s).0
  unfolding open_options
  open_options_preserves =
      elim (Bool-cases (apps_attr_is_configurable (attr_at s (u8 (hilite s))))) [
        | inl e ↦ rw e unchanged
        | inr e ↦ rw e unchanged
      ]

  buttons_preserve :
      (stored : Bool) (pad : Pad)
      → items_len s < 2 ^ 32
      → Preserved s (handle_buttons stored pad s).0
  unfolding handle_buttons
  buttons_preserve stored pad small =
      if-cases P pad.up _ _ (λ e. up_preserves small)
        λ e.
          if-cases P pad.down _ _ (λ e. down_preserves small)
            λ e.
              if-cases P pad.cross _ _ (λ e. unchanged)
                λ e.
                  if-cases P pad.triangle _ _ (λ e. open_options_preserves)
                    λ e.
                      if-cases P pad.square _ _ (λ e. set_autoboot_preserves stored)
                        λ e. if-cases P pad.start _ _ (λ e. unchanged) λ e. unchanged
    where
      P : Effect → Type 0
      P r = Preserved s r.0

  stop_preserves : IsWellFormed (stop_countdown s) × (items_len (stop_countdown s) ≡ items_len s)
  stop_preserves =
      if-cases (λ t. IsWellFormed t × (items_len t ≡ items_len s)) s.autoboot_countdown _ _
        (λ e. (w, refl)) (λ e. (w, refl))

module _ (s : MenuState) (w : IsWellFormed s) (small : items_len s + 1 < 2 ^ 32) where
  input_preserves :
      (stored : Bool) (pad : Pad) → Preserved s (scene_input_handler_boot_list stored pad s).0
  unfolding scene_input_handler_boot_list
  input_preserves stored pad =
      let stopped = stop_preserves s w in
      let r = buttons_preserve (stop_countdown s) stopped.0 stored pad (omega (arith, stopped.1)) in
      (r.0, omega (arith, stopped.1, r.1))

  alarm_preserves : (id : ℕ) → Preserved s (update_autoboot_countdown id s).0
  unfolding update_autoboot_countdown
  alarm_preserves id =
      if-cases (λ (r : Effect). Preserved s r.0) _ _ _ (λ e. unchanged s w) (λ e. unchanged s w)

  paint_preserves : Preserved s (scene_paint s).0
  unfolding scene_paint
  paint_preserves = elim (Bool-cases s.repaint) [
    | inl e ↦ rw e (unchanged s w)
    | inr e ↦ rw e (unchanged s w)
  ]

  add_preserves : Preserved s (add_rescue_elf s)
  unfolding add_rescue_elf apps_list_push_item list_push_item
  add_preserves = (
    record {
      paired = omega (
        arith,
        longer attr_disable_next_osdsys_hook s.apps.boot_list_attr,
        longer rescue_text s.apps.boot_list.items,
        w.paired,
      );
      inside = omega (arith, longer rescue_text s.apps.boot_list.items, w.inside);
      rescue = inr (omega (arith, longer rescue_text s.apps.boot_list.items));
    },
    omega (arith, longer rescue_text s.apps.boot_list.items),
  )
    where
      longer : {A : Type 0} (x : A) (xs : List A) → length (xs ++ x ∷ []) ≡ length xs + 1
      longer x xs = length-append xs (x ∷ [])

  remove_preserves :
      s.rescue_item_idx ≢ 0 → (t : MenuState) × (remove_rescue_elf s ≡ some t) × Preserved s t
  unfolding remove_rescue_elf apps_list_remove_item
  remove_preserves ne =
      let last : s.rescue_item_idx + 1 ≡ items_len s = ground (arith, w.rescue, ne) in
      let two : 1 < items_len s = ground (arith, w.rescue, ne) in
      let r =
        list_remove_item-some s.apps.boot_list w.inside (omega (arith, small)) s.rescue_item_idx
          (omega (arith, last)) two in
      let shorter =
        length-remove_at s.rescue_item_idx s.apps.boot_list.items (omega (arith, last)) in
      let shorter_attr =
        length-remove_at s.rescue_item_idx s.apps.boot_list_attr (omega (arith, last, w.paired)) in
      (
        mass_event_done (record s {
          apps = record {
            boot_list = r.0;
            boot_list_attr = remove_at s.rescue_item_idx s.apps.boot_list_attr;
          };
          rescue_item_idx = 0;
        }),
        rw r.1 refl,
        (
          record {
            paired = omega (arith, shorter, shorter_attr, w.paired, ap length r.2);
            inside = r.3;
            rescue = inl refl;
          },
          omega (arith, shorter, ap length r.2),
        ),
      )

  tick_preserves :
      (opened : Bool)
      → (t : MenuState) × (scene_tick_handler_boot_list opened s ≡ some t) × Preserved s t
  unfolding scene_tick_handler_boot_list add_or_remove_rescue_elf
  tick_preserves opened =
      if-cases P s.mass_event_received _ _
        (λ e.
          if-cases P opened _ _ (λ e. (mass_event_done (add_rescue_elf s), refl, add_preserves))
            λ e.
              if-cases P (is_nonzero s.rescue_item_idx) _ _
                (λ e. remove_preserves (λ z. absurd (ground (arith, z, e))))
                (λ e. (mass_event_done s, refl, unchanged s w)))
        (λ e. (s, refl, unchanged s w))
    where
      P : Option MenuState → Type 0
      P o = (t : MenuState) × (o ≡ some t) × Preserved s t

  step_preserves :
      (e : Event)
      → (t : MenuState) × (calls : List MenuCall) × (step e s ≡ some (t, calls)) × Preserved s t
  unfolding step
  step_preserves (Event.input stored pad) = (_, _, refl, input_preserves stored pad)
  step_preserves (Event.alarm id) = (_, _, refl, alarm_preserves id)
  step_preserves Event.mass_event = (_, _, refl, unchanged s w)
  step_preserves Event.paint = (_, _, refl, paint_preserves)
  step_preserves (Event.tick opened) =
      let r = tick_preserves opened in (r.0, [], ap no_calls r.1, r.2)

-- A well-formed boot list is given, with room for one more item for each event. Then any sequence of
-- events is handled, no loop goes on and on, and the boot list is well-formed again.
pub run-IsWellFormed :
    (es : List Event) (s : MenuState)
    → IsWellFormed s
    → items_len s + length es < 2 ^ 32
    → (t : MenuState) × (calls : List MenuCall) × (run es s ≡ some (t, calls)) × IsWellFormed t
unfolding run
run-IsWellFormed [] s w small = (s, [], refl, w)
run-IsWellFormed (e ∷ es) s w small =
    let r = step_preserves s w (omega arith) e in
    let rest = run-IsWellFormed es r.0 r.3.0 (omega (arith, r.3.1)) in
    (rest.0, _, run-step e es s r.0 rest.0 r.1 rest.1 r.2 rest.2, rest.3)
