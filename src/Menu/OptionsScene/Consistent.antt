-- ===== src/Menu/OptionsScene/Consistent.antt =====
-- What the options scene shows, stores and never sets together.
use fruitchip.Common.{
  ℕ, Bool, true, false, not, ◌&&◌, List, [], ◌∷◌, ◌++◌, ◌<◌, ◌≡◌, ◌⊎◌, inl, inr, refl, sym, arith,
  ap, ◌∙◌, ◌==◌, ==_iff, if◌then◌else◌, is_nonzero, bit_and, length, if-cases,
}
use fruitchip.Modchip.{settings_menu_osdsys_settings}
use fruitchip.Host.Apps.{attr_osdsys}
use fruitchip.Menu.Navigation.{list_handle_input, list_clear, list_push_item}
use fruitchip.Menu.Navigation.Bounds.{list_handle_input-lt}
use fruitchip.Menu.State.{Osdsys, osdsys_value, Pad, MenuCall, settings_set, pop_scene}
use fruitchip.Menu.SettingsScene.Consistent.{leaves, leaves-append}
use fruitchip.Menu.OptionsScene.{
  OptionsScene, OptionsEffect, OptionItem, OptionLabel, set_shown, show_option, show_hilite,
  leave_options, toggle_skip_intro, toggle_boot_browser, handle_toggle_option,
  scene_input_handler_options, scene_switch_to_options,
}

-- The options that the modchip has after some calls.
abbrev pub store_value : MenuCall → ℕ → ℕ
store_value (settings_set key value) m = if key == settings_menu_osdsys_settings then value else m
store_value _ m = m

abbrev pub stored_value : List MenuCall → ℕ → ℕ
stored_value [] m = m
stored_value (c ∷ calls) m = stored_value calls (store_value c m)

-- The inputs, as long as the scene is on top.
unfoldable pub run_options : List Pad → OptionsScene → OptionsEffect
run_options [] s = (s, [])
run_options (input ∷ inputs) s =
    let (t, calls) = scene_input_handler_options input s in
    let rest = run_options inputs t in
    if leaves calls then (t, calls) else (rest.0, calls ++ rest.1)

abbrev pub options_of : Osdsys → List OptionItem
options_of o =
    (OptionLabel.skip_opening, o.skip_intro)
    ∷ (OptionLabel.boot_into_browser, o.boot_browser)
    ∷ (OptionLabel.skip_memory_card_update, o.skip_mc_update)
    ∷ (OptionLabel.skip_hard_drive_update, o.skip_hdd_update)
    ∷ []

-- `m` is the value that the modchip had when the scene was opened: it is stored anew when the scene is left.
pub record IsConsistent (m : ℕ) (r : OptionsEffect) : Type 0 where
  pub shown : (leaves r.1 ≡ true) ⊎ (r.0.list.items ≡ options_of r.0.osdsys)
  pub inside : r.0.list.hilite_idx < 4
  pub indices :
      (r.0.item_idx_osdsys_skip_intro ≡ 0)
      × (r.0.item_idx_osdsys_boot_browser ≡ 1)
      × (r.0.item_idx_osdsys_skip_mc ≡ 2)
      × (r.0.item_idx_osdsys_skip_hdd ≡ 3)
  pub exclusive : (r.0.osdsys.skip_intro && r.0.osdsys.boot_browser) ≡ false
  pub opened : r.0.settings ≡ m
  pub stored : stored_value r.1 m ≡ (if leaves r.1 then osdsys_value r.0.osdsys else m)

and_false : (b : Bool) → (b && false) ≡ false
and_false true = refl
and_false false = refl

module _ (m : ℕ) (s : OptionsScene) (c : IsConsistent m (s, [])) where
  shown : s.list.items ≡ options_of s.osdsys
  shown = elim c.shown [ inl e ↦ absurd (ground (arith, e)) | inr e ↦ e ]

  -- A new value for the highlighted option.
  option_set :
      (i : ℕ) (value : Bool) (o : Osdsys)
      → s.list.hilite_idx ≡ i
      → set_shown i value (options_of s.osdsys) ≡ options_of o
      → (o.skip_intro && o.boot_browser) ≡ false
      → IsConsistent m (show_hilite value (record s { osdsys = o }), [])
  option_set i value o e shows apart = record {
    shown = inr (ap (λ j. set_shown j value s.list.items) e ∙ ap (set_shown i value) shown ∙ shows);
    inside = c.inside;
    indices = c.indices;
    exclusive = apart;
    opened = c.opened;
    stored = refl;
  }

  -- The same where another option, number `j`, is switched off.
  option_set_off :
      (i j k : ℕ) (value : Bool) (o : Osdsys)
      → s.list.hilite_idx ≡ i
      → k ≡ j
      → set_shown i value (set_shown j false (options_of s.osdsys)) ≡ options_of o
      → (o.skip_intro && o.boot_browser) ≡ false
      → IsConsistent m (show_hilite value (show_option k false (record s { osdsys = o })), [])
  option_set_off i j k value o e e' shows apart = record {
    shown = inr (
        ap (λ l. set_shown l value (set_shown k false s.list.items)) e
        ∙ ap (λ l. set_shown i value (set_shown l false s.list.items)) e'
        ∙ ap (λ l. set_shown i value (set_shown j false l)) shown
        ∙ shows);
    inside = c.inside;
    indices = c.indices;
    exclusive = apart;
    opened = c.opened;
    stored = refl;
  }

  skip_intro_toggled : s.list.hilite_idx ≡ 0 → IsConsistent m (toggle_skip_intro s, [])
  skip_intro_toggled top =
      if-cases (λ (t : OptionsScene). IsConsistent m (show_hilite (not s.osdsys.skip_intro) t, []))
        (not s.osdsys.skip_intro) _ _
        (λ e. option_set_off 0 1 _ _ _ top c.indices.1 refl (and_false _))
        (λ e. option_set 0 _ _ top refl (ap (λ b. b && s.osdsys.boot_browser) e))

  boot_browser_toggled : s.list.hilite_idx ≡ 1 → IsConsistent m (toggle_boot_browser s, [])
  boot_browser_toggled top =
      if-cases
        (λ (t : OptionsScene). IsConsistent m (show_hilite (not s.osdsys.boot_browser) t, []))
        (not s.osdsys.boot_browser) _ _ (λ e. option_set_off 1 0 _ _ _ top c.indices.0 refl refl)
        (λ e. option_set 1 _ _ top refl (ap (λ b. s.osdsys.skip_intro && b) e ∙ and_false _))

  at_index : (i j : ℕ) → (s.list.hilite_idx == i) ≡ true → i ≡ j → s.list.hilite_idx ≡ j
  at_index i j e e' = (==_iff s.list.hilite_idx i).0 e ∙ e'

  toggled : IsConsistent m (handle_toggle_option s, [])
  unfolding handle_toggle_option
  toggled =
      if-cases P (s.list.hilite_idx == s.item_idx_osdsys_skip_intro) _ _
        (λ e. skip_intro_toggled (at_index _ _ e c.indices.0))
        λ e.
          if-cases P (s.list.hilite_idx == s.item_idx_osdsys_boot_browser) _ _
            (λ e. boot_browser_toggled (at_index _ _ e c.indices.1))
            λ e.
              if-cases P (s.list.hilite_idx == s.item_idx_osdsys_skip_mc) _ _
                (λ e. option_set 2 _ _ (at_index _ _ e c.indices.2) refl c.exclusive)
                λ e.
                  if-cases P (s.list.hilite_idx == s.item_idx_osdsys_skip_hdd) _ _
                    (λ e. option_set 3 _ _ (at_index _ _ e c.indices.3) refl c.exclusive) (λ e. c)
    where
      P : OptionsScene → Type 0
      P t = IsConsistent m (t, [])

  left : IsConsistent m (leave_options s)
  unfolding leave_options list_clear
  left =
      if-cases
        (λ (calls : List MenuCall). IsConsistent m ((leave_options s).0, calls ++ pop_scene ∷ []))
        (s.settings == osdsys_value s.osdsys) _ _
        (λ e. gone [] (sym c.opened ∙ (==_iff s.settings (osdsys_value s.osdsys)).0 e) refl)
        (λ e.
          gone (settings_set settings_menu_osdsys_settings (osdsys_value s.osdsys) ∷ []) refl refl)
    where
      gone :
          (calls : List MenuCall)
          → stored_value (calls ++ pop_scene ∷ []) m ≡ osdsys_value s.osdsys
          → leaves (calls ++ pop_scene ∷ []) ≡ true
          → IsConsistent m ((leave_options s).0, calls ++ pop_scene ∷ [])
      gone calls e pops = record {
        shown = inl pops;
        inside = omega arith;
        indices = c.indices;
        exclusive = c.exclusive;
        opened = c.opened;
        stored = e ∙ ap (λ (b : Bool). if b then osdsys_value s.osdsys else m) (sym pops);
      }

  moved :
      (pad : Pad)
      → IsConsistent m
          (record s { list = (list_handle_input pad.up pad.down s.list).1; repaint = true }, [])
  moved pad =
      let four : length s.list.items ≡ 4 = ap length shown in
      let r =
        list_handle_input-lt s.list (omega (arith, four, c.inside)) (omega (arith, four)) pad.up
          pad.down in
      record {
        shown = inr (r.1 ∙ shown);
        inside = omega (arith, r.0, ap length r.1, four);
        indices = c.indices;
        exclusive = c.exclusive;
        opened = c.opened;
        stored = refl;
      }

  input-IsConsistent : (pad : Pad) → IsConsistent m (scene_input_handler_options pad s)
  unfolding scene_input_handler_options
  input-IsConsistent pad =
      if-cases (IsConsistent m) (list_handle_input pad.up pad.down s.list).0 _ _ (λ e. moved pad)
        λ e.
          if-cases (IsConsistent m) pad.circle _ _ (λ e. left)
            (λ e. if-cases (IsConsistent m) pad.cross _ _ (λ e. toggled) (λ e. c))

stored_value-append :
    (calls more : List MenuCall) (m : ℕ)
    → stored_value (calls ++ more) m ≡ stored_value more (stored_value calls m)
stored_value-append [] more m = refl
stored_value-append (c ∷ calls) more m = stored_value-append calls more (store_value c m)

module _ (m : ℕ) (t : OptionsScene) (calls : List MenuCall) (c : IsConsistent m (t, calls))
    (stays : leaves calls ≡ false) where
  kept : stored_value calls m ≡ m
  kept = c.stored ∙ ap (λ (b : Bool). if b then osdsys_value t.osdsys else m) stays

  restarted : IsConsistent m (t, [])
  restarted = record {
    shown = elim c.shown [ inl e ↦ absurd (ground (arith, e, stays)) | inr e ↦ inr e ];
    inside = c.inside;
    indices = c.indices;
    exclusive = c.exclusive;
    opened = c.opened;
    stored = refl;
  }

  continued :
      (u : OptionsScene) (more : List MenuCall)
      → IsConsistent m (u, more)
      → IsConsistent m (u, calls ++ more)
  continued u more d = record {
    shown = elim d.shown [ inl y ↦ inl (pops ∙ y) | inr y ↦ inr y ];
    inside = d.inside;
    indices = d.indices;
    exclusive = d.exclusive;
    opened = d.opened;
    stored =
        stored_value-append calls more m
        ∙ ap (stored_value more) kept
        ∙ d.stored
        ∙ ap (λ (b : Bool). if b then osdsys_value u.osdsys else m) (sym pops);
  }
    where
      pops : leaves (calls ++ more) ≡ leaves more
      pops = leaves-append calls more stays

-- The options scene has been opened, without both of the first two options set. Then after any inputs these two are not both set; the items show
-- the options until the scene is left; and the modchip has the value it had until the scene is left, and the options as they are
-- then, if each setting can be stored.
pub run_options-IsConsistent :
    (inputs : List Pad) (m : ℕ) (s : OptionsScene)
    → IsConsistent m (s, [])
    → IsConsistent m (run_options inputs s)
unfolding run_options
run_options-IsConsistent [] m s c = c
run_options-IsConsistent (pad ∷ inputs) m s c =
    let r : OptionsEffect = scene_input_handler_options pad s in
    let first : IsConsistent m r = input-IsConsistent m s c pad in
    if-cases (IsConsistent m) (leaves r.1) _ _ (λ e. first)
      (λ e.
        continued m r.0 r.1 first e _ _
          (run_options-IsConsistent inputs m r.0 (restarted m r.0 r.1 first e)))

-- The options scene of an app with the attribute of the system's menu, as it is opened.
pub scene_switch_to_options-IsConsistent :
    (attr : ℕ) (osdsys : Osdsys) (s : OptionsScene)
    → is_nonzero (bit_and attr attr_osdsys) ≡ true
    → (osdsys.skip_intro && osdsys.boot_browser) ≡ false
    → IsConsistent (osdsys_value osdsys) ((scene_switch_to_options attr osdsys s).0, [])
unfolding scene_switch_to_options list_push_item
scene_switch_to_options-IsConsistent attr osdsys s has_options apart =
    if-cases (λ (t : OptionsScene). IsConsistent (osdsys_value osdsys) (t, []))
      (is_nonzero (bit_and attr attr_osdsys)) _ _
      (λ e. record {
        shown = inr refl;
        inside = omega arith;
        indices = (refl, refl, refl, refl);
        exclusive = apart;
        opened = refl;
        stored = refl;
      })
      (λ e. absurd (ground (arith, e, has_options)))
