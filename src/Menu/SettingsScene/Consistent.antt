-- ===== src/Menu/SettingsScene/Consistent.antt =====
-- What the settings scene shows and has stored is what the menu goes by.
use fruitchip.Common.{
  ℕ, Bool, true, false, not, ◌||◌, List, [], ◌∷◌, ◌++◌, ◌^◌, ◌<◌, ◌≤◌, ◌≡◌, ◌⊎◌, inl, inr, refl,
  arith, ap, ◌∙◌, ◌==◌, if◌then◌else◌, to_ℕ, length, if-cases, Bool-cases,
}
use fruitchip.Modchip.{settings_menu_autoboot, settings_menu_autoboot_delay}
use fruitchip.Menu.Navigation.{list_handle_input, list_clear, list_push_item}
use fruitchip.Menu.Navigation.Bounds.{list_handle_input-lt}
use fruitchip.Menu.State.{Pad, MenuCall, settings_set, pop_scene, switch_to_about}
use fruitchip.Menu.SettingsScene.{
  SettingsScene, SceneEffect, Item, Label, Shown, save_settings, save_calls, set_right, set_delay,
  adjust, choose_item, leave_settings, browse, scene_input_handler_settings,
  scene_switch_to_settings, autoboot_delay_min, autoboot_delay_max, toggle_autoboot,
}
use fruitchip.Menu.SettingsScene.Delay.{add_delay-le, subtract_delay-le}

-- What the modchip has for the two keys.
pub record Stored : Type 0 where
  pub autoboot : ℕ
  pub autoboot_delay : ℕ

-- The modchip after some calls, with every setting stored.
abbrev pub store_call : MenuCall → Stored → Stored
store_call (settings_set key value) m =
    if key == settings_menu_autoboot
    then record m { autoboot = value }
    else if key == settings_menu_autoboot_delay
    then record m { autoboot_delay = value }
    else m
store_call _ m = m

abbrev pub store_all : List MenuCall → Stored → Stored
store_all [] m = m
store_all (c ∷ calls) m = store_all calls (store_call c m)

abbrev pub is_pop : MenuCall → Bool
is_pop pop_scene = true
is_pop _ = false

abbrev pub leaves : List MenuCall → Bool
leaves [] = false
leaves (c ∷ calls) = is_pop c || leaves calls

-- The inputs, as long as the scene is on top.
unfoldable pub run_settings : (ℕ → Bool) → List Pad → SettingsScene → SceneEffect
run_settings stored [] s = (s, [])
run_settings stored (input ∷ inputs) s =
    let (t, calls) = scene_input_handler_settings stored input s in
    let (u, more) = run_settings stored inputs t in
    if leaves calls then (t, calls) else (u, calls ++ more)

abbrev pub items_of : Bool → ℕ → List Item
items_of autoboot delay =
    (Label.autoboot_item, Shown.on_off autoboot)
    ∷ (Label.autoboot_delay_item, Shown.seconds delay)
    ∷ (Label.about_item, Shown.arrow)
    ∷ []

-- The modchip has the autoboot setting, and the delay but while it is adjusted; the delay is in its range; the items show
-- both unless the scene is left.
pub record IsConsistent (m : Stored) (r : SceneEffect) : Type 0 where
  pub shown : (leaves r.1 ≡ true) ⊎ (r.0.list.items ≡ items_of r.0.autoboot r.0.autoboot_delay_sec)
  pub inside : r.0.list.hilite_idx < 3
  pub autoboot_needs : r.0.needs_saving_autoboot ≡ false
  pub autoboot_stored : (store_all r.1 m).autoboot ≡ to_ℕ r.0.autoboot
  pub delay_needs :
      (r.0.adjusting_autoboot_delay ≡ true) ⊎ (r.0.needs_saving_autoboot_delay ≡ false)
  pub delay_stored :
      (r.0.needs_saving_autoboot_delay ≡ true)
      ⊎ ((store_all r.1 m).autoboot_delay ≡ r.0.autoboot_delay_sec)
  pub least : autoboot_delay_min ≤ r.0.autoboot_delay_sec
  pub most : r.0.autoboot_delay_sec ≤ autoboot_delay_max

always : ℕ → Bool
always key = true

-- What saving does to the modchip.
saved :
    (na nd : Bool) (a d : ℕ) (m : Stored)
    → let calls = save_calls (λ k. true) na nd a d in
      ((store_all calls m).autoboot ≡ (if na then a else m.autoboot))
      × ((store_all calls m).autoboot_delay ≡ (if nd then d else m.autoboot_delay))
      × (leaves calls ≡ false)
saved true true a d m = (refl, refl, refl)
saved true false a d m = (refl, refl, refl)
saved false true a d m = (refl, refl, refl)
saved false false a d m = (refl, refl, refl)

latest : (nd : Bool) (d v : ℕ) → (nd ≡ true) ⊎ (v ≡ d) → (if nd then d else v) ≡ d
latest true d v h = refl
latest false d v (inl e) = absurd (ground (arith, e))
latest false d v (inr e) = e

module _ (m : Stored) (s : SettingsScene) (c : IsConsistent m (s, [])) where
  shown : s.list.items ≡ items_of s.autoboot s.autoboot_delay_sec
  shown = elim c.shown [ inl e ↦ absurd (ground (arith, e)) | inr e ↦ e ]

  unchanged : IsConsistent m (s, [])
  unchanged = c

  delay_set :
      (sec : ℕ)
      → s.adjusting_autoboot_delay ≡ true
      → (autoboot_delay_min ≤ sec) × (sec ≤ autoboot_delay_max)
      → IsConsistent m (set_delay sec s)
  delay_set sec e range = record {
    shown = inr (ap (set_right 1 (Shown.seconds sec)) shown);
    inside = c.inside;
    autoboot_needs = c.autoboot_needs;
    autoboot_stored = c.autoboot_stored;
    delay_needs = inl e;
    delay_stored = inl refl;
    least = range.0;
    most = range.1;
  }

  delay_done : IsConsistent m (
    record ((save_settings (λ k. true) (record s { adjusting_autoboot_delay = false })).0) {
      repaint = true;
    },
    (save_settings (λ k. true) (record s { adjusting_autoboot_delay = false })).1,
  )
  unfolding save_settings
  delay_done =
      let r =
        saved s.needs_saving_autoboot s.needs_saving_autoboot_delay (to_ℕ s.autoboot)
          s.autoboot_delay_sec m in
      record {
        shown = inr shown;
        inside = c.inside;
        autoboot_needs = refl;
        autoboot_stored = r.0 ∙ latest s.needs_saving_autoboot _ _ (inr c.autoboot_stored);
        delay_needs = inr refl;
        delay_stored = inr (r.1 ∙ latest s.needs_saving_autoboot_delay _ _ c.delay_stored);
        least = c.least;
        most = c.most;
      }

  toggled : IsConsistent m (toggle_autoboot (λ k. true) s)
  unfolding save_settings
  toggled =
      let r =
        saved true s.needs_saving_autoboot_delay (to_ℕ (not s.autoboot)) s.autoboot_delay_sec m in
      record {
        shown = inr (ap (set_right 0 (Shown.on_off (not s.autoboot))) shown);
        inside = c.inside;
        autoboot_needs = refl;
        autoboot_stored = r.0;
        delay_needs = inr refl;
        delay_stored = inr (r.1 ∙ latest s.needs_saving_autoboot_delay _ _ c.delay_stored);
        least = c.least;
        most = c.most;
      }

  adjust-IsConsistent :
      (pad : Pad) → s.adjusting_autoboot_delay ≡ true → IsConsistent m (adjust (λ k. true) pad s)
  unfolding adjust
  adjust-IsConsistent pad e =
      let fits : s.autoboot_delay_sec < 2 ^ 16 = omega (arith, c.most) in
      if-cases (IsConsistent m) pad.up _ _
        (λ _. delay_set _ e (add_delay-le 1 s.autoboot_delay_sec (omega arith) (omega arith) fits))
        λ _.
          if-cases (IsConsistent m) pad.down _ _
            (λ _. delay_set _ e (subtract_delay-le 1 s.autoboot_delay_sec))
            λ _.
              if-cases (IsConsistent m) pad.right _ _
                (λ _.
                  delay_set _ e
                    (add_delay-le 10 s.autoboot_delay_sec (omega arith) (omega arith) fits))
                λ _.
                  if-cases (IsConsistent m) pad.left _ _
                    (λ _. delay_set _ e (subtract_delay-le 10 s.autoboot_delay_sec))
                    (λ _.
                      if-cases (IsConsistent m) pad.circle _ _ (λ _. delay_done) (λ _. unchanged))

  chosen-IsConsistent :
      s.adjusting_autoboot_delay ≡ false → IsConsistent m (choose_item (λ k. true) s)
  unfolding choose_item
  chosen-IsConsistent e =
      if-cases (IsConsistent m) (s.list.hilite_idx == 0) _ _ (λ _. toggled)
        λ _.
          if-cases (IsConsistent m) (s.list.hilite_idx == 1) _ _ (λ _. adjusting)
            λ _.
              if-cases (IsConsistent m) (s.list.hilite_idx == 2) _ _ (λ _. about) (λ _. unchanged)
    where
      adjusting : IsConsistent m (
        record s { adjusting_autoboot_delay = not s.adjusting_autoboot_delay; repaint = true },
        [],
      )
      adjusting = record {
        shown = inr shown;
        inside = c.inside;
        autoboot_needs = c.autoboot_needs;
        autoboot_stored = c.autoboot_stored;
        delay_needs = inl (ap not e);
        delay_stored = c.delay_stored;
        least = c.least;
        most = c.most;
      }

      about : IsConsistent m (record s { repaint = true }, switch_to_about ∷ [])
      about = record {
        shown = inr shown;
        inside = c.inside;
        autoboot_needs = c.autoboot_needs;
        autoboot_stored = c.autoboot_stored;
        delay_needs = c.delay_needs;
        delay_stored = c.delay_stored;
        least = c.least;
        most = c.most;
      }

  left : IsConsistent m (leave_settings s)
  unfolding leave_settings list_clear
  left = record {
    shown = inl refl;
    inside = omega arith;
    autoboot_needs = c.autoboot_needs;
    autoboot_stored = c.autoboot_stored;
    delay_needs = c.delay_needs;
    delay_stored = c.delay_stored;
    least = c.least;
    most = c.most;
  }

  moved-IsConsistent :
      (pad : Pad)
      → IsConsistent m
          (record s { list = (list_handle_input pad.up pad.down s.list).1; repaint = true }, [])
  moved-IsConsistent pad =
      let three : length s.list.items ≡ 3 = ap length shown in
      let r =
        list_handle_input-lt s.list (omega (arith, three, c.inside)) (omega (arith, three)) pad.up
          pad.down in
      record {
        shown = inr (r.1 ∙ shown);
        inside = omega (arith, r.0, ap length r.1, three);
        autoboot_needs = c.autoboot_needs;
        autoboot_stored = c.autoboot_stored;
        delay_needs = c.delay_needs;
        delay_stored = c.delay_stored;
        least = c.least;
        most = c.most;
      }

  browse-IsConsistent :
      (pad : Pad) → s.adjusting_autoboot_delay ≡ false → IsConsistent m (browse (λ k. true) pad s)
  unfolding browse
  browse-IsConsistent pad e =
      if-cases (IsConsistent m) (list_handle_input pad.up pad.down s.list).0 _ _
        (λ _. moved-IsConsistent pad)
        (λ _.
          if-cases (IsConsistent m) pad.circle _ _ (λ _. left)
            (λ _.
              if-cases (IsConsistent m) pad.cross _ _ (λ _. chosen-IsConsistent e)
                (λ _. unchanged)))

  input-IsConsistent : (pad : Pad) → IsConsistent m (scene_input_handler_settings (λ k. true) pad s)
  unfolding scene_input_handler_settings
  input-IsConsistent pad =
      if-cases (IsConsistent m) s.adjusting_autoboot_delay _ _ (λ e. adjust-IsConsistent pad e)
        (λ e. browse-IsConsistent pad e)

store_all-append :
    (calls more : List MenuCall) (m : Stored)
    → store_all (calls ++ more) m ≡ store_all more (store_all calls m)
store_all-append [] more m = refl
store_all-append (c ∷ calls) more m = store_all-append calls more (store_call c m)

pub leaves-append :
    (calls more : List MenuCall) → leaves calls ≡ false → leaves (calls ++ more) ≡ leaves more
leaves-append [] more e = refl
leaves-append (c ∷ calls) more e = elim (Bool-cases (is_pop c)) [
  | inl y ↦ absurd (ground (arith, y, e))
  | inr n ↦ rw n (leaves-append calls more (rw n at e))
]

module _ (m : Stored) (t : SettingsScene) (calls : List MenuCall) (c : IsConsistent m (t, calls))
    (stays : leaves calls ≡ false) where
  -- A result as the start of what follows, and what follows as a part of the whole.
  restarted : IsConsistent (store_all calls m) (t, [])
  restarted = record {
    shown = elim c.shown [ inl e ↦ absurd (ground (arith, e, stays)) | inr e ↦ inr e ];
    inside = c.inside;
    autoboot_needs = c.autoboot_needs;
    autoboot_stored = c.autoboot_stored;
    delay_needs = c.delay_needs;
    delay_stored = c.delay_stored;
    least = c.least;
    most = c.most;
  }

  continued :
      (u : SettingsScene) (more : List MenuCall)
      → IsConsistent (store_all calls m) (u, more)
      → IsConsistent m (u, calls ++ more)
  continued u more d =
      let e = store_all-append calls more m in
      record {
        shown = elim d.shown [ inl y ↦ inl (leaves-append calls more stays ∙ y) | inr y ↦ inr y ];
        inside = d.inside;
        autoboot_needs = d.autoboot_needs;
        autoboot_stored = ap (λ (x : Stored). x.autoboot) e ∙ d.autoboot_stored;
        delay_needs = d.delay_needs;
        delay_stored = elim d.delay_stored [
          | inl y ↦ inl y
          | inr y ↦ inr (ap (λ (x : Stored). x.autoboot_delay) e ∙ y)
        ];
        least = d.least;
        most = d.most;
      }

-- The settings scene begins consistent with the modchip, and each setting can be stored. Then after any inputs it is consistent with
-- it, as what its calls have stored: the modchip has the autoboot setting, and has the delay whenever it is not adjusted; the delay is between
-- 1 and 90; and the items show both until the scene is left.
pub run_settings-IsConsistent :
    (inputs : List Pad) (m : Stored) (s : SettingsScene)
    → IsConsistent m (s, [])
    → IsConsistent m (run_settings (λ k. true) inputs s)
unfolding run_settings
run_settings-IsConsistent [] m s c = c
run_settings-IsConsistent (pad ∷ inputs) m s c =
    let r : SceneEffect = scene_input_handler_settings (λ k. true) pad s in
    let first : IsConsistent m r = input-IsConsistent m s c pad in
    if-cases (IsConsistent m) (leaves r.1) _ _ (λ e. first)
      (λ e.
        continued m r.0 r.1 first e _ _
          (run_settings-IsConsistent inputs (store_all r.1 m) r.0 (restarted m r.0 r.1 first e)))

-- The scene as it is opened.
pub scene_switch_to_settings-IsConsistent :
    (m : Stored) (s : SettingsScene)
    → m.autoboot ≡ to_ℕ s.autoboot
    → m.autoboot_delay ≡ s.autoboot_delay_sec
    → (autoboot_delay_min ≤ s.autoboot_delay_sec) × (s.autoboot_delay_sec ≤ autoboot_delay_max)
    → s.list.hilite_idx ≡ 0
    → s.needs_saving_autoboot ≡ false
    → s.needs_saving_autoboot_delay ≡ false
    → s.adjusting_autoboot_delay ≡ false
    → IsConsistent m ((scene_switch_to_settings s).0, [])
unfolding scene_switch_to_settings list_push_item
scene_switch_to_settings-IsConsistent m s a d range top na nd adj = record {
  shown = inr refl;
  inside = omega (arith, top);
  autoboot_needs = na;
  autoboot_stored = a;
  delay_needs = inr nd;
  delay_stored = inr d;
  least = range.0;
  most = range.1;
}
