-- ===== src/Menu/BootScene/Run/Start.antt =====
-- The boot scene begins with a well-formed boot list, whatever the index of the apps holds.
use mathlib.Core.Path.{subst}
use fruitchip.Common.{
  ℕ, zero, suc, Bool, true, ◌&&◌, List, [], ◌∷◌, ◌++◌, ◌+◌, ◌≡◌, inl, refl, arith, if◌then◌else◌,
  ltb, leb, Option, none, some, drop, length, length-append, if-cases,
}
use fruitchip.Menu.Navigation.{list_len, list_push_item}
use fruitchip.Menu.WideText.{Libc}
use fruitchip.Menu.AppsList.{
  BootList, apps_list_push_item, push_apps, osdsys_only, hilite_autoboot, apps_list_populate,
}
use fruitchip.Menu.State.{MenuState, MenuCall, masswatch_set_connect_callback, push_scene}
use fruitchip.Menu.BootScene.{Effect, scene_switch_to_boot_list, start_countdown}
use fruitchip.Menu.BootScene.Run.Invariant.{IsPaired, IsWellFormed}
use fruitchip.Menu.BootScene.Run.Countdown.{Whenever}

-- A list without an item of the rescue program.
abbrev Listed : BootList → Type 0
Listed apps = IsPaired apps 0

pushed :
    (apps : BootList) (item : List ℕ) (attr : ℕ)
    → Listed apps
    → Listed (apps_list_push_item apps item attr)
unfolding apps_list_push_item list_push_item
pushed apps item attr w = record {
  paired = omega (arith, length-append apps.boot_list_attr (attr ∷ []), longer, w.paired);
  inside = omega (arith, longer, w.inside);
  rescue = inl refl;
}
  where
    longer : length (apps.boot_list.items ++ item ∷ []) ≡ length apps.boot_list.items + 1
    longer = length-append apps.boot_list.items (item ∷ [])

push_apps-Listed :
    (libc : Libc) (attr_of : ℕ → ℕ) (idx n : ℕ) (ptr : List ℕ) (apps : BootList)
    → Listed apps
    → Whenever Listed (push_apps libc attr_of idx n ptr apps)
unfolding push_apps
push_apps-Listed libc attr_of idx zero ptr apps w = w
push_apps-Listed libc attr_of idx (suc n) [] apps w = tt
push_apps-Listed libc attr_of idx (suc n) (name_len ∷ ptr) apps w =
    if-cases (Whenever Listed) (leb name_len (length ptr)) _ none
      (λ e. push_apps-Listed libc attr_of (idx + 1) n (drop name_len ptr) _ (pushed apps _ _ w))
      (λ e. tt)

osdsys_only-Listed : Listed osdsys_only
unfolding osdsys_only apps_list_push_item list_push_item
osdsys_only-Listed = record { paired = refl; inside = omega arith; rescue = inl refl }

hilite_autoboot-Listed :
    (setting : Bool × ℕ) (apps : BootList) → Listed apps → Listed (hilite_autoboot setting apps)
unfolding hilite_autoboot
hilite_autoboot-Listed setting apps w =
    if-cases Listed (setting.0 && ltb setting.1 (list_len apps.boot_list)) _ apps
      (λ e. record { paired = w.paired; inside = ground (arith, e); rescue = inl refl }) (λ e. w)

apps_list_populate-Listed :
    (libc : Libc) (attr_of : ℕ → ℕ) (setting : Bool × ℕ) (index : Option (List ℕ))
    → Whenever (λ (r : Bool × BootList). Listed r.1) (apps_list_populate libc attr_of setting index)
unfolding apps_list_populate
apps_list_populate-Listed libc attr_of setting none = osdsys_only-Listed
apps_list_populate-Listed libc attr_of setting (some []) = tt
apps_list_populate-Listed libc attr_of setting (some (apps_count ∷ ptr)) =
    highlighted (push_apps libc attr_of 0 apps_count ptr osdsys_only)
      (push_apps-Listed libc attr_of 0 apps_count ptr osdsys_only osdsys_only-Listed)
  where
    populated : Option BootList → Option (Bool × BootList)
    populated none = none
    populated (some s) = some (true, hilite_autoboot setting s)

    highlighted :
        (o : Option BootList)
        → Whenever Listed o
        → Whenever (λ (r : Bool × BootList). Listed r.1) (populated o)
    highlighted none h = tt
    highlighted (some apps) h = hilite_autoboot-Listed setting apps h

start_countdown-IsWellFormed :
    (ret : Bool) (alarm : ℕ) (s : MenuState)
    → IsWellFormed s
    → IsWellFormed (start_countdown ret alarm s).0
unfolding start_countdown
start_countdown-IsWellFormed ret alarm s w =
    if-cases (λ (r : Effect). IsWellFormed r.0) (ret && s.autoboot) _ _ (λ e. w) (λ e. w)

-- A menu that knows of no rescue program switches to the boot scene: if it does not read behind the index of the apps, the
-- boot list is well-formed.
pub scene_switch_to_boot_list-IsWellFormed :
    (libc : Libc) (attr_of : ℕ → ℕ) (setting : Bool × ℕ) (index : Option (List ℕ)) (alarm : ℕ)
    (s t : MenuState) (calls : List MenuCall)
    → s.rescue_item_idx ≡ 0
    → scene_switch_to_boot_list libc attr_of setting index alarm s ≡ some (t, calls)
    → IsWellFormed t
unfolding scene_switch_to_boot_list
scene_switch_to_boot_list-IsWellFormed libc attr_of setting index alarm s t calls no_rescue e =
    subst (Whenever (λ (r : Effect). IsWellFormed r.0)) e (
      switched_ok (apps_list_populate libc attr_of setting index)
        (apps_list_populate-Listed libc attr_of setting index))
  where
    switched : Option (Bool × BootList) → Option Effect
    switched none = none
    switched (some (ret, apps)) =
        let t = record s {
          apps = apps;
          autoboot_item_idx = if ret then setting.1 else s.autoboot_item_idx;
        } in
        let (u, calls) = start_countdown ret alarm t in
        some (u, masswatch_set_connect_callback ∷ push_scene ∷ calls)

    switched_ok :
        (o : Option (Bool × BootList))
        → Whenever (λ (r : Bool × BootList). Listed r.1) o
        → Whenever (λ (r : Effect). IsWellFormed r.0) (switched o)
    switched_ok none h = tt
    switched_ok (some (ret, apps)) h =
        start_countdown-IsWellFormed ret alarm _
          (record { paired = h.paired; inside = h.inside; rescue = inl no_rescue })
