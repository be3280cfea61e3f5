-- ===== src/Menu/BootScene/Run/Delay.antt =====
-- The countdown: it loads the highlighted item after as many alarms as it has seconds.
use fruitchip.Common.{
  ℕ, zero, suc, Bool, true, false, ◌||◌, ◌&&◌, List, [], ◌∷◌, ◌++◌, ◌+◌, ◌-◌, ◌≤◌, ◌≡◌, inl, inr,
  map, refl, arith, ap, ◌∙◌, ◌==◌, if◌then◌else◌, is_nonzero, leb, u8, bit_and, Option, none, some,
  length, Bool-cases, if-cases,
}
use fruitchip.Menu.AppsList.{boot_item_osdsys, boot_item_fwfs}
use fruitchip.Host.Apps.{attr_disable_next_osdsys_hook}
use fruitchip.Menu.State.{MenuState, MenuCall, disable_next_osdsys_hook, set_timer_alarm}
use fruitchip.Menu.BootScene.{
  Effect, hilite, attr_at, boot_hilited_item, boot_osdsys, boot_fwfs, boot_rescue_elf,
  update_autoboot_countdown, handle_autoboot_countdown, start_countdown,
}
use fruitchip.Menu.BootScene.Run.{Event, step, run, run-step, scene_paint}
use fruitchip.Menu.BootScene.Run.Countdown.{loads, loads-append}

-- Whatever is highlighted is loaded.
boot_loads : (s : MenuState) → loads (boot_hilited_item s) ≡ true
unfolding boot_hilited_item boot_osdsys boot_rescue_elf boot_fwfs
boot_loads s =
    if-cases Loads (hilite s == boot_item_osdsys) _ _ (λ e. refl)
      λ e.
        if-cases Loads (hilite s == s.rescue_item_idx) _ _ (λ e. refl)
          λ e'.
            if-cases Loads (leb boot_item_fwfs (hilite s)) _ _ (λ e''. fwfs_loads)
              (λ e''. absurd (ground (arith, e, e'')))
  where
    Loads : List MenuCall → Type 0
    Loads calls = loads calls ≡ true

    or_true : (b : Bool) → (b || true) ≡ true
    or_true true = refl
    or_true false = refl

    fwfs_loads : loads (boot_fwfs s) ≡ true
    fwfs_loads =
        loads-append
          (if is_nonzero (bit_and (attr_at s (u8 (hilite s))) attr_disable_next_osdsys_hook)
            then disable_next_osdsys_hook ∷ []
            else [])
          _
        ∙ or_true _

-- A boot list that counts down, with the seconds that are left.
abbrev counting : MenuState → ℕ → Option ℕ → MenuState
counting s sec alarm = record s {
  repaint = true;
  autoboot_countdown = true;
  autoboot_countdown_sec = sec;
  autoboot_countdown_alarm = alarm;
}

abbrev next_alarm : ℕ → ℕ → Option ℕ
next_alarm id sec = if is_nonzero sec then some id else none

module _ (s : MenuState) (n id : ℕ) (alarm : Option ℕ) where
  one_more : is_nonzero (suc n) ≡ true
  one_more = ground arith

  one_less : suc n - 1 ≡ n
  one_less = omega arith

  alarm_counts :
      (update_autoboot_countdown id (counting s (suc n) alarm)).0 ≡ counting s n (next_alarm id n)
  unfolding update_autoboot_countdown
  alarm_counts = elim (Bool-cases (is_nonzero n)) [
    | inl e ↦ rw (one_more, one_less, e) refl
    | inr e ↦ rw (one_more, one_less, e) refl
  ]

  alarm_loads : loads (update_autoboot_countdown id (counting s (suc n) alarm)).1 ≡ false
  unfolding update_autoboot_countdown
  alarm_loads = elim (Bool-cases (is_nonzero n)) [
    | inl e ↦ rw (one_more, one_less, e) refl
    | inr e ↦ rw (one_more, one_less, e) refl
  ]

abbrev pub alarms : List ℕ → List Event
alarms ids = map Event.alarm ids ++ Event.paint ∷ []

suc_==-suc : (a b : ℕ) → (a == b) ≡ (suc a == suc b)
suc_==-suc a b = ground arith

-- The seconds that are left after some alarms, and what a paint then does.
counted :
    (ids : List ℕ) (s : MenuState) (n : ℕ) (alarm : Option ℕ)
    → length ids ≤ n
    → (t : MenuState) × (calls : List MenuCall) × (run (alarms ids) (counting s n alarm)
        ≡ some (t, calls))
      × (t.autoboot_countdown_sec + length ids ≡ n)
      × (loads calls ≡ (length ids == n))
unfolding run step scene_paint handle_autoboot_countdown
counted [] s n alarm h = elim (Bool-cases (is_nonzero n)) [
  | inl e ↦ (_, _, refl, omega arith, rw e (ground (arith, e)))
  | inr e ↦ (
    _,
    _,
    refl,
    omega arith,
    rw e (
        loads-append (boot_hilited_item (record (counting s n alarm) { repaint = false })) []
        ∙ rw (boot_loads (record (counting s n alarm) { repaint = false })) (ground (arith, e))),
  )
]
counted (id ∷ ids) s zero alarm h = absurd (omega arith)
counted (id ∷ ids) s (suc n) alarm h =
    let rest = counted ids s n (next_alarm id n) (omega arith) in
    (
      rest.0,
      _,
      run-step (Event.alarm id) (alarms ids) _ _ rest.0 _ rest.1 refl
          (ap (run (alarms ids)) (alarm_counts s n id alarm) ∙ rest.2),
      omega (arith, rest.3),
      loads-append (update_autoboot_countdown id (counting s (suc n) alarm)).1 rest.1
          ∙ rw (alarm_loads s n id alarm) (rest.4 ∙ suc_==-suc (length ids) n),
    )

-- The apps have been listed, autoboot is on, and no other event comes than alarms of the countdown, at most as many as the delay has
-- seconds, and then a paint. Then the countdown has that many seconds less, and a program is loaded if it is at
-- its end, and none before.
pub start_countdown-alarms :
    (s : MenuState) (first : ℕ) (ids : List ℕ)
    → s.autoboot ≡ true
    → length ids ≤ s.autoboot_delay_sec
    → (t : MenuState) × (calls : List MenuCall) × (run (alarms ids) (start_countdown true first s).0
        ≡ some (t, calls))
      × (t.autoboot_countdown_sec + length ids ≡ s.autoboot_delay_sec)
      × (loads calls ≡ (length ids == s.autoboot_delay_sec))
unfolding start_countdown
start_countdown-alarms s first ids on h =
    let r = counted ids s s.autoboot_delay_sec (some first) h in
    (r.0, r.1, ap (λ (c : Bool). run (alarms ids) (started c)) on ∙ r.2, r.3, r.4)
  where
    effect : Bool → Effect
    effect c =
        if true && c
        then (counting s s.autoboot_delay_sec (some first), set_timer_alarm ∷ [])
        else (record s { repaint = true }, [])

    started : Bool → MenuState
    started c = (effect c).0
