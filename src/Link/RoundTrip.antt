-- ===== src/Link/RoundTrip.antt =====
-- fruitchip-include/modchip/settings.h against the firmware: a setting that is set and read.
use fruitchip.Common.{ℕ, zero, suc, true, ◌^◌, ◌<◌, ◌≡◌, arith, ◌∙◌, ap, some}
use fruitchip.Board.{Board}
use fruitchip.Hal.{Hal}
use fruitchip.Host.Requests.{settings_set_request}
use fruitchip.Host.Settings.{modchip_settings_get, modchip_settings_set}
use fruitchip.BootRom.Defs.{Handler, Chip}
use fruitchip.BootRom.Write.Kv.{get_setting, set_setting}
use fruitchip.BootRom.Write.Idle.{write_bytes}
use fruitchip.BootRom.Commands.Settings.{
  IsValid, kept, settings_set_request-accepted, get_setting-set_setting,
}
use fruitchip.Link.{World, bus, quiet}
use fruitchip.Link.Settings.{
  ComputesCrc, modchip_settings_set-accepted, modchip_settings_get-answer,
}

kept-lt : (key value : ℕ) → kept key value < 2 ^ 32
kept-lt zero value = ground arith
kept-lt (suc zero) value = omega arith
kept-lt (suc (suc key)) value = omega arith

module _ (b : Board) (hal : Hal) (world : World) (computes : ComputesCrc hal) (s : Chip)
    (idle : s.write_handler ≡ Handler.idle) (valid : IsValid s.settings) where
  -- The console sets a key of a modchip that is between two commands and whose settings fit their
  -- types, and waits for longer than the modchip is busy; then it reads the key. Both calls return
  -- true, and the value that is read is the one that was set, cut to the width of the key.
  pub modchip_settings_get-modchip_settings_set :
      (fuel key value old : ℕ)
      → key < 4
      → value < 2 ^ 32
      → world.busy < fuel
      → let (r, d) = modchip_settings_set (bus b hal world) fuel key value (quiet s) in
        (r ≡ some true)
        × ((modchip_settings_get (bus b hal world) key old d).0 ≡ (true, kept key value))
  modchip_settings_get-modchip_settings_set fuel key value old hk hv patient =
      let set = modchip_settings_set-accepted b hal world s idle fuel key value hk hv patient in
      (
        ap (λ r. r.0) set,
        ap (λ r. (modchip_settings_get (bus b hal world) key old r.1).0) set
            ∙ ap (λ r. r.0)
                (modchip_settings_get-answer b hal world t accepted.0 computes key old hk
                  (rw stored (kept-lt key value)))
            ∙ ap (λ v. (true, v)) stored,
      )
    where
      t : Chip
      t = (write_bytes b hal s (settings_set_request key value)).0

      accepted :
          (t.write_handler ≡ Handler.idle) × (t.settings ≡ (set_setting key value s.settings).0)
      accepted =
          let all = settings_set_request-accepted b hal s idle key value hk hv in (all.0, all.1)

      stored : get_setting key t.settings t.kv_get.response ≡ kept key value
      stored =
          ap (λ x. get_setting key x t.kv_get.response) accepted.1
          ∙ get_setting-set_setting key value t.kv_get.response s.settings hk valid
