-- ===== src/Tests/Settings.antt =====
-- The key-value commands on the simulated machine.
use fruitchip.Common.{ℕ, [], ◌∷◌, ◌<◌, ◌≡◌, ◌≢◌, true, refl, arith}
use fruitchip.Modchip.{result_ok}
use fruitchip.Host.Requests.{settings_get_request, settings_set_request}
use fruitchip.BootRom.Defs.{Source, start_data_with_status_code}
use fruitchip.BootRom.Write.Idle.{write_bytes}
use fruitchip.BootRom.Commands.Settings.{IsValid, settings_get-settings_set}
use fruitchip.Tests.Machine.{sim, tiny, powered_on}

powered_on-IsValid : IsValid powered_on.settings
powered_on-IsValid = record {
  delay_fits = omega arith;
  item_fits = omega arith;
  options_fit = omega arith;
}

settings_get-settings_set_example :
    let t = (write_bytes tiny sim powered_on (settings_set_request 1 0x1234E)).0 in
    ((write_bytes tiny sim t (settings_get_request 1)).1
      ≡ start_data_with_status_code result_ok (Source.response_word 0x234E) 4 true ∷ [])
    × ((other : ℕ)
        → other < 4
        → other ≢ 1
        → (write_bytes tiny sim t (settings_get_request other)).1
          ≡ (write_bytes tiny sim powered_on (settings_get_request other)).1)
settings_get-settings_set_example =
    settings_get-settings_set tiny sim powered_on refl 1 0x1234E (omega arith) (omega arith)
      powered_on-IsValid
