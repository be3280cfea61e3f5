-- ===== src/Tests/Read.antt =====
-- The console's reads on the simulated machine.
use fruitchip.Common.{
  ℕ, true, false, List, [], ◌∷◌, ◌++◌, ◌≡◌, ◌≢◌, refl, arith, length, replicate, length-replicate,
  All,
}
use fruitchip.BootRom.Defs.{Source, set_data, start_data_without_status_code, set_led_osdhook}
use fruitchip.BootRom.Read.{ReadHandler, Reader, read_all, skip_osdsys}
use fruitchip.BootRom.Read.Osdsys.{osdsys_header, osdsys_hook}
use fruitchip.BootRom.Read.Iopboot.{NoIop, read_all-NoIop}
use fruitchip.Tests.Machine.{tiny}

-- The statics after power-on.
abbrev fresh : Reader
fresh = record {
  read_handler = ReadHandler.idle;
  osdsys_counter = 0;
  iopboot_counter = 0;
  disable_next_osdsys_hook = false;
  disable_next_iopboot_hook = true;
}

abbrev hook_disabled : Reader
hook_disabled = record fresh { disable_next_osdsys_hook = true }

abbrev gap : List ℕ
gap = replicate 20 0

zeros-All : (n : ℕ) → All (λ (r : ℕ). r ≢ 0x7F) (replicate n 0)
zeros-All ℕ.zero = tt
zeros-All (ℕ.suc n) = ((λ e. absurd (ground (arith, e))), zeros-All n)

gap_fits : All (λ (r : ℕ). r ≢ 0x7F) gap × (length gap ≡ 20)
gap_fits = (zeros-All 20, refl)

abbrev front : List ℕ
front = replicate 502 0

osdsys_hook_example :
    read_all tiny fresh
      (osdsys_header gap gap (front ++ (0xE0 ∷ (3 ∷ 0 ∷ 0 ∷ 0 ∷ []) ++ 0x00 ∷ [])))
    ≡ (
      skip_osdsys fresh,
      set_data Source.ee_stage1 1400 ∷ start_data_without_status_code true ∷ set_led_osdhook ∷ [],
    )
osdsys_hook_example =
    osdsys_hook tiny fresh gap gap front (3 ∷ 0 ∷ 0 ∷ 0 ∷ []) refl refl refl gap_fits gap_fits
      (length-replicate {A = ℕ} 502 0) refl

-- The whole pattern that iopboot.c looks for.
abbrev iopboot_code : List ℕ
iopboot_code =
    0x07 ∷ 0x00 ∷ 0x40 ∷ 0x10 ∷ 0x00 ∷ 0x00 ∷ 0x00 ∷ 0x00 ∷ 0x21 ∷ 0x20 ∷ 0x00 ∷ 0x02 ∷ 0x21 ∷ 0x28
    ∷ 0x00 ∷ 0x00 ∷ 0x21 ∷ 0x30 ∷ 0x00 ∷ 0x00 ∷ 0x21 ∷ 0x38 ∷ []

read_all-NoIop_example :
    let (t, calls) = read_all tiny fresh iopboot_code in
    NoIop calls × (t.disable_next_iopboot_hook ≡ true)
read_all-NoIop_example = read_all-NoIop tiny fresh iopboot_code refl
