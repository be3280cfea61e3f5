-- ===== src/BootRom/Write/Configuration.antt =====
-- fruitchip-fw/src/boot_rom/write/configuration.c: which GPIO pins the modchip uses.
use fruitchip.Common.{
  is_complement, ℕ, [], ◌∷◌, ◌+◌, ◌<<<◌, ◌==◌, if◌then◌else◌, u32, byte_of, bit_or, true, Option,
  none, some,
}
use fruitchip.Modchip.{
  cmd_pin_config, result_ok, result_err, pin_boot_rom_data, pin_boot_rom_ce, pin_boot_rom_oe,
  pin_reset,
}
use fruitchip.Board.{Board}
use fruitchip.BootRom.Defs.{Source, Chip, Effect, start_status_code, start_data_with_status_code}
use fruitchip.BootRom.Write.Step.{count_byte, wait, finish}

module _ (b : Board) where
  -- `1 << pin`, kept in a `uint32_t`.
  abbrev pub pin_bit : ℕ → ℕ
  pin_bit pin = u32 (1 <<< pin)

  -- The `switch` of `handle_write_pin_config`; `none` is its default case.
  unfoldable pub pin_mask : ℕ → Option ℕ
  pin_mask idx =
      if idx == pin_boot_rom_data
      then some (
          bit_or (pin_bit q) (
            bit_or (pin_bit (q + 1)) (
              bit_or (pin_bit (q + 2)) (
                bit_or (pin_bit (q + 3)) (
                  bit_or (pin_bit (q + 4))
                    (bit_or (pin_bit (q + 5)) (bit_or (pin_bit (q + 6)) (pin_bit (q + 7)))))))))
      else if idx == pin_boot_rom_ce
      then some (pin_bit b.boot_rom_ce_pin)
      else if idx == pin_boot_rom_oe
      then some (pin_bit b.boot_rom_oe_pin)
      else if idx == pin_reset
      then some (pin_bit b.rst_pin)
      else none
    where
      open b use {boot_rom_q0_pin as q}

  answer_pin_mask : Chip → Option ℕ → Effect
  answer_pin_mask c none = finish c (start_status_code result_err ∷ [])
  answer_pin_mask c (some mask) =
      finish (record c { pin = record (c.pin) { mask = mask } })
        (start_data_with_status_code result_ok (Source.response_word mask) 4 true ∷ [])

  unfoldable pub handle_write_pin_config : Chip → ℕ → Effect
  unfolding answer_pin_mask pin_mask
  handle_write_pin_config s w =
      let c = count_byte s in
      let p = c.pin in
      let n = c.cmd_byte_counter in
      if n == 3
      then (if w == byte_of cmd_pin_config 3 then wait c else finish c [])
      else if n == 4
      then wait (record c { pin = record p { idx = w } })
      else if n == 5
      then (let d = record c { pin = record p { idx_xor = w } } in
          if is_complement 0xFF p.idx w
          then answer_pin_mask d (pin_mask p.idx)
          else finish d (start_status_code result_err ∷ []))
      else finish c []
