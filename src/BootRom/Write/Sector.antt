-- ===== src/BootRom/Write/Sector.antt =====
-- The static functions of fruitchip-fw/src/boot_rom/write/flash.c that end the two flash
-- commands: `write_flash_sector`, which also receives the data, and `erase_flash_sector`.
use fruitchip.Common.{
  or_byte, is_complement, ℕ, Bool, true, not, List, [], ◌∷◌, ◌+◌, ◌-◌, ◌*◌, ◌&&◌, ◌==◌,
  if◌then◌else◌, leb, u32, zero, suc, set,
}
use fruitchip.Modchip.{result_ok, result_err}
use fruitchip.Board.{Board, flash_sector_size}
use fruitchip.Hal.{Memory, Hal}
use fruitchip.BootRom.Defs.{
  Chip, Effect, start_busy_code, stop_busy_code, flash_erase, flash_program,
}
use fruitchip.BootRom.Write.Step.{count_byte, wait, finish}
use fruitchip.BootRom.Write.Flash.{set_flash, checked_sector}

-- `memcmp(address, bytes, sizeof(bytes)) == 0`.
unfoldable pub same_bytes : Memory → ℕ → List ℕ → Bool
same_bytes m a [] = true
same_bytes m a (x ∷ xs) = m a == x && same_bytes m (a + 1) xs

-- The loop that looks for a byte other than 0xFF; `n` bytes are left. An address is a `uint32_t`.
unfoldable pub is_erased : Memory → ℕ → ℕ → Bool
is_erased m a zero = true
is_erased m a (suc n) = m a == 0xFF && is_erased m (u32 (a + 1)) n

module _ (b : Board) (hal : Hal) where
  -- What follows the last data byte of `write_flash_sector`.
  unfoldable pub commit_sector : Chip → Effect
  unfolding checked_sector
  commit_sector c =
      let f = c.flash in
      let (flash_offset, is_valid_addr) = checked_sector b f in
      let is_valid_block_crc =
        is_complement 0xFFFFFFFF f.sector_crc f.sector_crc_xor
        && hal.sniff_crc32 f.sector 0xFFFFFFFF == f.sector_crc in
      if not f.flash_write_lock && (is_valid_addr && is_valid_block_crc)
      then (if same_bytes c.memory (u32 (hal.xip_base + flash_offset)) f.sector
          then finish c (start_busy_code ∷ stop_busy_code result_ok ∷ [])
          else finish
              (record c {
                memory =
                    hal.flash_range_program flash_offset f.sector
                      (hal.flash_range_erase flash_offset flash_sector_size c.memory);
              })
              (start_busy_code
                ∷ flash_erase flash_offset flash_sector_size
                ∷ flash_program flash_offset f.sector
                ∷ stop_busy_code result_ok
                ∷ []))
      else finish c (start_busy_code ∷ stop_busy_code result_err ∷ [])

  -- `write_flash_sector`: bytes 22 to 22 + 4096 - 1 are the data.
  unfoldable pub write_flash_sector : Chip → ℕ → Effect
  write_flash_sector s w =
      let c = count_byte s in
      let n = c.cmd_byte_counter in
      let d = set_flash c (record (c.flash) { sector = set c.flash.sector (n - 22) w }) in
      if leb 22 n && leb n (flash_sector_size + 22 - 1)
      then (if n == flash_sector_size + 22 - 1 then commit_sector d else wait d)
      else finish c []

  -- What follows the last operand byte of `erase_flash_sector`. Only the first sector is looked
  -- at before all of them are erased.
  unfoldable pub commit_erase : Chip → Effect
  unfolding checked_sector
  commit_erase c =
      let f = c.flash in
      let (flash_offset, is_valid_addr) = checked_sector b f in
      let is_valid_sector_count = is_complement 0xFFFFFFFF f.sector_count f.sector_count_xor in
      if not f.flash_write_lock && (is_valid_addr && is_valid_sector_count)
      then (let sectors_size = u32 (f.sector_count * flash_sector_size) in
          if is_erased c.memory (u32 (hal.xip_base + flash_offset)) flash_sector_size
          then finish c (start_busy_code ∷ stop_busy_code result_ok ∷ [])
          else finish
              (record c { memory = hal.flash_range_erase flash_offset sectors_size c.memory })
              (start_busy_code
                ∷ flash_erase flash_offset sectors_size
                ∷ stop_busy_code result_ok
                ∷ []))
      else finish c (start_busy_code ∷ stop_busy_code result_err ∷ [])

  unfoldable pub erase_flash_sector : Chip → ℕ → Effect
  erase_flash_sector s w =
      let c = count_byte s in
      let f = c.flash in
      if c.cmd_byte_counter == 21
      then commit_erase
          (set_flash c (record f { sector_count_xor = or_byte f.sector_count_xor w 24 }))
      else finish c []
