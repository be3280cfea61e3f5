-- ===== src/BootRom/Commands/EraseSector.antt =====
-- `MODCHIP_CMD_ERASE_FLASH_SECTOR` as the console sends it.
use fruitchip.Common.{
  ℕ, Bool, false, List, [], ◌∷◌, ◌+◌, ◌≡◌, bit_xor, if◌then◌else◌, is_complement, u32,
}
use fruitchip.Modchip.{result_ok}
use fruitchip.Board.{Board}
use fruitchip.Hal.{Memory, Hal}
use fruitchip.BootRom.Defs.{Call, Handler, Chip, start_busy_code, stop_busy_code, flash_erase}
use fruitchip.BootRom.Write.Sector.{is_erased}
use fruitchip.BootRom.Commands.Flash.{erase_ordered}

module _ (b : Board) (hal : Hal) (c : Chip) where
  abbrev count_valid : Bool
  count_valid = is_complement 0xFFFFFFFF c.flash.sector_count c.flash.sector_count_xor

  -- The memory and the calls of an accepted erase of `size` bytes.
  abbrev pub erased_from : ℕ → ℕ → Memory × List Call
  erased_from off size =
      if is_erased c.memory (u32 (hal.xip_base + off)) 4096
      then (c.memory, start_busy_code ∷ stop_busy_code result_ok ∷ [])
      else (
        hal.flash_range_erase off size c.memory,
        start_busy_code ∷ flash_erase off size ∷ stop_busy_code result_ok ∷ [],
      )

  abbrev pub ErasedAs : ℕ → ℕ → Memory × List Call → Type 0
  ErasedAs off size result = result ≡ erased_from off size

module _ (b : Board) (hal : Hal) (s : Chip) (idle : s.write_handler ≡ Handler.idle)
    (unlocked : s.flash.flash_write_lock ≡ false) where
  abbrev erase_received : ℕ → ℕ → ℕ → Chip
  erase_received p sector count =
      erase_ordered b hal s idle 21 Handler.erase_flash_sector_end p (bit_xor p 0xFF) sector
        (bit_xor sector 0xFFFFFFFF) count (bit_xor count 0xFFFFFFFF)
