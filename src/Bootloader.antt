-- ===== src/Bootloader.antt =====
-- fruitchip-fw-bootloader/src/main.c: the check of the two images, the update, and the choice of
-- what to start. Clock, LED and DMA set-up and the messages are left out; a DMA transfer is the
-- bytes that it reads. All addresses lie below 2 ^ 32.
pub mod Operations
pub mod Copy
pub mod Validity
pub mod Update
pub mod Boot
pub mod PowerLoss
use fruitchip.Common.{
  ℕ, zero, suc, Bool, true, false, not, List, [], ◌∷◌, ◌++◌, ◌+◌, ◌||◌, ◌==◌, if◌then◌else◌, ltb,
  word32,
}
use fruitchip.Modchip.{update_magic}
use fruitchip.Board.{
  fw_partition_offset, fw_partition_size, update_partition_offset, flash_sector_size,
}
use fruitchip.Hal.{Memory, Hal}
use fruitchip.BootRom.Write.Sector.{same_bytes}

-- A call of the SDK that changes the flash.
pub data FlashOp : Type 0 where
  flash_range_erase : ℕ → ℕ → FlashOp
  flash_range_program : ℕ → List ℕ → FlashOp

-- How `main` ends: a jump into the firmware, or into the USB bootloader of the chip.
pub data Outcome : Type 0 where
  start_firmware usb_boot : Outcome

-- `n` bytes from an address on.
abbrev pub read_bytes : Memory → ℕ → ℕ → List ℕ
read_bytes m a zero = []
read_bytes m a (suc n) = m a ∷ read_bytes m (a + 1) n

module _ (hal : Hal) where
  abbrev pub fw_partition_addr : ℕ
  fw_partition_addr = hal.xip_base + fw_partition_offset

  abbrev pub update_partition_addr : ℕ
  update_partition_addr = hal.xip_base + update_partition_offset

  -- The little-endian word at `x + 0xfc`.
  unfoldable pub bl2crc : Memory → ℕ → ℕ
  bl2crc m x = word32 (m (x + 0xfc)) (m (x + 0xfd)) (m (x + 0xfe)) (m (x + 0xff))

  unfoldable pub is_fw_valid : Memory → Bool
  unfolding bl2crc
  is_fw_valid m =
      hal.sniff_crc32 (read_bytes m fw_partition_addr 252) 0xffffffff == bl2crc m fw_partition_addr

  unfoldable pub is_update_valid : Memory → Bool
  unfolding bl2crc
  is_update_valid m =
      hal.sniff_crc32 (read_bytes m update_partition_addr 252) 0xffffffff
      == bl2crc m update_partition_addr

  -- What a call does to the memory.
  abbrev pub perform : FlashOp → Memory → Memory
  perform (flash_range_erase off count) m = hal.flash_range_erase off count m
  perform (flash_range_program off bytes) m = hal.flash_range_program off bytes m

  abbrev pub perform_all : List FlashOp → Memory → Memory
  perform_all [] m = m
  perform_all (op ∷ ops) m = perform_all ops (perform op m)

  -- One round of the loop: the calls that it makes.
  unfoldable pub copy_sector : ℕ → Memory → List FlashOp
  copy_sector offset m =
      let sector_buffer = read_bytes m (update_partition_addr + offset) flash_sector_size in
      let is_copied = same_bytes m (fw_partition_addr + offset) sector_buffer in
      let fw_offset = fw_partition_offset + offset in
      if not is_copied
      then flash_range_erase fw_offset flash_sector_size
        ∷ flash_range_program fw_offset sector_buffer
        ∷ []
      else []

  -- The loop from an offset on, at most `n` rounds.
  unfoldable pub copy_sectors : ℕ → ℕ → Memory → List FlashOp
  unfolding copy_sector
  copy_sectors zero offset m = []
  copy_sectors (suc n) offset m =
      let round = copy_sector offset m in
      let rest = copy_sectors n (offset + flash_sector_size) (perform_all round m) in
      if ltb offset fw_partition_size then round ++ rest else []

  -- The calls of `try_update_firmware`, in order, each made on the memory that the ones before it
  -- leave. The loop goes through the sectors 1 to 161 of the partition.
  unfoldable pub try_update_firmware : Memory → List FlashOp
  unfolding is_update_valid copy_sectors
  try_update_firmware m =
      if is_update_valid m
      then (let erase_first = flash_range_erase fw_partition_offset flash_sector_size in
          let erased = perform erase_first m in
          let copies = copy_sectors 161 flash_sector_size erased in
          let copied = perform_all copies erased in
          let sector_buffer = read_bytes copied update_partition_addr flash_sector_size in
          erase_first ∷ (copies ++ flash_range_program fw_partition_offset sector_buffer ∷ []))
      else []

  unfoldable pub try_start_firmware : Memory → Outcome
  unfolding is_fw_valid
  try_start_firmware m = if is_fw_valid m then Outcome.start_firmware else Outcome.usb_boot

  -- `main` with the value of `watchdog_hw->scratch[0]`: the memory that it leaves, the scratch
  -- register, and how it ends.
  unfoldable pub boot : ℕ → Memory → Memory × ℕ × Outcome
  unfolding is_fw_valid try_update_firmware try_start_firmware
  boot scratch m =
      let is_fw_ok = is_fw_valid m in
      let update_requested = scratch == update_magic in
      let should_update = update_requested || not is_fw_ok in
      let t = perform_all (if should_update then try_update_firmware m else []) m in
      (t, 0, try_start_firmware t)
