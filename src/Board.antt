-- ===== src/Board.antt =====
-- What the build fixes: fruitchip-fw-board/board_configuration.cmake (the partitions of the
-- flash) and the pins of a board. The sizes of the embedded loader images come from the build.
use fruitchip.Common.{ℕ, ◌+◌, ◌*◌, ◌-◌}

-- `FLASH_SIZE_MB`; any other value stops the build.
pub data FlashSize : Type 0 where
  mb2 mb4 mb8 mb16 : FlashSize

abbrev pub bootloader_partition_size : ℕ
bootloader_partition_size = 32 * 1024

abbrev pub fw_partition_offset : ℕ
fw_partition_offset = bootloader_partition_size

abbrev pub fw_partition_size : ℕ
fw_partition_size = 680 * 1024 - bootloader_partition_size

abbrev pub update_partition_offset : ℕ
update_partition_offset = bootloader_partition_size + fw_partition_size

abbrev pub update_partition_size : ℕ
update_partition_size = fw_partition_size

abbrev pub settings_partition_size : ℕ
settings_partition_size = 8192

-- `SETTINGS_PARTITION_OFFSET`, where the store of the settings begins.
abbrev pub settings_partition_offset : ℕ
settings_partition_offset = bootloader_partition_size + fw_partition_size + update_partition_size

abbrev pub apps_partition_offset : ℕ
apps_partition_offset =
    bootloader_partition_size + fw_partition_size + update_partition_size + settings_partition_size

abbrev pub apps_partition_size : FlashSize → ℕ
apps_partition_size FlashSize.mb2 = 712 * 1024
apps_partition_size FlashSize.mb4 = 2760 * 1024
apps_partition_size FlashSize.mb8 = 6856 * 1024
apps_partition_size FlashSize.mb16 = 15048 * 1024

-- `FLASH_SECTOR_SIZE`, which the bootloader asserts to be 4096.
abbrev pub flash_sector_size : ℕ
flash_sector_size = 4096

-- `PICO_FLASH_SIZE_BYTES`.
abbrev pub flash_size_bytes : FlashSize → ℕ
flash_size_bytes FlashSize.mb2 = 2 * 1024 * 1024
flash_size_bytes FlashSize.mb4 = 4 * 1024 * 1024
flash_size_bytes FlashSize.mb8 = 8 * 1024 * 1024
flash_size_bytes FlashSize.mb16 = 16 * 1024 * 1024

pub record Board : Type 0 where
  pub flash_size : FlashSize
  pub boot_rom_q0_pin : ℕ
  pub boot_rom_ce_pin : ℕ
  pub boot_rom_oe_pin : ℕ
  pub rst_pin : ℕ
  pub ee_stage1_size : ℕ
  pub ee_stage2_size : ℕ
  pub ee_stage3_size : ℕ
  pub iop_stage1_size : ℕ
