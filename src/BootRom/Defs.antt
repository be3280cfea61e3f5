-- ===== src/BootRom/Defs.antt =====
-- The state that the write handlers of fruitchip-fw/src/boot_rom keep, the globals of handler.c
-- among it, and the calls that they make of the rest of the firmware.
use fruitchip.Common.{ℕ, Bool, List}
use fruitchip.Hal.{Memory}
use fruitchip.Settings.{Settings, StoreWrite}

-- What a data-out transfer reads: an image in the firmware, an address of the flash window, or
-- the value of a static response word.
pub data Source : Type 0 where
  ee_stage1 ee_stage1_size ee_stage2_size ee_stage2 iop_stage1 : Source
  ee_stage3 : ℕ → Source
  flash_window : ℕ → Source
  response_word : ℕ → Source
  git_rev bootloader_git_rev placeholder : Source

-- The calls of data_out.c, settings.c and the SDK that a handler makes, in order.
pub data Call : Type 0 where
  start_status_code : ℕ → Call
  start_data_with_status_code : ℕ → Source → ℕ → Bool → Call
  start_data_without_status_code : Bool → Call
  set_data : Source → ℕ → Call
  start_busy_code : Call
  stop_busy_code : ℕ → Call
  store : StoreWrite → Call
  flash_erase : ℕ → ℕ → Call
  flash_program : ℕ → List ℕ → Call
  set_scratch : ℕ → Call
  watchdog_reboot : ℕ → Call
  set_led_osdhook : Call

-- `write_handler`: the function that takes the next byte. A name with `_end` is the static
-- function of the file to which the handler of that command passes its last bytes on.
pub data Handler : Type 0 where
  idle cmd cmd_group0 cmd_group1 : Handler
  disable_next_osdsys_hook get_ee_stage1_size get_ee_stage2_size get_ee_stage2 : Handler
  read_ee_stage3 read_ee_stage3_end read_apps_partition read_apps_partition_end : Handler
  kv_get kv_set fw_git_rev bootloader_git_rev : Handler
  get_partition_size get_flash_sector_size write_lock : Handler
  erase_flash_sector erase_flash_sector_end write_flash_sector write_flash_sector_end : Handler
  reboot pin_config : Handler
  test_with_status_no_data_no_crc test_with_status_with_data_no_crc : Handler
  test_with_status_with_data_with_crc test_no_status_with_data_with_crc : Handler
  test_no_status_with_data_no_crc test_busy_code : Handler

-- The statics of get_payload.c.
pub record Payload : Type 0 where
  pub read_offset : ℕ
  pub read_offset_xor : ℕ
  pub read_size : ℕ
  pub read_size_xor : ℕ
  pub with_crc : Bool

-- The statics of read_app.c.
pub record ReadApp : Type 0 where
  pub read_offset : ℕ
  pub read_offset_xor : ℕ
  pub read_size : ℕ
  pub read_size_xor : ℕ
  pub app_idx : ℕ
  pub app_idx_xor : ℕ
  pub with_crc : Bool
  pub is_valid_apps_partition : Bool
  pub is_valid_read_offset : Bool
  pub is_valid_read_size : Bool
  pub is_valid_app_idx : Bool
  pub read_addr : ℕ

-- The statics of `handle_write_kv_get` and `handle_write_kv_set`.
pub record KvGet : Type 0 where
  pub idx : ℕ
  pub idx_xor : ℕ
  pub response : ℕ

pub record KvSet : Type 0 where
  pub idx : ℕ
  pub idx_xor : ℕ
  pub value : ℕ
  pub value_xor : ℕ

-- The statics of `handle_write_pin_config`.
pub record PinConfig : Type 0 where
  pub idx : ℕ
  pub idx_xor : ℕ
  pub mask : ℕ

-- The statics of flash.c; `value` and `mode` are those of `handle_write_write_lock` and
-- `handle_write_reboot`, and `sector` that of `write_flash_sector`.
pub record Flash : Type 0 where
  pub partition_idx : ℕ
  pub partition_idx_xor : ℕ
  pub sector_idx : ℕ
  pub sector_idx_xor : ℕ
  pub sector_crc : ℕ
  pub sector_crc_xor : ℕ
  pub sector_count : ℕ
  pub sector_count_xor : ℕ
  pub flash_write_lock : Bool
  pub response : ℕ
  pub value : ℕ
  pub value_xor : ℕ
  pub sector : List ℕ
  pub mode : ℕ
  pub mode_xor : ℕ

-- Everything that a byte written on the bus can change.
pub record Chip : Type 0 where
  pub cmd_byte_counter : ℕ
  pub write_handler : Handler
  pub disable_next_osdsys_hook : Bool
  pub payload : Payload
  pub app : ReadApp
  pub kv_get : KvGet
  pub kv_set : KvSet
  pub pin : PinConfig
  pub flash : Flash
  pub settings : Settings
  pub memory : Memory
  pub scratch : ℕ

-- What one byte does: the new state and the calls made.
abbrev pub Effect : Type 0
Effect = Chip × List Call
