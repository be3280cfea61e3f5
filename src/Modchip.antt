-- ===== src/Modchip.antt =====
-- The words of the command protocol: fruitchip-include/modchip/cmd.h and modchip/errno.h.
use fruitchip.Common.{ℕ, ◌<<<◌, bit_or}

abbrev pub cmd_prefix : ℕ
cmd_prefix = 0xcf

abbrev pub cmd_group0 : ℕ
cmd_group0 = 0x0c

abbrev pub cmd_group1 : ℕ
cmd_group1 = 0x1c

-- `((code << 16) | (group << 8) | MODCHIP_CMD_PREFIX)`
abbrev pub cmd_word : ℕ → ℕ → ℕ
cmd_word code group = bit_or (bit_or (code <<< 16) (group <<< 8)) cmd_prefix

abbrev pub cmd_test_data_out_with_status_no_data_no_crc : ℕ
cmd_test_data_out_with_status_no_data_no_crc = cmd_word 0x18cd cmd_group1

abbrev pub cmd_test_data_out_with_status_with_data_no_crc : ℕ
cmd_test_data_out_with_status_with_data_no_crc = cmd_word 0x2a0b cmd_group1

abbrev pub cmd_test_data_out_with_status_with_data_with_crc : ℕ
cmd_test_data_out_with_status_with_data_with_crc = cmd_word 0x7864 cmd_group1

abbrev pub cmd_test_data_out_no_status_with_data_with_crc : ℕ
cmd_test_data_out_no_status_with_data_with_crc = cmd_word 0x241d cmd_group1

abbrev pub cmd_test_data_out_no_status_with_data_no_crc : ℕ
cmd_test_data_out_no_status_with_data_no_crc = cmd_word 0x111f cmd_group1

abbrev pub cmd_test_data_out_busy : ℕ
cmd_test_data_out_busy = cmd_word 0x5ca7 cmd_group1

abbrev pub cmd_disable_next_osdsys_hook : ℕ
cmd_disable_next_osdsys_hook = cmd_word 0x1c61 cmd_group0

abbrev pub cmd_get_ee_stage1_size : ℕ
cmd_get_ee_stage1_size = cmd_word 0xd008 cmd_group0

abbrev pub cmd_get_ee_stage2_size : ℕ
cmd_get_ee_stage2_size = cmd_word 0xc46e cmd_group0

abbrev pub cmd_get_ee_stage2 : ℕ
cmd_get_ee_stage2 = cmd_word 0x882c cmd_group0

abbrev pub cmd_read_ee_stage3 : ℕ
cmd_read_ee_stage3 = cmd_word 0x7338 cmd_group0

abbrev pub cmd_read_app : ℕ
cmd_read_app = cmd_word 0x33b8 cmd_group0

abbrev pub cmd_kv_get : ℕ
cmd_kv_get = cmd_word 0x1d27 cmd_group0

abbrev pub cmd_kv_set : ℕ
cmd_kv_set = cmd_word 0x40b1 cmd_group0

abbrev pub cmd_fw_git_rev : ℕ
cmd_fw_git_rev = cmd_word 0x1e6a cmd_group0

abbrev pub cmd_bootloader_git_rev : ℕ
cmd_bootloader_git_rev = cmd_word 0x1b57 cmd_group0

abbrev pub cmd_get_partition_size : ℕ
cmd_get_partition_size = cmd_word 0x503a cmd_group0

abbrev pub cmd_get_flash_sector_size : ℕ
cmd_get_flash_sector_size = cmd_word 0x675d cmd_group0

abbrev pub cmd_write_lock : ℕ
cmd_write_lock = cmd_word 0x0797 cmd_group0

abbrev pub cmd_erase_flash_sector : ℕ
cmd_erase_flash_sector = cmd_word 0x289a cmd_group0

abbrev pub cmd_write_flash_sector : ℕ
cmd_write_flash_sector = cmd_word 0x3477 cmd_group0

abbrev pub cmd_reboot : ℕ
cmd_reboot = cmd_word 0x6d06 cmd_group0

abbrev pub cmd_pin_config : ℕ
cmd_pin_config = cmd_word 0x0431 cmd_group0

-- Status codes.
abbrev pub result_ok : ℕ
result_ok = 0x56276fb7

abbrev pub result_err : ℕ
result_err = 0x0b4f7d09

abbrev pub result_busy : ℕ
result_busy = 0x77941eda

-- Keys of the key-value commands: `MODCHIP_SETTINGS_*`.
abbrev pub settings_menu_autoboot : ℕ
settings_menu_autoboot = 0

abbrev pub settings_menu_autoboot_delay : ℕ
settings_menu_autoboot_delay = 1

abbrev pub settings_menu_autoboot_item_idx : ℕ
settings_menu_autoboot_item_idx = 2

abbrev pub settings_menu_osdsys_settings : ℕ
settings_menu_osdsys_settings = 3

abbrev pub settings_keys_total : ℕ
settings_keys_total = 4

-- `enum modchip_partition`.
abbrev pub partition_idx_fw : ℕ
partition_idx_fw = 0

abbrev pub partition_idx_fw_update : ℕ
partition_idx_fw_update = 1

abbrev pub partition_idx_apps : ℕ
partition_idx_apps = 2

abbrev pub partition_idx_total : ℕ
partition_idx_total = 3

-- `enum modchip_reboot_mode`.
abbrev pub reboot_mode_simple : ℕ
reboot_mode_simple = 0

abbrev pub reboot_mode_update : ℕ
reboot_mode_update = 1

abbrev pub reboot_mode_total : ℕ
reboot_mode_total = 2

-- `enum modchip_pin`.
abbrev pub pin_boot_rom_data : ℕ
pin_boot_rom_data = 0

abbrev pub pin_boot_rom_ce : ℕ
pin_boot_rom_ce = 1

abbrev pub pin_boot_rom_oe : ℕ
pin_boot_rom_oe = 2

abbrev pub pin_reset : ℕ
pin_reset = 3

-- `MODCHIP_UPDATE_MAGIC`.
abbrev pub update_magic : ℕ
update_magic = 0x3d0f56d0
