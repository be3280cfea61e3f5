-- ===== src/BootRom/Write/Idle.antt =====
-- fruitchip-fw/src/boot_rom/write/idle.c: finding the handler of a command from its first three
-- bytes, and the call through `write_handler` of the main loop.
use fruitchip.Common.{ℕ, List, [], ◌∷◌, ◌++◌, ◌==◌, if◌then◌else◌, byte_of}
use fruitchip.Modchip
use fruitchip.Modchip.{cmd_prefix}
use fruitchip.Board.{Board}
use fruitchip.Hal.{Hal}
use fruitchip.BootRom.Defs.{Handler, Chip, Effect}
use fruitchip.BootRom.Write.Step.{count_byte, goto, wait}
use fruitchip.BootRom.Write.Payload.{
  handle_write_get_ee_stage1_size, handle_write_get_ee_stage2_size, handle_write_get_ee_stage2,
  handle_write_read_ee_stage3, read_ee_stage3,
}
use fruitchip.BootRom.Write.App.{handle_write_read_apps_partition, read_apps_partition}
use fruitchip.BootRom.Write.Kv.{handle_write_kv_get, handle_write_kv_set}
use fruitchip.BootRom.Write.Configuration.{handle_write_pin_config}
use fruitchip.BootRom.Write.Flash.{
  handle_write_get_partition_size, handle_write_get_flash_sector_size, handle_write_write_lock,
  handle_write_write_flash_sector, handle_write_erase_flash_sector, handle_write_reboot,
}
use fruitchip.BootRom.Write.Sector.{write_flash_sector, erase_flash_sector}
use fruitchip.BootRom.Write.Simple

-- The third byte of a command, `(uint8_t)(v >> 16)`.
abbrev code_byte : ℕ → ℕ
code_byte v = byte_of v 2

-- The `switch` of `handle_write_cmd_group0`.
unfoldable pub group0_handler : ℕ → Handler
group0_handler w =
    if w == code_byte Modchip.cmd_disable_next_osdsys_hook
    then Handler.disable_next_osdsys_hook
    else if w == code_byte Modchip.cmd_get_ee_stage1_size
    then Handler.get_ee_stage1_size
    else if w == code_byte Modchip.cmd_get_ee_stage2_size
    then Handler.get_ee_stage2_size
    else if w == code_byte Modchip.cmd_get_ee_stage2
    then Handler.get_ee_stage2
    else if w == code_byte Modchip.cmd_read_ee_stage3
    then Handler.read_ee_stage3
    else if w == code_byte Modchip.cmd_read_app
    then Handler.read_apps_partition
    else if w == code_byte Modchip.cmd_kv_get
    then Handler.kv_get
    else if w == code_byte Modchip.cmd_kv_set
    then Handler.kv_set
    else if w == code_byte Modchip.cmd_fw_git_rev
    then Handler.fw_git_rev
    else if w == code_byte Modchip.cmd_bootloader_git_rev
    then Handler.bootloader_git_rev
    else if w == code_byte Modchip.cmd_get_partition_size
    then Handler.get_partition_size
    else if w == code_byte Modchip.cmd_get_flash_sector_size
    then Handler.get_flash_sector_size
    else if w == code_byte Modchip.cmd_write_lock
    then Handler.write_lock
    else if w == code_byte Modchip.cmd_erase_flash_sector
    then Handler.erase_flash_sector
    else if w == code_byte Modchip.cmd_write_flash_sector
    then Handler.write_flash_sector
    else if w == code_byte Modchip.cmd_reboot
    then Handler.reboot
    else if w == code_byte Modchip.cmd_pin_config
    then Handler.pin_config
    else Handler.idle

unfoldable pub handle_write_cmd_group0 : Chip → ℕ → Effect
unfolding group0_handler
handle_write_cmd_group0 s w = wait (goto (group0_handler w) (count_byte s))

-- The `switch` of `handle_write_cmd_group1`.
unfoldable pub group1_handler : ℕ → Handler
group1_handler w =
    if w == code_byte Modchip.cmd_test_data_out_with_status_no_data_no_crc
    then Handler.test_with_status_no_data_no_crc
    else if w == code_byte Modchip.cmd_test_data_out_with_status_with_data_no_crc
    then Handler.test_with_status_with_data_no_crc
    else if w == code_byte Modchip.cmd_test_data_out_with_status_with_data_with_crc
    then Handler.test_with_status_with_data_with_crc
    else if w == code_byte Modchip.cmd_test_data_out_no_status_with_data_with_crc
    then Handler.test_no_status_with_data_with_crc
    else if w == code_byte Modchip.cmd_test_data_out_no_status_with_data_no_crc
    then Handler.test_no_status_with_data_no_crc
    else if w == code_byte Modchip.cmd_test_data_out_busy
    then Handler.test_busy_code
    else Handler.idle

unfoldable pub handle_write_cmd_group1 : Chip → ℕ → Effect
unfolding group1_handler
handle_write_cmd_group1 s w = wait (goto (group1_handler w) (count_byte s))

unfoldable pub handle_write_cmd : Chip → ℕ → Effect
handle_write_cmd s w =
    let c = count_byte s in
    if w == Modchip.cmd_group0
    then wait (goto Handler.cmd_group0 c)
    else if w == Modchip.cmd_group1
    then wait (goto Handler.cmd_group1 c)
    else wait (goto Handler.idle c)

unfoldable pub handle_write_idle : Chip → ℕ → Effect
handle_write_idle s w =
    let c = record s { cmd_byte_counter = 0 } in
    if w == cmd_prefix then wait (goto Handler.cmd c) else wait c

module _ (b : Board) (hal : Hal) where
  -- The function that a value of `write_handler` points to.
  unfoldable pub call_handler : Handler → Chip → ℕ → Effect
  unfolding handle_write_idle handle_write_cmd handle_write_cmd_group0 handle_write_cmd_group1
      handle_write_get_ee_stage1_size handle_write_get_ee_stage2_size handle_write_get_ee_stage2
      handle_write_read_ee_stage3 read_ee_stage3 handle_write_read_apps_partition
      read_apps_partition handle_write_kv_get handle_write_kv_set handle_write_pin_config
      handle_write_get_partition_size handle_write_get_flash_sector_size handle_write_write_lock
      handle_write_write_flash_sector handle_write_erase_flash_sector handle_write_reboot
      write_flash_sector erase_flash_sector Simple.handle_write_disable_next_osdsys_hook
      Simple.handle_write_fw_git_rev Simple.handle_write_bootloader_git_rev
      Simple.handle_write_test_data_out_with_status_no_data_no_crc
      Simple.handle_write_test_data_out_with_status_with_data_no_crc
      Simple.handle_write_test_data_out_with_status_with_data_with_crc
      Simple.handle_write_test_data_out_no_status_with_data_with_crc
      Simple.handle_write_test_data_out_no_status_with_data_no_crc
      Simple.handle_write_test_data_out_busy_code
  call_handler Handler.idle = handle_write_idle
  call_handler Handler.cmd = handle_write_cmd
  call_handler Handler.cmd_group0 = handle_write_cmd_group0
  call_handler Handler.cmd_group1 = handle_write_cmd_group1
  call_handler Handler.disable_next_osdsys_hook = Simple.handle_write_disable_next_osdsys_hook
  call_handler Handler.get_ee_stage1_size = handle_write_get_ee_stage1_size
  call_handler Handler.get_ee_stage2_size = handle_write_get_ee_stage2_size
  call_handler Handler.get_ee_stage2 = handle_write_get_ee_stage2 b
  call_handler Handler.read_ee_stage3 = handle_write_read_ee_stage3
  call_handler Handler.read_ee_stage3_end = read_ee_stage3 b
  call_handler Handler.read_apps_partition = handle_write_read_apps_partition hal
  call_handler Handler.read_apps_partition_end = read_apps_partition
  call_handler Handler.kv_get = handle_write_kv_get
  call_handler Handler.kv_set = handle_write_kv_set hal
  call_handler Handler.fw_git_rev = Simple.handle_write_fw_git_rev
  call_handler Handler.bootloader_git_rev = Simple.handle_write_bootloader_git_rev
  call_handler Handler.get_partition_size = handle_write_get_partition_size b
  call_handler Handler.get_flash_sector_size = handle_write_get_flash_sector_size
  call_handler Handler.write_lock = handle_write_write_lock
  call_handler Handler.erase_flash_sector = handle_write_erase_flash_sector
  call_handler Handler.erase_flash_sector_end = erase_flash_sector b hal
  call_handler Handler.write_flash_sector = handle_write_write_flash_sector
  call_handler Handler.write_flash_sector_end = write_flash_sector b hal
  call_handler Handler.reboot = handle_write_reboot
  call_handler Handler.pin_config = handle_write_pin_config b
  call_handler Handler.test_with_status_no_data_no_crc =
      Simple.handle_write_test_data_out_with_status_no_data_no_crc
  call_handler Handler.test_with_status_with_data_no_crc =
      Simple.handle_write_test_data_out_with_status_with_data_no_crc
  call_handler Handler.test_with_status_with_data_with_crc =
      Simple.handle_write_test_data_out_with_status_with_data_with_crc
  call_handler Handler.test_no_status_with_data_with_crc =
      Simple.handle_write_test_data_out_no_status_with_data_with_crc
  call_handler Handler.test_no_status_with_data_no_crc =
      Simple.handle_write_test_data_out_no_status_with_data_no_crc
  call_handler Handler.test_busy_code = Simple.handle_write_test_data_out_busy_code

  -- `write_handler(byte)` of the main loop.
  unfoldable pub write_byte : Chip → ℕ → Effect
  unfolding call_handler
  write_byte s w = call_handler s.write_handler s w

  -- The main loop over the bytes that are written, with the calls made for each.
  unfoldable pub write_bytes : Chip → List ℕ → Effect
  unfolding write_byte
  write_bytes s [] = (s, [])
  write_bytes s (w ∷ ws) =
      let (s', calls) = write_byte s w in let (t, more) = write_bytes s' ws in (t, calls ++ more)
