-- ===== src/BootRom/Write/Simple.antt =====
-- The commands of one byte after their code, with no operand: patch_control.c, version.c and
-- test.c of fruitchip-fw/src/boot_rom/write.
use fruitchip.Common.{ℕ, true, false, [], ◌∷◌}
use fruitchip.Modchip.{
  cmd_disable_next_osdsys_hook, cmd_fw_git_rev, cmd_bootloader_git_rev, result_ok,
  cmd_test_data_out_with_status_no_data_no_crc, cmd_test_data_out_with_status_with_data_no_crc,
  cmd_test_data_out_with_status_with_data_with_crc, cmd_test_data_out_no_status_with_data_with_crc,
  cmd_test_data_out_no_status_with_data_no_crc, cmd_test_data_out_busy,
}
use fruitchip.BootRom.Defs.{
  Source, Chip, Effect, start_status_code, start_data_with_status_code,
  start_data_without_status_code, set_data, start_busy_code, stop_busy_code,
}
use fruitchip.BootRom.Write.Step.{finish, on_last_byte}

unfoldable pub handle_write_disable_next_osdsys_hook : Chip → ℕ → Effect
handle_write_disable_next_osdsys_hook s w =
    on_last_byte cmd_disable_next_osdsys_hook s w
      λ c. finish (record c { disable_next_osdsys_hook = true }) (start_status_code result_ok ∷ [])

unfoldable pub handle_write_fw_git_rev : Chip → ℕ → Effect
handle_write_fw_git_rev s w =
    on_last_byte cmd_fw_git_rev s w
      λ c. finish c (start_data_with_status_code result_ok Source.git_rev 8 true ∷ [])

unfoldable pub handle_write_bootloader_git_rev : Chip → ℕ → Effect
handle_write_bootloader_git_rev s w =
    on_last_byte cmd_bootloader_git_rev s w
      λ c. finish c (start_data_with_status_code result_ok Source.bootloader_git_rev 8 true ∷ [])

-- `sizeof(placeholder)`.
abbrev pub placeholder_size : ℕ
placeholder_size = 15

unfoldable pub handle_write_test_data_out_with_status_no_data_no_crc : Chip → ℕ → Effect
handle_write_test_data_out_with_status_no_data_no_crc s w =
    on_last_byte cmd_test_data_out_with_status_no_data_no_crc s w
      λ c. finish c (start_status_code result_ok ∷ [])

unfoldable pub handle_write_test_data_out_with_status_with_data_no_crc : Chip → ℕ → Effect
handle_write_test_data_out_with_status_with_data_no_crc s w =
    on_last_byte cmd_test_data_out_with_status_with_data_no_crc s w λ c.
      finish c
        (start_data_with_status_code result_ok Source.placeholder placeholder_size false ∷ [])

unfoldable pub handle_write_test_data_out_with_status_with_data_with_crc : Chip → ℕ → Effect
handle_write_test_data_out_with_status_with_data_with_crc s w =
    on_last_byte cmd_test_data_out_with_status_with_data_with_crc s w λ c.
      finish c (start_data_with_status_code result_ok Source.placeholder placeholder_size true ∷ [])

unfoldable pub handle_write_test_data_out_no_status_with_data_with_crc : Chip → ℕ → Effect
handle_write_test_data_out_no_status_with_data_with_crc s w =
    on_last_byte cmd_test_data_out_no_status_with_data_with_crc s w λ c.
      finish c
        (set_data Source.placeholder placeholder_size ∷ start_data_without_status_code true ∷ [])

unfoldable pub handle_write_test_data_out_no_status_with_data_no_crc : Chip → ℕ → Effect
handle_write_test_data_out_no_status_with_data_no_crc s w =
    on_last_byte cmd_test_data_out_no_status_with_data_no_crc s w λ c.
      finish c
        (set_data Source.placeholder placeholder_size ∷ start_data_without_status_code false ∷ [])

unfoldable pub handle_write_test_data_out_busy_code : Chip → ℕ → Effect
handle_write_test_data_out_busy_code s w =
    on_last_byte cmd_test_data_out_busy s w
      λ c. finish c (start_busy_code ∷ stop_busy_code result_ok ∷ [])
