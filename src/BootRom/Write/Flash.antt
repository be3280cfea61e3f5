-- ===== src/BootRom/Write/Flash.antt =====
-- fruitchip-fw/src/boot_rom/write/flash.c: the write lock, erasing and writing flash sectors, and
-- the reboot.
use fruitchip.Common.{
  or_byte, is_complement, ℕ, Bool, true, false, [], ◌∷◌, ◌+◌, ◌*◌, ◌&&◌, ◌==◌, if◌then◌else◌, leb,
  ltb, is_nonzero, u32, byte_of,
}
use fruitchip.Modchip.{
  cmd_get_partition_size, cmd_get_flash_sector_size, cmd_write_lock, cmd_write_flash_sector,
  cmd_erase_flash_sector, cmd_reboot, result_ok, result_err, partition_idx_fw,
  partition_idx_fw_update, partition_idx_apps, partition_idx_total, reboot_mode_update,
  reboot_mode_total, update_magic,
}
use fruitchip.Board.{
  Board, fw_partition_size, update_partition_offset, update_partition_size, apps_partition_offset,
  apps_partition_size, flash_sector_size,
}
use fruitchip.BootRom.Defs.{
  Source, Handler, Flash, Chip, Effect, start_status_code, start_data_with_status_code, set_scratch,
  watchdog_reboot,
}
use fruitchip.BootRom.Write.Step.{count_byte, goto, wait, finish, on_last_byte}

abbrev pub set_flash : Chip → Flash → Chip
set_flash c f = record c { flash = f }

-- The `switch` of `handle_write_get_partition_size`.
unfoldable pub partition_size : Board → ℕ → ℕ
partition_size b idx =
    if idx == partition_idx_fw
    then fw_partition_size
    else if idx == partition_idx_fw_update
    then update_partition_size
    else if idx == partition_idx_apps
    then apps_partition_size b.flash_size
    else 0

unfoldable pub handle_write_get_partition_size : Board → Chip → ℕ → Effect
unfolding partition_size
handle_write_get_partition_size b s w =
    let c = count_byte s in
    let f = c.flash in
    let n = c.cmd_byte_counter in
    if n == 3
    then (if w == byte_of cmd_get_partition_size 3 then wait c else finish c [])
    else if n == 4
    then wait (set_flash c (record f { partition_idx = w }))
    else if n == 5
    then (if is_complement 0xFF f.partition_idx w && ltb f.partition_idx partition_idx_total
        then (let response = partition_size b f.partition_idx in
            finish (set_flash c (record f { partition_idx_xor = w; response = response }))
              (start_data_with_status_code result_ok (Source.response_word response) 4 true ∷ []))
        else finish (set_flash c (record f { partition_idx_xor = w }))
            (start_status_code result_err ∷ []))
    else finish c []

unfoldable pub handle_write_get_flash_sector_size : Chip → ℕ → Effect
handle_write_get_flash_sector_size s w = on_last_byte cmd_get_flash_sector_size s w λ c.
    finish c
      (start_data_with_status_code result_ok (Source.response_word flash_sector_size) 4 true ∷ [])

unfoldable pub handle_write_write_lock : Chip → ℕ → Effect
handle_write_write_lock s w =
    let c = count_byte s in
    let f = c.flash in
    let n = c.cmd_byte_counter in
    if n == 3
    then (if w == byte_of cmd_write_lock 3 then wait c else finish c [])
    else if n == 4
    then wait (set_flash c (record f { value = w }))
    else if n == 5
    then (if is_complement 0xFF f.value w
        then finish
            (set_flash c (record f { value_xor = w; flash_write_lock = is_nonzero f.value }))
            (start_status_code result_ok ∷ [])
        else finish (set_flash c (record f { value_xor = w })) (start_status_code result_err ∷ []))
    else finish c []

-- The address check that the two flash commands share, once the complements have been found
-- right: the flash offset of the sector, and whether it is accepted. Both sums are `uint32_t`.
unfoldable pub locate_sector : Board → ℕ → ℕ → ℕ × Bool
locate_sector b partition sector =
    let offset = u32 (sector * flash_sector_size) in
    if partition == partition_idx_fw_update
    then (let flash_offset = u32 (update_partition_offset + offset) in
        (
          flash_offset,
          ltb (u32 (flash_offset + flash_sector_size))
              (update_partition_offset + update_partition_size),
        ))
    else if partition == partition_idx_apps
    then (let flash_offset = u32 (apps_partition_offset + offset) in
        (
          flash_offset,
          ltb (u32 (flash_offset + flash_sector_size))
              (apps_partition_offset + apps_partition_size b.flash_size),
        ))
    else (0, false)

-- The flash offset and its check, from the operands as they were received.
unfoldable pub checked_sector : Board → Flash → ℕ × Bool
unfolding locate_sector
checked_sector b f =
    if is_complement 0xFF f.partition_idx f.partition_idx_xor
      && is_complement 0xFFFFFFFF f.sector_idx f.sector_idx_xor
    then locate_sector b f.partition_idx f.sector_idx
    else (0, false)

-- The bytes 4 to 13 of both commands; `n` is the counter.
unfoldable pub take_sector_byte : Flash → ℕ → ℕ → Flash
take_sector_byte f n w =
    if n == 4
    then record f { partition_idx = w }
    else if n == 5
    then record f { partition_idx_xor = w }
    else if n == 6
    then record f { sector_idx = w }
    else if n == 7
    then record f { sector_idx = or_byte f.sector_idx w 8 }
    else if n == 8
    then record f { sector_idx = or_byte f.sector_idx w 16 }
    else if n == 9
    then record f { sector_idx = or_byte f.sector_idx w 24 }
    else if n == 10
    then record f { sector_idx_xor = w }
    else if n == 11
    then record f { sector_idx_xor = or_byte f.sector_idx_xor w 8 }
    else if n == 12
    then record f { sector_idx_xor = or_byte f.sector_idx_xor w 16 }
    else record f { sector_idx_xor = or_byte f.sector_idx_xor w 24 }

-- The bytes 14 to 21 of `handle_write_write_flash_sector`.
unfoldable pub take_crc_byte : Flash → ℕ → ℕ → Flash
take_crc_byte f n w =
    if n == 14
    then record f { sector_crc = w }
    else if n == 15
    then record f { sector_crc = or_byte f.sector_crc w 8 }
    else if n == 16
    then record f { sector_crc = or_byte f.sector_crc w 16 }
    else if n == 17
    then record f { sector_crc = or_byte f.sector_crc w 24 }
    else if n == 18
    then record f { sector_crc_xor = w }
    else if n == 19
    then record f { sector_crc_xor = or_byte f.sector_crc_xor w 8 }
    else if n == 20
    then record f { sector_crc_xor = or_byte f.sector_crc_xor w 16 }
    else record f { sector_crc_xor = or_byte f.sector_crc_xor w 24 }

unfoldable pub handle_write_write_flash_sector : Chip → ℕ → Effect
unfolding take_sector_byte take_crc_byte
handle_write_write_flash_sector s w =
    let c = count_byte s in
    let n = c.cmd_byte_counter in
    if n == 3
    then (if w == byte_of cmd_write_flash_sector 3 then wait c else finish c [])
    else if leb 4 n && leb n 13
    then wait (set_flash c (take_sector_byte c.flash n w))
    else if leb 14 n && leb n 20
    then wait (set_flash c (take_crc_byte c.flash n w))
    else if n == 21
    then wait (goto Handler.write_flash_sector_end (set_flash c (take_crc_byte c.flash n w)))
    else finish c []

-- The bytes 14 to 20 of `handle_write_erase_flash_sector`.
unfoldable pub take_count_byte : Flash → ℕ → ℕ → Flash
take_count_byte f n w =
    if n == 14
    then record f { sector_count = w }
    else if n == 15
    then record f { sector_count = or_byte f.sector_count w 8 }
    else if n == 16
    then record f { sector_count = or_byte f.sector_count w 16 }
    else if n == 17
    then record f { sector_count = or_byte f.sector_count w 24 }
    else if n == 18
    then record f { sector_count_xor = w }
    else if n == 19
    then record f { sector_count_xor = or_byte f.sector_count_xor w 8 }
    else record f { sector_count_xor = or_byte f.sector_count_xor w 16 }

unfoldable pub handle_write_erase_flash_sector : Chip → ℕ → Effect
unfolding take_sector_byte take_count_byte
handle_write_erase_flash_sector s w =
    let c = count_byte s in
    let n = c.cmd_byte_counter in
    if n == 3
    then (if w == byte_of cmd_erase_flash_sector 3 then wait c else finish c [])
    else if leb 4 n && leb n 13
    then wait (set_flash c (take_sector_byte c.flash n w))
    else if leb 14 n && leb n 19
    then wait (set_flash c (take_count_byte c.flash n w))
    else if n == 20
    then wait (goto Handler.erase_flash_sector_end (set_flash c (take_count_byte c.flash n w)))
    else finish c []

unfoldable pub handle_write_reboot : Chip → ℕ → Effect
handle_write_reboot s w =
    let c = count_byte s in
    let f = c.flash in
    let n = c.cmd_byte_counter in
    let d = set_flash c (record f { mode_xor = w }) in
    if n == 3
    then (if w == byte_of cmd_reboot 3 then wait c else finish c [])
    else if n == 4
    then wait (set_flash c (record f { mode = w }))
    else if n == 5
    then (if is_complement 0xFF f.mode w && ltb f.mode reboot_mode_total
        then (if f.mode == reboot_mode_update
            then finish (record d { scratch = update_magic })
                (set_scratch update_magic ∷ start_status_code result_ok ∷ watchdog_reboot 100 ∷ [])
            else finish d (start_status_code result_ok ∷ watchdog_reboot 100 ∷ []))
        else finish d (start_status_code result_err ∷ []))
    else finish c []
