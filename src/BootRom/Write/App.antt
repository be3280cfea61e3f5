-- ===== src/BootRom/Write/App.antt =====
-- fruitchip-fw/src/boot_rom/write/read_app.c: reading a range of an entry of the apps partition.
use fruitchip.Common.{
  or_byte, is_complement, ℕ, [], ◌∷◌, ◌+◌, ◌&&◌, ◌==◌, if◌then◌else◌, leb, ltb, to_ℕ, is_nonzero,
  byte_of, u32,
}
use fruitchip.Modchip.{cmd_read_app, result_ok, result_err}
use fruitchip.Hal.{Memory, Hal}
use fruitchip.Apps.{
  apps_partition_detect, apps_partition_entries_count, apps_partition_entry_addr,
  apps_partition_entry_length,
}
use fruitchip.BootRom.Defs.{
  Source, Handler, ReadApp, Chip, Effect, start_status_code, start_data_with_status_code,
}
use fruitchip.BootRom.Write.Step.{count_byte, goto, wait, finish}

-- The static `read_apps_partition`, which takes the complement of `with_crc` and reads no flash.
unfoldable pub read_apps_partition : Chip → ℕ → Effect
read_apps_partition s with_crc_xor =
    let is_valid_with_crc = is_complement 0xFF (to_ℕ with_crc) with_crc_xor in
    if is_valid_apps_partition
      && (is_valid_read_offset && (is_valid_read_size && (is_valid_app_idx && is_valid_with_crc)))
    then finish s (
        start_data_with_status_code result_ok (Source.flash_window read_addr) read_size with_crc
        ∷ [])
    else finish s (start_status_code result_err ∷ [])
  where
    open s.app use {
      is_valid_apps_partition, is_valid_read_offset, is_valid_read_size, is_valid_app_idx,
      read_addr, read_size, with_crc,
    }

module _ (hal : Hal) where
  -- The bytes 4 to 21 of the command, and the checks made along with them; `n` is the counter.
  unfoldable pub take_app_byte : Memory → ReadApp → ℕ → ℕ → ReadApp
  take_app_byte m p n w =
      if n == 4
      then record p { app_idx = w }
      else if n == 5
      then record p {
        app_idx_xor = w;
        is_valid_app_idx =
            is_complement 0xFF p.app_idx w && ltb p.app_idx (apps_partition_entries_count hal m);
      }
      else if n == 6
      then record p { read_offset = w }
      else if n == 7
      then record p { read_offset = or_byte p.read_offset w 8 }
      else if n == 8
      then record p { read_offset = or_byte p.read_offset w 16 }
      else if n == 9
      then record p {
        read_offset = or_byte p.read_offset w 24;
        is_valid_apps_partition = apps_partition_detect hal m;
      }
      else if n == 10
      then record p { read_offset_xor = w }
      else if n == 11
      then record p { read_offset_xor = or_byte p.read_offset_xor w 8 }
      else if n == 12
      then record p { read_offset_xor = or_byte p.read_offset_xor w 16 }
      else if n == 13
      then record p {
        read_offset_xor = or_byte p.read_offset_xor w 24;
        is_valid_read_offset =
            is_complement 0xFFFFFFFF p.read_offset (or_byte p.read_offset_xor w 24)
            && ltb p.read_offset (apps_partition_entry_length hal m p.app_idx);
      }
      else if n == 14
      then record p { read_size = w }
      else if n == 15
      then record p { read_size = or_byte p.read_size w 8 }
      else if n == 16
      then record p { read_size = or_byte p.read_size w 16 }
      else if n == 17
      then record p {
        read_size = or_byte p.read_size w 24;
        read_addr = u32 (apps_partition_entry_addr hal m p.app_idx + p.read_offset);
      }
      else if n == 18
      then record p { read_size_xor = w }
      else if n == 19
      then record p { read_size_xor = or_byte p.read_size_xor w 8 }
      else if n == 20
      then record p { read_size_xor = or_byte p.read_size_xor w 16 }
      else record p {
        read_size_xor = or_byte p.read_size_xor w 24;
        is_valid_read_size = is_complement 0xFFFFFFFF p.read_size (or_byte p.read_size_xor w 24);
      }

  unfoldable pub handle_write_read_apps_partition : Chip → ℕ → Effect
  unfolding take_app_byte
  handle_write_read_apps_partition s w =
      let c = count_byte s in
      let n = c.cmd_byte_counter in
      if n == 3
      then (if w == byte_of cmd_read_app 3 then wait c else finish c [])
      else if leb 4 n && leb n 21
      then wait (record c { app = take_app_byte c.memory c.app n w })
      else if n == 22
      then wait (
          goto Handler.read_apps_partition_end
            (record c { app = record (c.app) { with_crc = is_nonzero w } }))
      else finish c []
