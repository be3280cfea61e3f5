-- ===== src/Tests/Machine.antt =====
-- A simulated flash that satisfies the documented laws, the configuration of the Waveshare
-- RP2040-Tiny (fruitchip-fw-board/waveshare-rp2040-tiny.cmake), and a chip after power-on.
use fruitchip.Common.{
  ℕ, true, false, List, ◌+◌, ◌-◌, ◌≡◌, arith, ltb, leb, ◌&&◌, if◌then◌else◌, length, get_or,
  replicate, length-replicate,
}
use fruitchip.Crc32.{crc32_from}
use fruitchip.Board.{Board, FlashSize, settings_partition_offset, settings_partition_size}
use fruitchip.Hal.{Memory, Hal, FlashLaws, StoreLaws}
use fruitchip.BootRom.Defs.{Handler, Chip}

-- `XIP_BASE` of the RP2040.
abbrev pub xip : ℕ
xip = 0x10000000

abbrev erase : ℕ → ℕ → Memory → Memory
erase off count m a = if leb (xip + off) a && ltb a (xip + (off + count)) then 0xff else m a

abbrev program : ℕ → List ℕ → Memory → Memory
program off bytes m a =
    if leb (xip + off) a && ltb a (xip + (off + length bytes))
    then get_or bytes (a - (xip + off)) 0
    else m a

-- The backing store of the settings takes the bytes at their address, and no others.
abbrev append_record : ℕ → List ℕ → Memory → Memory
append_record address value m a =
    if leb (xip + (settings_partition_offset + address)) a
      && ltb a (xip + (settings_partition_offset + settings_partition_size))
    then get_or value (a - (xip + (settings_partition_offset + address))) (m a)
    else m a

abbrev pub sim : Hal
sim = record {
  xip_base = xip;
  flash_range_erase = erase;
  flash_range_program = program;
  wear_leveling_write = append_record;
  sniff_crc32 = λ bytes start. crc32_from start bytes;
}

cancel : (off i : ℕ) → xip + (off + i) - (xip + off) ≡ i
cancel off i = omega arith

pub sim-FlashLaws : FlashLaws sim
sim-FlashLaws = record {
  window_fits = omega arith;
  erase_in = λ off count m i h. ground arith;
  erase_out = λ off count m a h. ground arith;
  program_in = λ off bytes m i h e. ground (arith, cancel off i);
  program_out = λ off bytes m a h. ground arith;
}

pub sim-StoreLaws : StoreLaws sim
sim-StoreLaws = record { write_out = λ address value m a h. ground arith }

abbrev pub tiny : Board
tiny = record {
  flash_size = FlashSize.mb2;
  boot_rom_q0_pin = 0;
  boot_rom_ce_pin = 9;
  boot_rom_oe_pin = 8;
  rst_pin = 10;
  ee_stage1_size = 1400;
  ee_stage2_size = 2000;
  ee_stage3_size = 100000;
  iop_stage1_size = 0;
}

-- A zeroed sector buffer, and a sector of one byte repeated.
zeroed : ℕ → List ℕ
zeroed n = replicate n 0

pub zero_sector : List ℕ
unfolding zeroed
zero_sector = zeroed 4096

pub length-zero_sector : length zero_sector ≡ 4096
unfolding zero_sector
length-zero_sector = length-replicate {A = ℕ} 4096 0

-- The statics are zero; `flash_write_lock` begins closed, and `unlocked` is the chip after the
-- console has opened it.
abbrev pub powered_on : Chip
powered_on = record {
  cmd_byte_counter = 0;
  write_handler = Handler.idle;
  disable_next_osdsys_hook = false;
  payload = record {
    read_offset = 0;
    read_offset_xor = 0;
    read_size = 0;
    read_size_xor = 0;
    with_crc = false;
  };
  app = record {
    read_offset = 0;
    read_offset_xor = 0;
    read_size = 0;
    read_size_xor = 0;
    app_idx = 0;
    app_idx_xor = 0;
    with_crc = false;
    is_valid_apps_partition = false;
    is_valid_read_offset = false;
    is_valid_read_size = false;
    is_valid_app_idx = false;
    read_addr = 0;
  };
  kv_get = record { idx = 0; idx_xor = 0; response = 0 };
  kv_set = record { idx = 0; idx_xor = 0; value = 0; value_xor = 0 };
  pin = record { idx = 0; idx_xor = 0; mask = 0 };
  flash = record {
    partition_idx = 0;
    partition_idx_xor = 0;
    sector_idx = 0;
    sector_idx_xor = 0;
    sector_crc = 0;
    sector_crc_xor = 0;
    sector_count = 0;
    sector_count_xor = 0;
    flash_write_lock = true;
    response = 0;
    value = 0;
    value_xor = 0;
    sector = zero_sector;
    mode = 0;
    mode_xor = 0;
  };
  settings = record {
    version_magic = 0x73de0002;
    menu_autoboot = true;
    menu_autoboot_delay_sec = 10;
    menu_autoboot_item_idx = 0;
    menu_osdsys_options = 0;
  };
  memory = λ a. 0xff;
  scratch = 0;
}

abbrev pub unlocked : Chip
unlocked = record powered_on { flash = record (powered_on.flash) { flash_write_lock = false } }
