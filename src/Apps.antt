-- ===== src/Apps.antt =====
-- fruitchip-fw/include/apps.h: the header of the apps partition, read through the flash window.
use fruitchip.Common.{ℕ, Bool, ◌+◌, ◌*◌, ◌&&◌, ◌==◌, u32, ◌<<<◌}
use fruitchip.Board.{apps_partition_offset}
use fruitchip.Hal.{Memory, Hal}

-- `*(uint32_t *)address`, little-endian.
abbrev pub load32 : Memory → ℕ → ℕ
load32 m a = m a + (m (a + 1) <<< 8) + (m (a + 2) <<< 16) + (m (a + 3) <<< 24)

-- `APPS_PARTITION_MAGIC2` and `APPS_PARTITION_VERSION`.
abbrev pub apps_partition_magic2 : ℕ
apps_partition_magic2 = 0x4FB80AB4

abbrev pub apps_partition_version : ℕ
apps_partition_version = 2

module _ (hal : Hal) where
  -- `APPS_PARTITION_ADDR`.
  abbrev pub apps_partition_addr : ℕ
  apps_partition_addr = hal.xip_base + apps_partition_offset

  -- The `memcmp` with "APPS" compares four bytes.
  unfoldable pub apps_partition_detect : Memory → Bool
  apps_partition_detect m =
      m apps_partition_addr == b'A'
      && (m (apps_partition_addr + 1) == b'P'
          && (m (apps_partition_addr + 2) == b'P'
              && (m (apps_partition_addr + 3) == b'S'
                  && (load32 m (apps_partition_addr + 0x4) == apps_partition_magic2
                      && load32 m (apps_partition_addr + 0x8) == apps_partition_version))))

  unfoldable pub apps_partition_entries_count : Memory → ℕ
  apps_partition_entries_count m = load32 m (apps_partition_addr + 0xC)

  unfoldable pub apps_partition_entry_addr : Memory → ℕ → ℕ
  apps_partition_entry_addr m idx =
      let offset = load32 m (u32 (apps_partition_addr + 0x10 + idx * 2 * 4)) in
      u32 (apps_partition_addr + offset)

  unfoldable pub apps_partition_entry_length : Memory → ℕ → ℕ
  apps_partition_entry_length m idx = load32 m (u32 (apps_partition_addr + 0x14 + idx * 2 * 4))
