-- ===== src/Hal.antt =====
-- What the firmware uses of the RP2040 and of its SDK, which this repository does not hold: the
-- flash, as seen through the address window at `XIP_BASE`, and the checksum of the DMA sniffer. The
-- wear-leveling library, a vendored one, is here by what its writes do to the flash.
use fruitchip.Common.{ℕ, List, ◌+◌, ◌^◌, ◌≤◌, ◌<◌, ◌≡◌, ◌⊎◌, length, get_or}
use fruitchip.Board.{settings_partition_offset, settings_partition_size}

-- The bytes that a read on the bus returns, by address.
abbrev pub Memory : Type 0
Memory = ℕ → ℕ

pub record Hal : Type 0 where
  pub xip_base : ℕ
  -- `flash_range_erase(flash_offs, count)` and `flash_range_program(flash_offs, data, count)`.
  pub flash_range_erase : ℕ → ℕ → Memory → Memory
  pub flash_range_program : ℕ → List ℕ → Memory → Memory
  -- `wear_leveling_write(address, value, length)`, whose copy in RAM is what it reads back of the flash.
  pub wear_leveling_write : ℕ → List ℕ → Memory → Memory
  -- The sniffed DMA transfer of some bytes from a start value.
  pub sniff_crc32 : List ℕ → ℕ → ℕ

-- What the SDK documents of the two flash operations: an erase sets the bytes of its range, a
-- program puts data where the range is erased, and neither touches another byte.
pub record FlashLaws (hal : Hal) : Type 0 where
  -- The window of 16 MB, the most that the RP2040 maps, lies below 2 ^ 32.
  pub window_fits : hal.xip_base + 2 ^ 24 ≤ 2 ^ 32
  pub erase_in :
      (off count : ℕ) (m : Memory) (i : ℕ)
      → i < count
      → hal.flash_range_erase off count m (hal.xip_base + (off + i)) ≡ 0xff
  pub erase_out :
      (off count : ℕ) (m : Memory) (a : ℕ)
      → (a < hal.xip_base + off) ⊎ (hal.xip_base + (off + count) ≤ a)
      → hal.flash_range_erase off count m a ≡ m a
  pub program_in :
      (off : ℕ) (bytes : List ℕ) (m : Memory) (i : ℕ)
      → i < length bytes
      → m (hal.xip_base + (off + i)) ≡ 0xff
      → hal.flash_range_program off bytes m (hal.xip_base + (off + i)) ≡ get_or bytes i 0
  pub program_out :
      (off : ℕ) (bytes : List ℕ) (m : Memory) (a : ℕ)
      → (a < hal.xip_base + off) ⊎ (hal.xip_base + (off + length bytes) ≤ a)
      → hal.flash_range_program off bytes m a ≡ m a

-- The addresses of the flash apart from the settings partition, which the build gives to the library
-- as its backing store.
abbrev pub OutsideSettings : Hal → ℕ → Type 0
OutsideSettings hal a =
    (a < hal.xip_base + settings_partition_offset)
    ⊎ (hal.xip_base + (settings_partition_offset + settings_partition_size) ≤ a)

-- What the library documents: it keeps to its backing store.
pub record StoreLaws (hal : Hal) : Type 0 where
  pub write_out :
      (address : ℕ) (value : List ℕ) (m : Memory) (a : ℕ)
      → OutsideSettings hal a
      → hal.wear_leveling_write address value m a ≡ m a
