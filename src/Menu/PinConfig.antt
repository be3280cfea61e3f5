-- ===== src/Menu/PinConfig.antt =====
-- fruitchip-include/binary_info_parser.h and fruitchip-menu/src/pin_config.c: the pins that an update
-- names, and those of the modchip. The update is what lies at an offset from its start, an offset being
-- a pointer less the start's, modulo 2^32; what lies behind the update is not fixed.
pub mod Table
pub mod Labels
use fruitchip.Common.{
  ℕ, zero, suc, Bool, true, false, ◌&&◌, ◌==◌, List, [], ◌∷◌, ◌+◌, ◌*◌, ◌/◌, if◌then◌else◌, ltb,
  leb, u32, sub32, word16, word32, bit_or, Option, none, some,
}
use fruitchip.Board.{fw_partition_offset}
use fruitchip.Modchip.{pin_boot_rom_data, pin_boot_rom_ce, pin_boot_rom_oe, pin_reset}
use fruitchip.Host.Bus.{Bus, M, ◌>>=◌, ◌>>◌, return, cmd_retries}
use fruitchip.Host.Version.{modchip_pin_config_with_retry}
use fruitchip.Menu.Checking.{Pins}

-- The constants of the SDK's headers for binary information, and where a structure has its fields.
pub record BinaryInfo : Type 0 where
  pub marker_start : ℕ
  pub marker_end : ℕ
  pub tag_raspberry_pi : ℕ
  pub type_pins_with_name : ℕ
  pub type_offset : ℕ
  pub tag_offset : ℕ
  pub pin_mask_offset : ℕ
  pub label_offset : ℕ

abbrev pub Program : Type 0
Program = ℕ → ℕ

abbrev pub program_half : Program → ℕ → ℕ
program_half fw a = word16 (fw a) (fw (u32 (a + 1)))

abbrev pub program_word : Program → ℕ → ℕ
program_word fw a = word32 (fw a) (fw (u32 (a + 1))) (fw (u32 (a + 2))) (fw (u32 (a + 3)))

-- `BOOT2_SIZE`, and the number of offsets that the loop tries.
abbrev pub boot2_size : ℕ
boot2_size = 256

abbrev pub marker_rounds : ℕ
marker_rounds = boot2_size / 4

-- The address of a row's first word in a mapping table.
abbrev pub row_at : ℕ → ℕ → ℕ
row_at mapping_table i = u32 (mapping_table + 4 * i)

-- The loop over the rows: it has no bound in the source, and none is a loop that has not ended.
unfoldable pub map_address_from : Program → ℕ → ℕ → ℕ → ℕ → Option ℕ
map_address_from fw mapping_table addr zero i = none
map_address_from fw mapping_table addr (suc fuel) i =
    let source_addr_start = program_word fw (row_at mapping_table i) in
    let dest_addr_start = program_word fw (row_at mapping_table (i + 1)) in
    let dest_addr_end = program_word fw (row_at mapping_table (i + 2)) in
    let rest = map_address_from fw mapping_table addr fuel (i + 3) in
    if source_addr_start == 0
    then some addr
    else if leb dest_addr_start addr && leb addr dest_addr_end
    then some (sub32 (u32 (source_addr_start + addr)) dest_addr_start)
    else rest

abbrev pub binary_info_map_address : ℕ → Program → ℕ → ℕ → Option ℕ
binary_info_map_address fuel fw mapping_table addr = map_address_from fw mapping_table addr fuel 0

-- `BASE_ADDRESS` and `convert_ram_address`.
abbrev pub base_address : ℕ
base_address = 0x10000000 + fw_partition_offset

abbrev pub convert_ram_address : ℕ → ℕ
convert_ram_address ram_addr = sub32 ram_addr base_address

-- `strcmp` with a text that has no zero.
abbrev pub is_label : Program → ℕ → List ℕ → Bool
is_label fw a [] = fw a == 0
is_label fw a (x ∷ xs) = (fw a == x) && is_label fw (u32 (a + 1)) xs

abbrev pub boot_rom_text : List ℕ → List ℕ
boot_rom_text xs = b'B' ∷ b'o' ∷ b'o' ∷ b't' ∷ b' ' ∷ b'R' ∷ b'O' ∷ b'M' ∷ b' ' ∷ xs

-- The mask after a comparison with a text.
abbrev pub or_if : Bool → ℕ → ℕ → ℕ
or_if c pin_mask mask = if c then bit_or mask pin_mask else mask

-- `n` lines of comparisons with a data pin's name, from digit `d` on.
abbrev pub or_data_pins : ℕ → ℕ → Program → ℕ → ℕ → ℕ → ℕ
or_data_pins zero d fw label pin_mask mask = mask
or_data_pins (suc n) d fw label pin_mask mask =
    or_data_pins n (d + 1) fw label pin_mask
      (or_if (is_label fw label (boot_rom_text (b'Q' ∷ d ∷ []))) pin_mask mask)

-- What a named pin adds; every pointer to a mask is given.
unfoldable pub add_pins : Program → ℕ → ℕ → Pins → Pins
add_pins fw label pin_mask p = record {
  pin_mask_data = or_data_pins 8 b'0' fw label pin_mask p.pin_mask_data;
  pin_mask_ce = or_if (is_label fw label (boot_rom_text (b'C' ∷ b'E' ∷ []))) pin_mask p.pin_mask_ce;
  pin_mask_oe = or_if (is_label fw label (boot_rom_text (b'O' ∷ b'E' ∷ []))) pin_mask p.pin_mask_oe;
  pin_mask_rst = or_if (is_label fw label (b'R' ∷ b'S' ∷ b'T' ∷ [])) pin_mask p.pin_mask_rst;
}

module _ (info : BinaryInfo) (fw : Program) where
  unfoldable pub find_marker_from : ℕ → ℕ → Option ℕ
  find_marker_from zero offset = none
  find_marker_from (suc n) offset =
      let marker = boot2_size + offset in
      let rest = find_marker_from n (offset + 4) in
      if program_word fw marker == info.marker_start
      then if program_word fw (marker + 16) == info.marker_end then some marker else rest
      else rest

  abbrev pub binary_info_find_marker : Option ℕ
  binary_info_find_marker = find_marker_from marker_rounds 0

  -- Entry number `i`, and whether it names pins.
  abbrev pub entry_at : ℕ → ℕ → ℕ
  entry_at entries_start i =
      convert_ram_address (program_word fw (convert_ram_address (u32 (entries_start + 4 * i))))

  abbrev pub names_pins : ℕ → Bool
  names_pins entry =
      (program_half fw (u32 (entry + info.tag_offset)) == info.tag_raspberry_pi)
      && (program_half fw (u32 (entry + info.type_offset)) == info.type_pins_with_name)

  -- An entry with its label at an address that has been mapped, if it could be.
  abbrev pub add_entry : ℕ → Option ℕ → Pins → Option Pins
  add_entry entry none p = none
  add_entry entry (some label) p = some (
      add_pins fw (convert_ram_address label) (program_word fw (u32 (entry + info.pin_mask_offset)))
        p)

  unfoldable pub read_entry : ℕ → ℕ → ℕ → Pins → Option Pins
  read_entry fuel mapping_table entry p =
      if names_pins entry
      then add_entry entry
          (binary_info_map_address fuel fw mapping_table
            (program_word fw (u32 (entry + info.label_offset))))
          p
      else some p

  abbrev pub and_then : Option Pins → (Pins → Option Pins) → Option Pins
  and_then none k = none
  and_then (some p) k = k p

  -- The loop over the entries: `n` are left, and the next one is number `i`.
  unfoldable pub read_entries : ℕ → ℕ → ℕ → ℕ → ℕ → Pins → Option Pins
  read_entries fuel mapping_table entries_start zero i p = some p
  read_entries fuel mapping_table entries_start (suc n) i p =
      and_then (read_entry fuel mapping_table (entry_at entries_start i) p)
        (λ q. read_entries fuel mapping_table entries_start n (i + 1) q)

  -- What follows the search of the marker; `fuel` is for the loops over the mapping table.
  unfoldable pub pins_at_marker : ℕ → Option ℕ → Pins → Option Pins
  pins_at_marker fuel none p = some p
  pins_at_marker fuel (some marker) p =
      let entries_start = program_word fw (marker + 4) in
      let entries_end = program_word fw (marker + 8) in
      read_entries fuel (convert_ram_address (program_word fw (marker + 12))) entries_start
        (sub32 entries_end entries_start / 4) 0 p

  abbrev pub pin_config_get_from_update : ℕ → Pins → Option Pins
  pin_config_get_from_update fuel p = pins_at_marker fuel binary_info_find_marker p

unfoldable pub pin_config_get_current : {S : Type 0} → Bus S → Pins → M S Pins
pin_config_get_current bus p = do
  pin_mask_data ← modchip_pin_config_with_retry bus pin_boot_rom_data p.pin_mask_data cmd_retries
  pin_mask_ce ← modchip_pin_config_with_retry bus pin_boot_rom_ce p.pin_mask_ce cmd_retries
  pin_mask_oe ← modchip_pin_config_with_retry bus pin_boot_rom_oe p.pin_mask_oe cmd_retries
  pin_mask_rst ← modchip_pin_config_with_retry bus pin_reset p.pin_mask_rst cmd_retries
  return (record {
    pin_mask_data = pin_mask_data;
    pin_mask_ce = pin_mask_ce;
    pin_mask_oe = pin_mask_oe;
    pin_mask_rst = pin_mask_rst;
  })
