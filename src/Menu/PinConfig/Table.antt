-- ===== src/Menu/PinConfig/Table.antt =====
-- A mapping table that ends is read to its end, and the pins of an update are those of its entries.
use fruitchip.Common.{
  ℕ, zero, suc, Bool, true, false, ◌&&◌, ◌==◌, List, [], ◌∷◌, ◌+◌, ◌/◌, ◌<◌, ◌≡◌, ◌≢◌, refl, arith,
  ap, ◌∙◌, inl, inr, if◌then◌else◌, leb, u32, sub32, Option, some, length, Bool-cases,
}
use fruitchip.Menu.Checking.{Pins}
use fruitchip.Menu.PinConfig.{
  BinaryInfo, Program, program_word, row_at, map_address_from, convert_ram_address, add_pins,
  binary_info_find_marker, entry_at, names_pins, add_entry, read_entry, read_entries,
  pins_at_marker, pin_config_get_from_update,
}

-- A row: where its range comes from, and the first and the last address of the range.
pub record Row : Type 0 where
  pub source_addr_start : ℕ
  pub dest_addr_start : ℕ
  pub dest_addr_end : ℕ

-- The rows of a table from word `i` on, with a zero behind them.
abbrev pub HoldsRows : Program → ℕ → ℕ → List Row → Type 0
HoldsRows fw table i [] = program_word fw (row_at table i) ≡ 0
HoldsRows fw table i (r ∷ rows) =
    (program_word fw (row_at table i) ≡ r.source_addr_start)
    × (r.source_addr_start ≢ 0)
    × (program_word fw (row_at table (i + 1)) ≡ r.dest_addr_start)
    × (program_word fw (row_at table (i + 2)) ≡ r.dest_addr_end)
    × HoldsRows fw table (i + 3) rows

-- An address by the first row that has it in its range.
abbrev pub mapped : List Row → ℕ → ℕ
mapped [] addr = addr
mapped (r ∷ rows) addr =
    if leb r.dest_addr_start addr && leb addr r.dest_addr_end
    then sub32 (u32 (r.source_addr_start + addr)) r.dest_addr_start
    else mapped rows addr

map_address_from-mapped :
    (fw : Program) (table addr fuel i : ℕ) (rows : List Row)
    → HoldsRows fw table i rows
    → length rows < fuel
    → map_address_from fw table addr fuel i ≡ some (mapped rows addr)
unfolding map_address_from
map_address_from-mapped fw table addr zero i rows holds h = absurd (omega arith)
map_address_from-mapped fw table addr (suc fuel) i [] holds h = rw holds refl
map_address_from-mapped fw table addr (suc fuel) i (r ∷ rows) holds h =
    rw
      (
        holds.0,
        nonzero,
        holds.2,
        holds.3,
        map_address_from-mapped fw table addr fuel (i + 3) rows holds.4 (omega arith),
      )
      (chosen (leb r.dest_addr_start addr && leb addr r.dest_addr_end) _ _)
  where
    nonzero : (r.source_addr_start == 0) ≡ false
    nonzero = ground (arith, holds.1)

    chosen : (c : Bool) (a b : ℕ) → (if c then some a else some b) ≡ some (if c then a else b)
    chosen true a b = refl
    chosen false a b = refl

module _ (info : BinaryInfo) (fw : Program) (rows : List Row) where
  -- The entries that a header lists, and what the ones that name pins add.
  abbrev pub listed : ℕ → ℕ → ℕ → List ℕ
  listed entries_start zero i = []
  listed entries_start (suc n) i = entry_at info fw entries_start i ∷ listed entries_start n (i + 1)

  abbrev pub pins_of_entry : ℕ → Pins → Pins
  pins_of_entry entry p =
      if names_pins info fw entry
      then add_pins fw
          (convert_ram_address (mapped rows (program_word fw (u32 (entry + info.label_offset)))))
          (program_word fw (u32 (entry + info.pin_mask_offset))) p
      else p

  abbrev pub pins_of : List ℕ → Pins → Pins
  pins_of [] p = p
  pins_of (entry ∷ entries) p = pins_of entries (pins_of_entry entry p)

  module _ (fuel table : ℕ) (holds : HoldsRows fw table 0 rows) (enough : length rows < fuel) where
    read_entry-pins_of_entry :
        (entry : ℕ) (p : Pins)
        → read_entry info fw fuel table entry p ≡ some (pins_of_entry entry p)
    unfolding read_entry
    read_entry-pins_of_entry entry p = elim (Bool-cases (names_pins info fw entry)) [
      | inr e ↦ rw e refl
      | inl e ↦ rw e (
          ap (λ (a : Option ℕ). add_entry info fw entry a p)
            (map_address_from-mapped fw table (program_word fw (u32 (entry + info.label_offset)))
              fuel 0 rows holds enough))
    ]

    read_entries-pins_of :
        (entries_start n i : ℕ) (p : Pins)
        → read_entries info fw fuel table entries_start n i p
          ≡ some (pins_of (listed entries_start n i) p)
    unfolding read_entries
    read_entries-pins_of entries_start zero i p = refl
    read_entries-pins_of entries_start (suc n) i p =
        rw (read_entry-pins_of_entry (entry_at info fw entries_start i) p)
          (read_entries-pins_of entries_start n (i + 1) _)

  -- The entries of an update whose mapping table ends, with more fuel than it has rows.
  pub pin_config_get_from_update-pins_of :
      (fuel marker : ℕ) (p : Pins)
      → binary_info_find_marker info fw ≡ some marker
      → HoldsRows fw (convert_ram_address (program_word fw (marker + 12))) 0 rows
      → length rows < fuel
      → let entries_start = program_word fw (marker + 4) in
        let entries_end = program_word fw (marker + 8) in
        pin_config_get_from_update info fw fuel p
        ≡ some (pins_of (listed entries_start (sub32 entries_end entries_start / 4) 0) p)
  unfolding pins_at_marker
  pin_config_get_from_update-pins_of fuel marker p found holds enough =
      ap (λ (o : Option ℕ). pins_at_marker info fw fuel o p) found
      ∙ read_entries-pins_of fuel _ holds enough (program_word fw (marker + 4)) _ 0 p
