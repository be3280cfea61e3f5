-- ===== src/Menu/PinConfig/Labels.antt =====
-- The pins of an update by the labels of its entries.
use fruitchip.Common.{
  ℕ, zero, suc, Bool, true, false, ◌&&◌, ◌||◌, ◌==◌, ==_iff, List, [], ◌∷◌, ◌+◌, ◌/◌, ◌<◌, ◌≡◌, ◌≢◌,
  ◌⊎◌, refl, arith, ap, ◌∙◌, inl, inr, if◌then◌else◌, u32, sub32, bit_or, some, length, Bool-cases,
  All,
}
use fruitchip.Menu.Checking.{Pins}
use fruitchip.Menu.PinConfig.{
  BinaryInfo, Program, program_word, program_half, is_label, or_data_pins, boot_rom_text,
  convert_ram_address, add_pins, binary_info_find_marker, entry_at, names_pins,
  pin_config_get_from_update,
}
use fruitchip.Menu.PinConfig.Table.{
  Row, HoldsRows, mapped, listed, pins_of_entry, pins_of, pin_config_get_from_update-pins_of,
}

abbrev pub same_text : List ℕ → List ℕ → Bool
same_text [] [] = true
same_text [] (y ∷ ys) = false
same_text (x ∷ xs) [] = false
same_text (x ∷ xs) (y ∷ ys) = (x == y) && same_text xs ys

same_text_sound : (xs ys : List ℕ) → same_text xs ys ≡ true → xs ≡ ys
same_text_sound [] [] e = refl
same_text_sound [] (y ∷ ys) e = absurd (ground (arith, e))
same_text_sound (x ∷ xs) [] e = absurd (ground (arith, e))
same_text_sound (x ∷ xs) (y ∷ ys) e =
    ap (λ h. h ∷ xs) ((==_iff x y).0 (ground (arith, e)))
    ∙ ap (λ t. y ∷ t) (same_text_sound xs ys (ground (arith, e)))

-- The labels of the pins.
abbrev pub ce_label : List ℕ
ce_label = b'B' ∷ b'o' ∷ b'o' ∷ b't' ∷ b' ' ∷ b'R' ∷ b'O' ∷ b'M' ∷ b' ' ∷ b'C' ∷ b'E' ∷ []

abbrev pub oe_label : List ℕ
oe_label = b'B' ∷ b'o' ∷ b'o' ∷ b't' ∷ b' ' ∷ b'R' ∷ b'O' ∷ b'M' ∷ b' ' ∷ b'O' ∷ b'E' ∷ []

abbrev pub rst_label : List ℕ
rst_label = b'R' ∷ b'S' ∷ b'T' ∷ []

abbrev pub data_label : ℕ → List ℕ
data_label d = b'B' ∷ b'o' ∷ b'o' ∷ b't' ∷ b' ' ∷ b'R' ∷ b'O' ∷ b'M' ∷ b' ' ∷ b'Q' ∷ d ∷ []

-- A label of one of `n` data pins, from digit `d` on.
abbrev pub is_data : ℕ → ℕ → List ℕ → Bool
is_data zero d label = false
is_data (suc n) d label = same_text label (data_label d) || is_data n (d + 1) label

-- An entry of the binary information: the masks of some pins with their label, or another one.
pub data Entry : Type 0 where
  other : Entry
  pins_with_name : List ℕ → ℕ → Entry

-- The masks of the entries whose label passes a test, or-ed to a mask.
abbrev pub masks_of : (List ℕ → Bool) → List Entry → ℕ → ℕ
masks_of test [] m = m
masks_of test (other ∷ es) m = masks_of test es m
masks_of test (pins_with_name label k ∷ es) m =
    masks_of test es (if test label then bit_or m k else m)

abbrev pub masks : List Entry → Pins → Pins
masks es p = record {
  pin_mask_data = masks_of (is_data 8 b'0') es p.pin_mask_data;
  pin_mask_ce = masks_of (λ label. same_text label ce_label) es p.pin_mask_ce;
  pin_mask_oe = masks_of (λ label. same_text label oe_label) es p.pin_mask_oe;
  pin_mask_rst = masks_of (λ label. same_text label rst_label) es p.pin_mask_rst;
}

-- A text in the update, with a NUL behind it.
abbrev pub HoldsText : Program → ℕ → List ℕ → Type 0
HoldsText fw a [] = fw a ≡ 0
HoldsText fw a (x ∷ xs) = (fw a ≡ x) × (x ≢ 0) × HoldsText fw (u32 (a + 1)) xs

abbrev NoNul : List ℕ → Type 0
NoNul = All (λ x. x ≢ 0)

is_label-HoldsText :
    (fw : Program) (a : ℕ) (label text : List ℕ)
    → HoldsText fw a label
    → NoNul text
    → is_label fw a text ≡ same_text label text
is_label-HoldsText fw a [] [] h t = rw h refl
is_label-HoldsText fw a [] (y ∷ ys) h t = ground (arith, h, t.0)
is_label-HoldsText fw a (x ∷ xs) [] h t = ground (arith, h.0, h.1)
is_label-HoldsText fw a (x ∷ xs) (y ∷ ys) h t =
    rw (h.0, is_label-HoldsText fw (u32 (a + 1)) xs ys h.2 t.1) refl

later_digit :
    (n d e : ℕ) (label : List ℕ)
    → same_text label (data_label d) ≡ true
    → d < e
    → is_data n e label ≡ false
later_digit zero d e label same lt = refl
later_digit (suc n) d e label same lt =
    rw (distinct, later_digit n d (e + 1) label same (omega arith)) refl
  where
    apart : same_text (data_label d) (data_label e) ≡ false
    apart = ground arith

    distinct : same_text label (data_label e) ≡ false
    distinct =
        ap (λ l. same_text l (data_label e)) (same_text_sound label (data_label d) same) ∙ apart

module _ (fw : Program) (a : ℕ) (label : List ℕ) (held : HoldsText fw a label) where
  data_line :
      (d : ℕ)
      → d ≢ 0
      → is_label fw a (boot_rom_text (b'Q' ∷ d ∷ [])) ≡ same_text label (data_label d)
  data_line d ne = is_label-HoldsText fw a label (data_label d) held (ground (arith, ne))

  or_none : (n d k m : ℕ) → d ≢ 0 → is_data n d label ≡ false → or_data_pins n d fw a k m ≡ m
  or_none zero d k m ne none = refl
  or_none (suc n) d k m ne none =
      rw (data_line d ne, first) (or_none n (d + 1) k m (omega arith) (ground (arith, none)))
    where
      first : same_text label (data_label d) ≡ false
      first = ground (arith, none)

  or_data_pins-is_data :
      (n d k m : ℕ)
      → d ≢ 0
      → or_data_pins n d fw a k m ≡ (if is_data n d label then bit_or m k else m)
  or_data_pins-is_data zero d k m ne = refl
  or_data_pins-is_data (suc n) d k m ne = elim (Bool-cases (same_text label (data_label d))) [
    | inl e ↦
        rw (data_line d ne, e)
          (or_none n (d + 1) k (bit_or m k) (omega arith)
            (later_digit n d (d + 1) label e (omega arith)))
    | inr e ↦ rw (data_line d ne, e) (or_data_pins-is_data n (d + 1) k m (omega arith))
  ]

  add_pins-masks : (k : ℕ) (p : Pins) → add_pins fw a k p ≡ masks (pins_with_name label k ∷ []) p
  unfolding add_pins
  add_pins-masks k p =
      rw
        (
          or_data_pins-is_data 8 b'0' k p.pin_mask_data (omega arith),
          is_label-HoldsText fw a label ce_label held (ground arith),
          is_label-HoldsText fw a label oe_label held (ground arith),
          is_label-HoldsText fw a label rst_label held (ground arith),
        )
        refl

module _ (info : BinaryInfo) (fw : Program) (rows : List Row) where
  -- What an entry at an address says: not the tag or not the type of named pins, or both, and the
  -- label, where the mapping table has it, and the mask.
  abbrev pub HoldsEntry : ℕ → Entry → Type 0
  HoldsEntry entry other =
      (program_half fw (u32 (entry + info.tag_offset)) ≢ info.tag_raspberry_pi)
      ⊎ (program_half fw (u32 (entry + info.type_offset)) ≢ info.type_pins_with_name)
  HoldsEntry entry (pins_with_name label k) =
      (program_half fw (u32 (entry + info.tag_offset)) ≡ info.tag_raspberry_pi)
      × (program_half fw (u32 (entry + info.type_offset)) ≡ info.type_pins_with_name)
      × HoldsText fw
          (convert_ram_address (mapped rows (program_word fw (u32 (entry + info.label_offset)))))
          label
      × (program_word fw (u32 (entry + info.pin_mask_offset)) ≡ k)

  -- The entries that a header lists from number `i` on.
  abbrev pub HoldsEntries : ℕ → ℕ → List Entry → Type 0
  HoldsEntries entries_start i [] = Unit
  HoldsEntries entries_start i (e ∷ es) =
      HoldsEntry (entry_at info fw entries_start i) e × HoldsEntries entries_start (i + 1) es

  entry-masks :
      (entry : ℕ) (e : Entry) (p : Pins)
      → HoldsEntry entry e
      → pins_of_entry info fw rows entry p ≡ masks (e ∷ []) p
  entry-masks entry other p h = rw not_pins refl
    where
      not_pins : names_pins info fw entry ≡ false
      not_pins = ground (arith, h)
  entry-masks entry (pins_with_name label k) p h =
      rw (named, h.3) (add_pins-masks fw _ label h.2 k p)
    where
      named : names_pins info fw entry ≡ true
      named = ground (arith, h.0, h.1)

  entries-masks :
      (entries_start i : ℕ) (es : List Entry) (p : Pins)
      → HoldsEntries entries_start i es
      → pins_of info fw rows (listed info fw rows entries_start (length es) i) p ≡ masks es p
  entries-masks entries_start i [] p h = refl
  entries-masks entries_start i (e ∷ es) p h =
      ap (pins_of info fw rows (listed info fw rows entries_start (length es) (i + 1)))
        (entry-masks (entry_at info fw entries_start i) e p h.0)
      ∙ entries-masks entries_start (i + 1) es _ h.1
      ∙ one_more e
    where
      one_more : (e : Entry) → masks es (masks (e ∷ []) p) ≡ masks (e ∷ es) p
      one_more other = refl
      one_more (pins_with_name label k) = refl

  -- An update has the marker of its binary information, the mapping table that this names ends, and the
  -- entries that it lists are known, with the texts of their labels, which the first row that has a
  -- label's address maps. Then with more fuel than the table has rows the function ends: to each of
  -- the four masks are or-ed the masks of exactly the entries that name pins with its label, of which the
  -- data pins have eight.
  pub pin_config_get_from_update-masks :
      (fuel marker : ℕ) (es : List Entry) (p : Pins)
      → binary_info_find_marker info fw ≡ some marker
      → HoldsRows fw (convert_ram_address (program_word fw (marker + 12))) 0 rows
      → length rows < fuel
      → HoldsEntries (program_word fw (marker + 4)) 0 es
      → sub32 (program_word fw (marker + 8)) (program_word fw (marker + 4)) / 4 ≡ length es
      → pin_config_get_from_update info fw fuel p ≡ some (masks es p)
  pin_config_get_from_update-masks fuel marker es p found holds enough entries count =
      pin_config_get_from_update-pins_of info fw rows fuel marker p found holds enough
      ∙ ap
          (λ n.
            some (pins_of info fw rows (listed info fw rows (program_word fw (marker + 4)) n 0) p))
          count
      ∙ ap some (entries-masks (program_word fw (marker + 4)) 0 es p entries)
