-- ===== src/Tests/Pins.antt =====
-- The pins of a small update: one entry, whose label is found through the mapping table.
use fruitchip.Common.{
  ◌<◌, ◌≢◌, ℕ, List, [], ◌∷◌, ◌-◌, ◌≡◌, refl, arith, if◌then◌else◌, ltb, get_or, some,
}
use fruitchip.Menu.Checking.{Pins}
use fruitchip.Menu.PinConfig.{
  BinaryInfo, Program, binary_info_find_marker, find_marker_from, pin_config_get_from_update,
}
use fruitchip.Menu.PinConfig.Table.{Row}
use fruitchip.Menu.PinConfig.Labels.{
  HoldsText, pins_with_name, rst_label, pin_config_get_from_update-masks,
}

abbrev sdk : BinaryInfo
sdk = record {
  marker_start = 0x7188ebf2;
  marker_end = 0xe71aa390;
  tag_raspberry_pi = 0x5052;
  type_pins_with_name = 13;
  type_offset = 0;
  tag_offset = 2;
  pin_mask_offset = 4;
  label_offset = 8;
}

-- What the update has from its offset 264 on.
abbrev image : List ℕ
image =
    242 ∷ 235 ∷ 136 ∷ 113 ∷ 28 ∷ 129 ∷ 0 ∷ 16 ∷ 32 ∷ 129 ∷ 0 ∷ 16 ∷ 44 ∷ 129 ∷ 0 ∷ 16 ∷ 144 ∷ 163
    ∷ 26 ∷ 231 ∷ 32 ∷ 129 ∷ 0 ∷ 16 ∷ 13 ∷ 0 ∷ 82 ∷ 80 ∷ 0 ∷ 4 ∷ 0 ∷ 0 ∷ 0 ∷ 0 ∷ 0 ∷ 32 ∷ 60 ∷ 129
    ∷ 0 ∷ 16 ∷ 0 ∷ 0 ∷ 0 ∷ 32 ∷ 16 ∷ 0 ∷ 0 ∷ 32 ∷ 0 ∷ 0 ∷ 0 ∷ 0 ∷ 82 ∷ 83 ∷ 84 ∷ 0 ∷ []

abbrev update : Program
update a = if ltb a 264 then 0 else get_or image (a - 264) 0

abbrev no_pins : Pins
no_pins = record { pin_mask_data = 0; pin_mask_ce = 0; pin_mask_oe = 0; pin_mask_rst = 0 }

abbrev row : Row
row = record {
  source_addr_start = 0x1000813c;
  dest_addr_start = 0x20000000;
  dest_addr_end = 0x20000010;
}

marker_found : binary_info_find_marker sdk update ≡ some 264
unfolding find_marker_from
marker_found = refl

pin_config_get_from_update-masks_example :
    pin_config_get_from_update sdk update 2 no_pins ≡ some (record no_pins { pin_mask_rst = 0x400 })
pin_config_get_from_update-masks_example =
    pin_config_get_from_update-masks sdk update (row ∷ []) 2 264
      (pins_with_name rst_label 0x400 ∷ []) no_pins marker_found
      (refl, λ e. absurd (omega (arith, e)), refl, refl, refl) (omega arith)
      ((refl, refl, label_held, refl), tt) refl
  where
    nonzero : {x : ℕ} → 0 < x → x ≢ 0
    nonzero pos e = absurd (omega (arith, pos, e))

    label_held : HoldsText update 316 rst_label
    label_held = (
      refl,
      nonzero (omega arith),
      (refl, nonzero (omega arith), (refl, nonzero (omega arith), refl)),
    )
