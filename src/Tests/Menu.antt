-- ===== src/Tests/Menu.antt =====
-- An update file of two blocks, and a modchip that only counts the calls.
use fruitchip.Common.{
  ℕ, true, List, [], ◌∷◌, ◌++◌, ◌+◌, ◌≡◌, refl, arith, Option, some, inr, length, replicate, ◌<◌,
  ◌≤◌, none,
}
use fruitchip.Menu.Navigation.{ListState, drawn_range, list_remove_item}
use fruitchip.Menu.Navigation.Bounds.{drawn_range-le, list_remove_item-none}
use fruitchip.Menu.Checking.{
  Uf2Block, Checked, UpdateType, Sizes, Pins, check_block, check_blocks, check_file, check_size,
  check_pins,
}
use fruitchip.Menu.Checking.Image.{Image, IsBlock, check_blocks-Image, Image-check_blocks}
use fruitchip.Menu.Checking.Bounds.{Fits, check_file-Fits}
use fruitchip.Menu.Writing.{Calls}

-- A block of one byte repeated.
abbrev block_at : ℕ → ℕ → Uf2Block
block_at a w = record {
  magic_start0 = 0x0A324655;
  magic_start1 = 0x9E5D5157;
  flags = 0x2000;
  target_addr = a;
  payload_size = 256;
  file_size = 0xe48bff56;
  data_bytes = replicate 476 w;
  magic_end = 0x0AB16F30;
}

block_at-IsBlock : (a w : ℕ) → IsBlock (block_at a w)
block_at-IsBlock a w = record {
  start0 = refl;
  start1 = refl;
  end = refl;
  family = inr refl;
  size = refl;
}

abbrev two_blocks : List (Option Uf2Block)
two_blocks = some (block_at 0x10000000 1) ∷ some (block_at 0x10000100 2) ∷ []

abbrev image : List ℕ
image = replicate 256 1 ++ (replicate 256 2 ++ [])

two_blocks-Image : Image 0x10000000 two_blocks image
two_blocks-Image =
    Image.more (block_at 0x10000000 1) _ _ (block_at-IsBlock 0x10000000 1)
      (Image.more (block_at 0x10000100 2) _ _ (block_at-IsBlock 0x10000100 2) (Image.done _))

Image-check_blocks_example : check_blocks 0 [] two_blocks ≡ Checked.accepted image
Image-check_blocks_example =
    Image-check_blocks 0x10000000 two_blocks image two_blocks-Image (omega arith)

check_blocks-Image_example : Image 0x10000000 two_blocks image
check_blocks-Image_example =
    check_blocks-Image (block_at 0x10000000 1) (some (block_at 0x10000100 2) ∷ []) image
      (omega arith) (omega arith) Image-check_blocks_example

-- A modchip with room for 64 KiB.
abbrev room : Sizes
room = record {
  fw_partition_size = (true, 65536);
  update_partition_size = (true, 65536);
  apps_partition_size = (true, 65536);
}

abbrev no_pins : Pins
no_pins = record { pin_mask_data = 0; pin_mask_ce = 0; pin_mask_oe = 0; pin_mask_rst = 0 }

file_accepted :
    check_file UpdateType.apps room no_pins (λ v. no_pins) 1024 two_blocks ≡ Checked.accepted image
unfolding check_file check_blocks check_block check_size check_pins
file_accepted = refl

check_file-Fits_example : (length image ≡ 512) × Fits UpdateType.apps room 512
check_file-Fits_example =
    check_file-Fits UpdateType.apps room no_pins (λ v. no_pins) 1024 two_blocks image refl
      (refl, (refl, tt)) file_accepted

-- Every call succeeds, and adds one to the state.
abbrev counting : Calls ℕ
counting = record {
  set_write_lock = λ lock n. (true, n + 1);
  erase_flash_sector = λ partition sector count n. (true, n + 1);
  get_flash_sector_size = λ n. ((true, 4096), n + 1);
  write_flash_sector = λ partition sector bytes n. (true, n + 1);
}

-- Twelve items, of which ten are drawn, with the last one highlighted.
abbrev twelve : ListState ℕ
twelve = record {
  items = 0 ∷ 1 ∷ 2 ∷ 3 ∷ 4 ∷ 5 ∷ 6 ∷ 7 ∷ 8 ∷ 9 ∷ 10 ∷ 11 ∷ [];
  hilite_idx = 11;
  start_item_idx = 0;
  max_items = 10;
}

drawn_range-le_example :
    (first : ℕ) × (last : ℕ) × (drawn_range twelve ≡ some (first, last))
    × (first ≤ 11)
    × (11 ≤ last)
    × (last < 12)
    × (last < first + 10)
drawn_range-le_example =
    drawn_range-le twelve (omega arith) (omega arith) (omega arith) (omega arith)

-- A list of one item.
abbrev single : ListState ℕ
single = record twelve { items = 7 ∷ []; hilite_idx = 0 }

list_remove_item-none_example : list_remove_item 1000 single 0 ≡ none
list_remove_item-none_example = list_remove_item-none 7 single 1000 refl
