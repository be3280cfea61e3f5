-- ===== src/Menu/Checking.antt =====
-- fruitchip-menu/src/scene/settings/update/checking.c: the check of an update file. The file is given
-- by what each of its reads returns: a block, or none if it is not as long as a block.
pub mod Image
pub mod Bounds
use fruitchip.Common.{
  ℕ, Bool, true, false, not, ◌&&◌, ◌||◌, ◌==◌, List, [], ◌∷◌, ◌++◌, ◌+◌, ◌*◌, ◌%◌, ◌/◌,
  if◌then◌else◌, ltb, bit_and, bit_or, is_nonzero, u32, Option, none, some, take, length,
}

-- `struct UF2_Block` of fruitchip-menu/lib/uf2.h, as far as the check reads it.
pub record Uf2Block : Type 0 where
  pub magic_start0 : ℕ
  pub magic_start1 : ℕ
  pub flags : ℕ
  pub target_addr : ℕ
  pub payload_size : ℕ
  pub file_size : ℕ
  pub data_bytes : List ℕ
  pub magic_end : ℕ

abbrev pub uf2_magic_start0 : ℕ
uf2_magic_start0 = 0x0A324655

abbrev pub uf2_magic_start1 : ℕ
uf2_magic_start1 = 0x9E5D5157

abbrev pub uf2_magic_end : ℕ
uf2_magic_end = 0x0AB16F30

abbrev pub uf2_flag_family_id_present : ℕ
uf2_flag_family_id_present = 0x2000

abbrev pub uf2_family_id_rp2040 : ℕ
uf2_family_id_rp2040 = 0xe48bff56

-- The size of a block in the file, and `block_size`, that of its payload.
abbrev pub file_block_size : ℕ
file_block_size = 512

abbrev pub block_size : ℕ
block_size = 256

-- The messages with which the scene ends.
pub data Message : Type 0 where
  not_opened bad_file_size not_read bad_magic bad_family bad_block_size not_linear : Message
  no_partition_size no_space no_pin_config other_pins : Message

pub data Checked : Type 0 where
  refused : Message → Checked
  accepted : List ℕ → Checked

-- The tests of a block, after `last_block_addr`; none is a block that passes.
unfoldable pub check_block : ℕ → Uf2Block → Option Message
check_block last_block_addr b =
    let is_magic_valid =
      b.magic_start0 == uf2_magic_start0
      && (b.magic_start1 == uf2_magic_start1 && b.magic_end == uf2_magic_end) in
    let is_family_id_valid = b.file_size == uf2_family_id_rp2040 in
    if not is_magic_valid
    then some Message.bad_magic
    else if is_nonzero (bit_and b.flags uf2_flag_family_id_present) && not is_family_id_valid
    then some Message.bad_family
    else if not (block_size == b.payload_size)
    then some Message.bad_block_size
    else if is_nonzero last_block_addr && not (u32 (last_block_addr + block_size) == b.target_addr)
    then some Message.not_linear
    else none

-- What follows a block that is tested.
abbrev pub pass : Option Message → Checked → Checked
pass none rest = rest
pass (some message) rest = Checked.refused message

-- The loop over the blocks: `update` is what the `memcpy`s have written so far.
unfoldable pub check_blocks : ℕ → List ℕ → List (Option Uf2Block) → Checked
check_blocks last_block_addr update [] = Checked.accepted update
check_blocks last_block_addr update (none ∷ blocks) = Checked.refused Message.not_read
check_blocks last_block_addr update (some b ∷ blocks) =
    pass (check_block last_block_addr b)
      (check_blocks b.target_addr (update ++ take block_size b.data_bytes) blocks)

pub data UpdateType : Type 0 where
  fw apps : UpdateType

-- What the modchip says of itself: the three calls of `modchip_get_partition_size_with_retry`, with
-- what they leave in their variables.
pub record Sizes : Type 0 where
  pub fw_partition_size : Bool × ℕ
  pub update_partition_size : Bool × ℕ
  pub apps_partition_size : Bool × ℕ

-- The masks of the data, CE, OE and RST pins.
pub record Pins : Type 0 where
  pub pin_mask_data : ℕ
  pub pin_mask_ce : ℕ
  pub pin_mask_oe : ℕ
  pub pin_mask_rst : ℕ

abbrev pub is_complete : Pins → Bool
is_complete p =
    is_nonzero p.pin_mask_data
    && (is_nonzero p.pin_mask_ce && (is_nonzero p.pin_mask_oe && is_nonzero p.pin_mask_rst))

abbrev pub all_pins : Pins → ℕ
all_pins p = bit_or (bit_or (bit_or p.pin_mask_data p.pin_mask_ce) p.pin_mask_oe) p.pin_mask_rst

-- The assignment of the third result to `failed` forgets the first two.
unfoldable pub check_size : UpdateType → Sizes → ℕ → Option Message
check_size ty s update_size =
    let failed = not s.apps_partition_size.0 in
    if failed then some Message.no_partition_size else is_larger ty
  where
    is_larger : UpdateType → Option Message
    is_larger UpdateType.fw =
        if ltb s.fw_partition_size.1 update_size || ltb s.update_partition_size.1 update_size
        then some Message.no_space
        else none
    is_larger UpdateType.apps =
        if ltb s.apps_partition_size.1 update_size then some Message.no_space else none

-- `current` and `of_update` are what `pin_config_get_current` and `pin_config_get_from_update` find.
unfoldable pub check_pins : UpdateType → Pins → Pins → Option Message
check_pins UpdateType.apps current of_update = none
check_pins UpdateType.fw current of_update =
    if not (is_complete current)
    then some Message.no_pin_config
    else if is_complete of_update && not (all_pins current == all_pins of_update)
    then some Message.other_pins
    else none

-- The checks after the loop.
abbrev pub check_update : UpdateType → Sizes → Pins → (List ℕ → Pins) → Checked → Checked
check_update ty sizes current pins_of (Checked.refused message) = Checked.refused message
check_update ty sizes current pins_of (Checked.accepted update) =
    pass (check_size ty sizes (length update))
      (pass (check_pins ty current (pins_of update)) (Checked.accepted update))

-- The tick handler with the file open: `size` is the file's size.
unfoldable pub check_file :
    UpdateType → Sizes → Pins → (List ℕ → Pins) → ℕ → List (Option Uf2Block) → Checked
check_file ty sizes current pins_of size reads =
    if not (size % file_block_size == 0)
    then Checked.refused Message.bad_file_size
    else check_update ty sizes current pins_of
        (check_blocks 0 [] (take (size / file_block_size) reads))
