-- ===== src/BootRom/Write/Payload.antt =====
-- fruitchip-fw/src/boot_rom/write/get_payload.c: the sizes and the images of the loader stages.
use fruitchip.Common.{
  or_byte, is_complement, ℕ, true, false, [], ◌∷◌, ◌&&◌, ◌==◌, if◌then◌else◌, leb, ltb, to_ℕ,
  is_nonzero, byte_of,
}
use fruitchip.Modchip.{
  cmd_get_ee_stage1_size, cmd_get_ee_stage2_size, cmd_get_ee_stage2, cmd_read_ee_stage3, result_ok,
  result_err,
}
use fruitchip.Board.{Board}
use fruitchip.BootRom.Defs.{
  Source, Handler, Payload, Chip, Effect, start_status_code, start_data_with_status_code,
}
use fruitchip.BootRom.Write.Step.{count_byte, goto, wait, finish, on_last_byte}

unfoldable pub handle_write_get_ee_stage1_size : Chip → ℕ → Effect
handle_write_get_ee_stage1_size s w =
    on_last_byte cmd_get_ee_stage1_size s w
      λ c. finish c (start_data_with_status_code result_ok Source.ee_stage1_size 4 false ∷ [])

unfoldable pub handle_write_get_ee_stage2_size : Chip → ℕ → Effect
handle_write_get_ee_stage2_size s w =
    on_last_byte cmd_get_ee_stage2_size s w
      λ c. finish c (start_data_with_status_code result_ok Source.ee_stage2_size 4 false ∷ [])

module _ (b : Board) where
  unfoldable pub handle_write_get_ee_stage2 : Chip → ℕ → Effect
  handle_write_get_ee_stage2 s w = on_last_byte cmd_get_ee_stage2 s w λ c.
      finish c (start_data_with_status_code result_ok Source.ee_stage2 b.ee_stage2_size true ∷ [])

  -- The static `read_ee_stage3`, which takes the complement of `with_crc`.
  unfoldable pub read_ee_stage3 : Chip → ℕ → Effect
  read_ee_stage3 s with_crc_xor =
      let is_valid_read_offset =
        is_complement 0xFFFFFFFF read_offset read_offset_xor && ltb read_offset b.ee_stage3_size in
      let is_valid_read_size = is_complement 0xFFFFFFFF read_size read_size_xor in
      let is_valid_with_crc = is_complement 0xFF (to_ℕ with_crc) with_crc_xor in
      if is_valid_read_offset && (is_valid_read_size && is_valid_with_crc)
      then finish s (
          start_data_with_status_code result_ok (Source.ee_stage3 read_offset) read_size with_crc
          ∷ [])
      else finish s (start_status_code result_err ∷ [])
    where
      open s.payload use {read_offset, read_offset_xor, read_size, read_size_xor, with_crc}

abbrev set_payload : Chip → Payload → Effect
set_payload s p = (record s { payload = p }, [])

-- The bytes 4 to 19 of the command, each into its field; `n` is the counter.
unfoldable pub take_stage3_byte : Payload → ℕ → ℕ → Payload
take_stage3_byte p n w =
    if n == 4
    then record p { read_offset = w }
    else if n == 5
    then record p { read_offset = or_byte p.read_offset w 8 }
    else if n == 6
    then record p { read_offset = or_byte p.read_offset w 16 }
    else if n == 7
    then record p { read_offset = or_byte p.read_offset w 24 }
    else if n == 8
    then record p { read_offset_xor = w }
    else if n == 9
    then record p { read_offset_xor = or_byte p.read_offset_xor w 8 }
    else if n == 10
    then record p { read_offset_xor = or_byte p.read_offset_xor w 16 }
    else if n == 11
    then record p { read_offset_xor = or_byte p.read_offset_xor w 24 }
    else if n == 12
    then record p { read_size = w }
    else if n == 13
    then record p { read_size = or_byte p.read_size w 8 }
    else if n == 14
    then record p { read_size = or_byte p.read_size w 16 }
    else if n == 15
    then record p { read_size = or_byte p.read_size w 24 }
    else if n == 16
    then record p { read_size_xor = w }
    else if n == 17
    then record p { read_size_xor = or_byte p.read_size_xor w 8 }
    else if n == 18
    then record p { read_size_xor = or_byte p.read_size_xor w 16 }
    else record p { read_size_xor = or_byte p.read_size_xor w 24 }

unfoldable pub handle_write_read_ee_stage3 : Chip → ℕ → Effect
unfolding take_stage3_byte
handle_write_read_ee_stage3 s w =
    let c = count_byte s in
    let n = c.cmd_byte_counter in
    if n == 3
    then (if w == byte_of cmd_read_ee_stage3 3 then wait c else finish c [])
    else if leb 4 n && leb n 19
    then set_payload c (take_stage3_byte c.payload n w)
    else if n == 20
    then wait (
        goto Handler.read_ee_stage3_end
          (record c { payload = record (c.payload) { with_crc = is_nonzero w } }))
    else finish c []
