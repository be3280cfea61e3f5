-- ===== src/BootRom/Read.antt =====
-- fruitchip-fw/src/boot_rom/read: idle.c, osdsys.c and iopboot.c, which watch the bytes that the
-- console reads for the places where a loader image is put in.
pub mod Osdsys
pub mod Iopboot
use fruitchip.Common.{
  ℕ, zero, suc, Bool, true, false, not, List, [], ◌∷◌, ◌++◌, ◌+◌, ◌||◌, ◌&&◌, ◌==◌, if◌then◌else◌,
  ltb, u32,
}
use fruitchip.Board.{Board}
use fruitchip.BootRom.Defs.{Call, Source, set_data, start_data_without_status_code, set_led_osdhook}

-- `read_handler`: the function that takes the next byte.
pub data ReadHandler : Type 0 where
  idle find_osdsys_elf find_osdsys_syscall_table : ReadHandler
  find_iopboot find_iopboot2 find_iopboot3 : ReadHandler

-- The handler, the static counters of the two files, and the flags of patch_control.c, the first of
-- which the write handler of that file sets.
pub record Reader : Type 0 where
  pub read_handler : ReadHandler
  pub osdsys_counter : ℕ
  pub iopboot_counter : ℕ
  pub disable_next_osdsys_hook : Bool
  pub disable_next_iopboot_hook : Bool

abbrev pub ReadEffect : Type 0
ReadEffect = Reader × List Call

unfoldable pub handle_read_idle : Reader → ℕ → ReadEffect
handle_read_idle s r =
    if r == 0x7F
    then (record s { read_handler = ReadHandler.find_osdsys_elf }, [])
    else if r == 0x07
    then (record s { read_handler = ReadHandler.find_iopboot }, [])
    else (s, [])

-- The labels `reset` and `skip` of `handle_read_find_osdsys_syscall_table`.
abbrev pub reset_osdsys : Reader → Reader
reset_osdsys s = record s { read_handler = ReadHandler.idle; osdsys_counter = 0 }

abbrev pub skip_osdsys : Reader → Reader
skip_osdsys s = record s {
  read_handler = ReadHandler.idle;
  osdsys_counter = 0;
  disable_next_osdsys_hook = false;
}

module _ (b : Board) where
  unfoldable pub handle_read_find_osdsys_syscall_table : Reader → ℕ → ReadEffect
  handle_read_find_osdsys_syscall_table s r =
      let n = u32 (s.osdsys_counter + 1) in
      let c = record s { osdsys_counter = n } in
      if n == 508
      then (if r == 0x00
          then (skip_osdsys c, start_data_without_status_code true ∷ set_led_osdhook ∷ [])
          else (reset_osdsys c, []))
      else if n == 503
      then (if r == 0xE0
          then (if c.disable_next_osdsys_hook
              then (skip_osdsys c, [])
              else (c, set_data Source.ee_stage1 b.ee_stage1_size ∷ []))
          else (reset_osdsys c, []))
      else (c, [])

  -- Whether the switch of `handle_read_find_osdsys_elf` lets a byte pass at a counter.
  unfoldable pub is_osdsys_byte : ℕ → ℕ → Bool
  is_osdsys_byte n r =
      if n == 1
      then r == 0x45
      else if n == 2
      then r == 0x4C
      else if n == 3
      then r == 0x46
      else if n == 24
      then r == 0x08
      else if n == 25
      then r == 0x00
      else if n == 26
      then r == 0x10
      else if n == 27
      then r == 0x00
      else if n == 48
      then r == 0x08
      else if n == 49
      then r == 0x00
      else if n == 50
      then r == 0x07
      else if n == 51
      then r == 0x00
      else true

  -- A reset here keeps the handler.
  unfoldable pub handle_read_find_osdsys_elf : Reader → ℕ → ReadEffect
  unfolding is_osdsys_byte
  handle_read_find_osdsys_elf s r =
      let n = u32 (s.osdsys_counter + 1) in
      if not (is_osdsys_byte n r)
      then (record s { osdsys_counter = 0 }, [])
      else if n == 51
      then (
        record s { osdsys_counter = 0; read_handler = ReadHandler.find_osdsys_syscall_table },
        [],
      )
      else if (r == 0x7F) || ltb 51 n
      then (record s { osdsys_counter = 0 }, [])
      else (record s { osdsys_counter = n }, [])

  abbrev pub exit_iopboot : Reader → Reader
  exit_iopboot s = record s { read_handler = ReadHandler.idle; iopboot_counter = 0 }

  -- The byte that the switches of iopboot.c ask for at a counter from 20 to 31.
  unfoldable pub iopboot3_byte : ℕ → ℕ
  iopboot3_byte n =
      if n == 20
      then 0x21
      else if n == 21
      then 0x38
      else if n == 22
      then 0x00
      else if n == 23
      then 0x00
      else if n == 24
      then 0x08
      else if n == 25
      then 0x00
      else if n == 26
      then 0x40
      else if n == 27
      then 0x00
      else if n == 28
      then 0x21
      else if n == 29
      then 0x80
      else 0x00

  unfoldable pub handle_read_find_iopboot3 : Reader → ℕ → ReadEffect
  unfolding iopboot3_byte
  handle_read_find_iopboot3 s r =
      let n = u32 (s.iopboot_counter + 1) in
      let c = record s { iopboot_counter = n } in
      if ltb 19 n && ltb n 31
      then (if r == iopboot3_byte n then (c, []) else (exit_iopboot c, []))
      else if n == 31
      then (if r == 0x00
          then (
            exit_iopboot c,
            (if c.disable_next_iopboot_hook then [] else start_data_without_status_code false ∷ []),
          )
          else (exit_iopboot c, []))
      else (exit_iopboot c, [])

  -- The byte at a counter from 8 to 19.
  unfoldable pub iopboot2_byte : ℕ → ℕ
  iopboot2_byte n =
      if n == 8
      then 0x21
      else if n == 9
      then 0x20
      else if n == 10
      then 0x00
      else if n == 11
      then 0x02
      else if n == 12
      then 0x21
      else if n == 13
      then 0x28
      else if n == 14
      then 0x00
      else if n == 15
      then 0x00
      else if n == 16
      then 0x21
      else if n == 17
      then 0x30
      else 0x00

  unfoldable pub handle_read_find_iopboot2 : Reader → ℕ → ReadEffect
  unfolding iopboot2_byte
  handle_read_find_iopboot2 s r =
      let n = u32 (s.iopboot_counter + 1) in
      let c = record s { iopboot_counter = n } in
      if ltb 7 n && ltb n 20
      then (if r == iopboot2_byte n
          then (if n == 19 && not c.disable_next_iopboot_hook
              then (
                record c { read_handler = ReadHandler.find_iopboot3 },
                set_data Source.iop_stage1 b.iop_stage1_size ∷ [],
              )
              else (c, []))
          else (exit_iopboot c, []))
      else (exit_iopboot c, [])

  -- The byte at a counter from 1 to 7.
  unfoldable pub iopboot_byte : ℕ → ℕ
  iopboot_byte n = if n == 1 then 0x00 else if n == 2 then 0x40 else if n == 3 then 0x10 else 0x00

  unfoldable pub handle_read_find_iopboot : Reader → ℕ → ReadEffect
  unfolding iopboot_byte
  handle_read_find_iopboot s r =
      let n = u32 (s.iopboot_counter + 1) in
      let c = record s { iopboot_counter = n } in
      if ltb 0 n && ltb n 8
      then (if r == iopboot_byte n
          then (if n == 7
              then (record c { read_handler = ReadHandler.find_iopboot2 }, [])
              else (c, []))
          else (exit_iopboot c, []))
      else (exit_iopboot c, [])

  -- `read_handler(byte)` of the main loop.
  unfoldable pub read_byte : Reader → ℕ → ReadEffect
  unfolding handle_read_idle handle_read_find_osdsys_elf handle_read_find_osdsys_syscall_table
      handle_read_find_iopboot handle_read_find_iopboot2 handle_read_find_iopboot3
  read_byte s r = call s.read_handler
    where
      call : ReadHandler → ReadEffect
      call ReadHandler.idle = handle_read_idle s r
      call ReadHandler.find_osdsys_elf = handle_read_find_osdsys_elf s r
      call ReadHandler.find_osdsys_syscall_table = handle_read_find_osdsys_syscall_table s r
      call ReadHandler.find_iopboot = handle_read_find_iopboot s r
      call ReadHandler.find_iopboot2 = handle_read_find_iopboot2 s r
      call ReadHandler.find_iopboot3 = handle_read_find_iopboot3 s r

  -- The main loop over the bytes that the console reads.
  unfoldable pub read_all : Reader → List ℕ → ReadEffect
  unfolding read_byte
  read_all s [] = (s, [])
  read_all s (r ∷ rs) =
      let (s', calls) = read_byte s r in let (t, more) = read_all s' rs in (t, calls ++ more)
