-- ===== src/Loader/Elf.antt =====
-- fruitchip-loader/ee/stage2/include/load_elf.h: loading a program into the console's memory. The
-- memory is a function from addresses to bytes; a local that is not set yet holds no bytes.
pub mod Place
pub mod Segments
use fruitchip.Common.{
  ℕ, zero, suc, Bool, true, false, List, [], ◌∷◌, ◌+◌, ◌-◌, ◌*◌, ◌<◌, ◌≤◌, ◌&&◌, ◌==◌,
  if◌then◌else◌, ltb, leb, u32, sub32, half_at, word_at, get_or, length,
}
use fruitchip.Host.Bus.{Bus, M, ◌>>=◌, ◌>>◌, return, cmd_retries}
use fruitchip.Host.Apps.{
  Code, is_zero, data_offset, modchip_stage3_read_with_retry, modchip_apps_read_with_retry,
}

-- `ELF_MAGIC` and `ELF_PT_LOAD`.
abbrev pub elf_magic : ℕ
elf_magic = 0x464c457f

abbrev pub elf_pt_load : ℕ
elf_pt_load = 1

-- The fields of `elf_header_t` that are read, and its size.
pub record ElfHeader : Type 0 where
  pub ident : ℕ
  pub entry : ℕ
  pub phoff : ℕ
  pub phnum : ℕ

abbrev pub elf_header_size : ℕ
elf_header_size = 52

abbrev pub elf_header_of : List ℕ → ElfHeader
elf_header_of xs = record {
  ident = word_at xs 0;
  entry = word_at xs 24;
  phoff = word_at xs 28;
  phnum = half_at xs 44;
}

-- Those of `elf_pheader_t`, whose field `type` is here `kind`.
pub record ElfPheader : Type 0 where
  pub kind : ℕ
  pub offset : ℕ
  pub vaddr : ℕ
  pub filesz : ℕ
  pub memsz : ℕ

abbrev pub elf_pheader_size : ℕ
elf_pheader_size = 32

abbrev pub elf_pheader_of : List ℕ → ElfPheader
elf_pheader_of xs = record {
  kind = word_at xs 0;
  offset = word_at xs 4;
  vaddr = word_at xs 8;
  filesz = word_at xs 16;
  memsz = word_at xs 20;
}

abbrev pub Ram : Type 0
Ram = ℕ → ℕ

abbrev pub ram_bytes : Ram → ℕ → ℕ → List ℕ
ram_bytes ram a zero = []
ram_bytes ram a (suc n) = ram a ∷ ram_bytes ram (a + 1) n

-- Bytes that are stored from an address on, and `memset` with zero.
abbrev pub store_bytes : ℕ → List ℕ → Ram → Ram
store_bytes at_addr xs ram a =
    if leb at_addr a && ltb a (at_addr + length xs) then get_or xs (a - at_addr) 0 else ram a

abbrev pub clear_bytes : ℕ → ℕ → Ram → Ram
clear_bytes at_addr n ram a = if leb at_addr a && ltb a (at_addr + n) then 0 else ram a

-- `memset` behind the part of a segment that the file has.
abbrev pub clear_rest : ElfPheader → Ram → Ram
clear_rest p ram =
    if ltb p.filesz p.memsz
    then clear_bytes (u32 (p.vaddr + p.filesz)) (p.memsz - p.filesz) ram
    else ram

-- The function ends without a program, or starts the one at an address with the memory as it is.
pub data Loaded : Type 0 where
  not_loaded : Ram → Loaded
  started : ℕ → Ram → Loaded

-- A read of the modchip, by an offset and a size, over what is at its destination.
abbrev pub Reader : Type 0 → Type 0
Reader S = ℕ → ℕ → List ℕ → M S (Code × List ℕ)

module _ {S : Type 0} (read : Reader S) where
  -- The part of the loop's body behind the test of the type: whether the segment was read, and the
  -- memory.
  unfoldable pub load_section : ElfPheader → Ram → M S (Bool × Ram)
  load_section p ram s =
      let (section, t) = read p.offset p.filesz (ram_bytes ram p.vaddr p.filesz) s in
      let stored = store_bytes p.vaddr section.1 ram in
      if is_zero section.0 then ((true, clear_rest p stored), t) else ((false, stored), t)

  unfoldable pub load_segment : ElfPheader → Ram → M S (Bool × Ram)
  load_segment p ram = if p.kind == elf_pt_load then load_section p ram else return (true, ram)

  -- The loop over the program headers: `n` are left, and the next one is number `i`.
  unfoldable pub load_segments : ElfHeader → ℕ → ℕ → List ℕ → Ram → M S Loaded
  load_segments eh zero i eph ram s = (Loaded.started eh.entry ram, s)
  load_segments eh (suc n) i eph ram s =
      let (r, t) = read (u32 (eh.phoff + elf_pheader_size * i)) elf_pheader_size eph s in
      let (loaded, v) = load_segment (elf_pheader_of r.1) ram t in
      let rest = load_segments eh n (i + 1) r.1 loaded.1 v in
      if is_zero r.0
      then if loaded.0 then rest else (Loaded.not_loaded loaded.1, v)
      else (Loaded.not_loaded ram, t)

  -- What follows the read of the header.
  unfoldable pub load_program : Code → List ℕ → Ram → M S Loaded
  load_program code xs ram =
      if is_zero code
      then if (elf_header_of xs).ident == elf_magic
        then load_segments (elf_header_of xs) (elf_header_of xs).phnum 0 [] ram
        else return (Loaded.not_loaded ram)
      else return (Loaded.not_loaded ram)

  unfoldable pub load_elf : Ram → M S Loaded
  load_elf ram = do r ← read 0 elf_header_size []; load_program r.0 r.1 ram

module _ {S : Type 0} (bus : Bus S) where
  unfoldable pub stage3_reader : Reader S
  stage3_reader offset size old =
      modchip_stage3_read_with_retry bus offset size true (Code.io, old) cmd_retries

  unfoldable pub apps_reader : ℕ → Reader S
  apps_reader app_idx offset size old =
      modchip_apps_read_with_retry bus (u32 (data_offset + offset)) size app_idx true (Code.io, old)
        cmd_retries

  abbrev pub exec_ps2_from_modchip_stage3 : Ram → M S Loaded
  exec_ps2_from_modchip_stage3 ram = load_elf stage3_reader ram

  abbrev pub exec_ps2_from_modchip_apps : ℕ → Ram → M S Loaded
  exec_ps2_from_modchip_apps app_idx ram = load_elf (apps_reader app_idx) ram
