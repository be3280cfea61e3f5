-- ===== src/Loader/Stage1.antt =====
-- fruitchip-loader/ee/stage1/src/main.c: the console checks the stage that runs, fetches the second
-- one and jumps to it. A panic colours the screen and stops at a `break`.
pub mod Checks
use fruitchip.Common.{ℕ, Bool, true, false, List, ◌∷◌, [], ◌+◌, ◌==◌, if◌then◌else◌, word_at}
use fruitchip.Crc32.{crc32}
use fruitchip.Modchip.{cmd_get_ee_stage1_size, cmd_get_ee_stage2_size, cmd_get_ee_stage2, result_ok}
use fruitchip.Host.Requests.{modchip_poke_u32}
use fruitchip.Host.Bus.{
  Bus, M, ◌>>=◌, ◌>>◌, return, poke, modchip_peek_n, with_retry, cmd_retries, boot_rom_addr_value,
}
use fruitchip.Loader.Elf.{Ram, ram_bytes, store_bytes}

-- `EE_STAGE_1_ADDR` and `EE_STAGE_2_ADDR` of the build.
abbrev pub ee_stage_1_addr : ℕ
ee_stage_1_addr = 0x001001B0

abbrev pub ee_stage_2_addr : ℕ
ee_stage_2_addr = 0x00094000

pub data PanicType : Type 0 where
  cmd_failed bad_crc : PanicType

-- The arguments of `GS_SET_BGCOLOR`.
abbrev pub panic_color : PanicType → ℕ × ℕ × ℕ
panic_color PanicType.cmd_failed = (0x70, 0x00, 0x00)
panic_color PanicType.bad_crc = (0x00, 0x00, 0x30)

-- How the stage ends, with the memory as it is then.
pub data Stage1 : Type 0 where
  panic : PanicType → Ram → Stage1
  jump : ℕ → Ram → Stage1

-- Whether `modchip_cmd_or_panic` returns.
abbrev pub is_answered : ℕ → Bool
is_answered ret = if ret == boot_rom_addr_value then false else ret == result_ok

-- The checksum of the stage that runs, against the word that follows it.
abbrev pub is_intact : Ram → ℕ → Bool
is_intact ram ee_stage1_size =
    crc32 (ram_bytes ram ee_stage_1_addr ee_stage1_size)
    == word_at (ram_bytes ram (ee_stage_1_addr + ee_stage1_size) 4) 0

module _ {S : Type 0} (bus : Bus S) where
  abbrev pub send_cmd : ℕ → M S ℕ
  send_cmd cmd = do poke bus (modchip_poke_u32 cmd); bus.peek_u32

  -- The word that the last attempt got.
  unfoldable pub cmd_answer : ℕ → M S ℕ
  cmd_answer cmd = with_retry (λ ret. ret == result_ok) (λ old. send_cmd cmd) 0 cmd_retries

  -- A command, and what follows where it does not panic.
  unfoldable pub modchip_cmd_or_panic : ℕ → Ram → M S Stage1 → M S Stage1
  modchip_cmd_or_panic cmd ram next = do
    ret ← cmd_answer cmd
    if is_answered ret then next else return (Stage1.panic PanicType.cmd_failed ram)

  -- The second stage, which is stored before its checksum is compared.
  unfoldable pub receive_stage2 : ℕ → Ram → M S Stage1
  receive_stage2 ee_stage2_size ram = do
    bytes ← modchip_peek_n bus ee_stage2_size
    ee_stage2_crc ← bus.peek_u32
    let placed = store_bytes ee_stage_2_addr bytes ram in
        if crc32 (ram_bytes placed ee_stage_2_addr ee_stage2_size) == ee_stage2_crc
        then return (Stage1.jump ee_stage_2_addr placed)
        else return (Stage1.panic PanicType.bad_crc placed)

  unfoldable pub fetch_stage2 : Ram → M S Stage1
  fetch_stage2 ram = modchip_cmd_or_panic cmd_get_ee_stage2_size ram do
    ee_stage2_size ← bus.peek_u32
    modchip_cmd_or_panic cmd_get_ee_stage2 ram (receive_stage2 ee_stage2_size ram)

  unfoldable pub exec_ps2 : Ram → M S Stage1
  exec_ps2 ram = modchip_cmd_or_panic cmd_get_ee_stage1_size ram do
    ee_stage1_size ← bus.peek_u32
    if is_intact ram ee_stage1_size
        then fetch_stage2 ram
        else return (Stage1.panic PanicType.bad_crc ram)
