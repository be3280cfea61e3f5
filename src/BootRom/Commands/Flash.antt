-- ===== src/BootRom/Commands/Flash.antt =====
-- The two commands that change the flash, from their first byte to the memory that they leave.
use fruitchip.Common.{
  ℕ, List, [], ◌∷◌, ◌++◌, ◌^◌, ◌<◌, ◌≡◌, refl, arith, ◌∙◌, ap, length, word32, bytes32, or_byte,
}
use fruitchip.Common.Words.{word32-byte_of}
use fruitchip.Modchip.{cmd_write_flash_sector, cmd_erase_flash_sector}
use fruitchip.Board.{Board}
use fruitchip.Hal.{Hal}
use fruitchip.BootRom.Defs.{Handler, Chip}
use fruitchip.BootRom.Write.Flash.{handle_write_write_flash_sector, handle_write_erase_flash_sector}
use fruitchip.BootRom.Write.Sector.{commit_sector, commit_erase, erase_flash_sector}
use fruitchip.BootRom.Write.Idle.{write_bytes, group0_handler}
use fruitchip.BootRom.Commands.Start.{write_bytes-group0, write_bytes_last}
use fruitchip.BootRom.Commands.Sector.{receiving, receive_all, store_from_all}

-- The operands that both commands begin with.
record Operands : Type 0 where
  partition_idx : ℕ
  partition_idx_xor : ℕ
  sector_idx : ℕ
  sector_idx_xor : ℕ

module _ (b : Board) (hal : Hal) (s : Chip) (idle : s.write_handler ≡ Handler.idle) where
  -- The state when the operands of `MODCHIP_CMD_WRITE_FLASH_SECTOR` have arrived.
  abbrev pub write_ordered : ℕ → ℕ → ℕ → ℕ → ℕ → ℕ → Chip
  write_ordered p q i j c d = record s {
    flash = record (s.flash) {
      partition_idx = p;
      partition_idx_xor = q;
      sector_idx = i;
      sector_idx_xor = j;
      sector_crc = c;
      sector_crc_xor = d;
    };
  }

  write_header :
      (p q i0 i1 i2 i3 j0 j1 j2 j3 c0 c1 c2 c3 d0 d1 d2 d3 : ℕ) (ws : List ℕ)
      → write_bytes b hal s (
          bytes32 cmd_write_flash_sector
          ++ p ∷ q ∷ i0 ∷ i1 ∷ i2 ∷ i3 ∷ j0 ∷ j1 ∷ j2 ∷ j3 ∷ c0 ∷ c1 ∷ c2 ∷ c3 ∷ d0 ∷ d1 ∷ d2 ∷ d3
            ∷ ws)
        ≡ write_bytes b hal
            (receiving b hal
              (write_ordered p q
                (word32 i0 i1 i2 i3)
                (word32 j0 j1 j2 j3)
                (word32 c0 c1 c2 c3)
                (word32 d0 d1 d2 d3))
              0
              s.flash.sector)
            ws
  unfolding write_bytes handle_write_write_flash_sector group0_handler
  write_header p q i0 i1 i2 i3 j0 j1 j2 j3 c0 c1 c2 c3 d0 d1 d2 d3 ws =
      write_bytes-group0 b hal s 0x77
        (0x34 ∷ p ∷ q ∷ i0 ∷ i1 ∷ i2 ∷ i3 ∷ j0 ∷ j1 ∷ j2 ∷ j3 ∷ c0 ∷ c1 ∷ c2 ∷ c3 ∷ d0 ∷ d1 ∷ d2
          ∷ d3 ∷ ws)
        idle

  -- A whole write command: any operand words, and as many data bytes as a sector has.
  pub write_flash_sector-eq :
      (p q i j c d : ℕ) (x : ℕ) (xs : List ℕ)
      → i < 2 ^ 32
      → j < 2 ^ 32
      → c < 2 ^ 32
      → d < 2 ^ 32
      → length (x ∷ xs) ≡ 4096
      → length s.flash.sector ≡ 4096
      → write_bytes b hal s (
          bytes32 cmd_write_flash_sector
          ++ p ∷ q ∷ (bytes32 i ++ (bytes32 j ++ (bytes32 c ++ (bytes32 d ++ x ∷ xs)))))
        ≡ commit_sector b hal (receiving b hal (write_ordered p q i j c d) 4096 (x ∷ xs))
  write_flash_sector-eq p q i j c d x xs hi hj hc hd full buffer =
      write_header p q _ _ _ _ _ _ _ _ _ _ _ _ _ _ _ _ (x ∷ xs)
      ∙ rw (word32-byte_of i hi, word32-byte_of j hj, word32-byte_of c hc, word32-byte_of d hd)
          (receive_all b hal (write_ordered p q i j c d) 0 x s.flash.sector xs (omega arith)
            ∙ ap (λ l. commit_sector b hal (receiving b hal (write_ordered p q i j c d) 4096 l))
                (store_from_all s.flash.sector (x ∷ xs) (omega arith)))

  -- The state when the operands of `MODCHIP_CMD_ERASE_FLASH_SECTOR` have arrived.
  abbrev pub erase_ordered : ℕ → Handler → ℕ → ℕ → ℕ → ℕ → ℕ → ℕ → Chip
  erase_ordered n handler p q i j c d = record s {
    cmd_byte_counter = n;
    write_handler = handler;
    flash = record (s.flash) {
      partition_idx = p;
      partition_idx_xor = q;
      sector_idx = i;
      sector_idx_xor = j;
      sector_count = c;
      sector_count_xor = d;
    };
  }

  erase_operands :
      (p q i0 i1 i2 i3 j0 j1 j2 j3 c0 c1 c2 c3 d0 d1 d2 d3 : ℕ)
      → write_bytes b hal s (
          bytes32 cmd_erase_flash_sector
          ++ p ∷ q ∷ i0 ∷ i1 ∷ i2 ∷ i3 ∷ j0 ∷ j1 ∷ j2 ∷ j3 ∷ c0 ∷ c1 ∷ c2 ∷ c3 ∷ d0 ∷ d1 ∷ d2 ∷ d3
            ∷ [])
        ≡ commit_erase b hal (
            erase_ordered 21 Handler.erase_flash_sector_end p q
              (word32 i0 i1 i2 i3)
              (word32 j0 j1 j2 j3)
              (word32 c0 c1 c2 c3)
              (word32 d0 d1 d2 d3))
  unfolding write_bytes handle_write_erase_flash_sector group0_handler erase_flash_sector
  erase_operands p q i0 i1 i2 i3 j0 j1 j2 j3 c0 c1 c2 c3 d0 d1 d2 d3 =
      write_bytes-group0 b hal s 0x9a
        (0x28 ∷ p ∷ q ∷ i0 ∷ i1 ∷ i2 ∷ i3 ∷ j0 ∷ j1 ∷ j2 ∷ j3 ∷ c0 ∷ c1 ∷ c2 ∷ c3 ∷ d0 ∷ d1 ∷ d2
          ∷ d3 ∷ [])
        idle
      ∙ write_bytes_last b hal
          (erase_ordered 20 Handler.erase_flash_sector_end p q (word32 i0 i1 i2 i3)
            (word32 j0 j1 j2 j3) (word32 c0 c1 c2 c3) (or_byte (or_byte d0 d1 8) d2 16))
          d3

  -- A whole erase command with any operand words.
  pub erase_flash_sector-eq :
      (p q i j c d : ℕ)
      → i < 2 ^ 32
      → j < 2 ^ 32
      → c < 2 ^ 32
      → d < 2 ^ 32
      → write_bytes b hal s (
          bytes32 cmd_erase_flash_sector
          ++ p ∷ q ∷ (bytes32 i ++ (bytes32 j ++ (bytes32 c ++ bytes32 d))))
        ≡ commit_erase b hal (erase_ordered 21 Handler.erase_flash_sector_end p q i j c d)
  erase_flash_sector-eq p q i j c d hi hj hc hd =
      erase_operands p q _ _ _ _ _ _ _ _ _ _ _ _ _ _ _ _
      ∙ rw (word32-byte_of i hi, word32-byte_of j hj, word32-byte_of c hc, word32-byte_of d hd) refl
