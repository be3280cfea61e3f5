-- ===== src/BootRom/Commands/WriteSector.antt =====
-- `MODCHIP_CMD_WRITE_FLASH_SECTOR` as the console sends it.
use native.Mathlib.Nat.{mod-eq_of_lt}
use mathlib.Core.Path.{ap₂}
use fruitchip.Common.{
  ℕ, Bool, true, false, not, List, [], ◌∷◌, ◌++◌, ◌+◌, ◌-◌, ◌*◌, ◌^◌, ◌<◌, ◌≤◌, ◌≡◌, ◌⊎◌, ◌≢◌, inl,
  u32, inr, refl, arith, ◌∙◌, ap, length, All, bytes32, bit_xor, lt→ltb, ◌&&◌, ◌==◌, if◌then◌else◌,
  is_complement, Bool-cases, ==-refl,
}
use fruitchip.Common.Words.{is_complement-xor, xor_ones-lt}
use fruitchip.Modchip.{cmd_write_flash_sector, result_ok, result_err}
use fruitchip.Board.{Board}
use fruitchip.Hal.{Memory, Hal, FlashLaws}
use fruitchip.Host.Requests.{poke_sector, write_flash_sector_request}
use fruitchip.BootRom.Defs.{
  Handler, Chip, Flash, Effect, start_busy_code, stop_busy_code, flash_erase, flash_program,
}
use fruitchip.BootRom.Write.Step.{finish}
use fruitchip.BootRom.Write.Flash.{checked_sector, locate_sector}
use fruitchip.BootRom.Write.Sector.{same_bytes, commit_sector}
use fruitchip.BootRom.Write.Idle.{write_bytes}
use fruitchip.BootRom.Commands.Locate.{
  partition_start, partition_bytes, locate_sector_lem, locate_sector_wraps, locate_sector_refused,
  sector_fits, sector_near,
}
use fruitchip.BootRom.Commands.Memory.{Holds, same_bytes-Holds, erase-program-Holds}
use fruitchip.BootRom.Commands.Sector.{receiving}
use fruitchip.BootRom.Commands.Flash.{write_ordered, write_flash_sector-eq}

pub checked_sector-eq :
    (b : Board) (f : Flash)
    → checked_sector b f ≡ (
        if is_complement 0xFF f.partition_idx f.partition_idx_xor
          && is_complement 0xFFFFFFFF f.sector_idx f.sector_idx_xor
        then locate_sector b f.partition_idx f.sector_idx
        else (0, false))
unfolding checked_sector
checked_sector-eq b f = refl

refusal :
    (lock located crc : Bool)
    → (lock ≡ true) ⊎ ((located ≡ false) ⊎ (crc ≡ false))
    → (not lock && (located && crc)) ≡ false
refusal lock located crc why = ground arith

pub acceptance : (lock crc : Bool) → lock ≡ false → crc ≡ true → (not lock && (true && crc)) ≡ true
acceptance lock crc unlocked right = ground arith

module _ (b : Board) (hal : Hal) (c : Chip) where
  abbrev sector_crc_matches : Bool
  sector_crc_matches =
      is_complement 0xFFFFFFFF c.flash.sector_crc c.flash.sector_crc_xor
      && hal.sniff_crc32 c.flash.sector 0xFFFFFFFF == c.flash.sector_crc

  commit_sector-eq :
      (off : ℕ) (valid : Bool)
      → checked_sector b c.flash ≡ (off, valid)
      → commit_sector b hal c ≡ (
          if not c.flash.flash_write_lock && (valid && sector_crc_matches)
          then (if same_bytes c.memory (u32 (hal.xip_base + off)) c.flash.sector
              then finish c (start_busy_code ∷ stop_busy_code result_ok ∷ [])
              else finish
                  (record c {
                    memory =
                        hal.flash_range_program off c.flash.sector
                          (hal.flash_range_erase off 4096 c.memory);
                  })
                  (start_busy_code
                    ∷ flash_erase off 4096
                    ∷ flash_program off c.flash.sector
                    ∷ stop_busy_code result_ok
                    ∷ []))
          else finish c (start_busy_code ∷ stop_busy_code result_err ∷ []))
  unfolding commit_sector
  commit_sector-eq off valid e = rw e refl

  -- What an accepted sector leaves.
  pub record Stored (off : ℕ) (result : Effect) : Type 0 where
    pub holds : Holds hal c.memory result.0.memory off c.flash.sector
    pub returns : result.0.write_handler ≡ Handler.idle
    pub calls :
        (result.1 ≡ start_busy_code ∷ stop_busy_code result_ok ∷ [])
        ⊎ (result.1
            ≡ start_busy_code
              ∷ flash_erase off 4096
              ∷ flash_program off c.flash.sector
              ∷ stop_busy_code result_ok
              ∷ [])

  pub commit_sector-Stored :
      (off : ℕ)
      → FlashLaws hal
      → off < 2 ^ 24
      → length c.flash.sector ≡ 4096
      → c.flash.flash_write_lock ≡ false
      → checked_sector b c.flash ≡ (off, true)
      → sector_crc_matches ≡ true
      → Stored off (commit_sector b hal c)
  commit_sector-Stored off laws near full unlocked located crc =
      rw
        (
          commit_sector-eq off true located,
          acceptance c.flash.flash_write_lock sector_crc_matches unlocked crc,
        )
        (elim (Bool-cases (same_bytes c.memory (u32 (hal.xip_base + off)) c.flash.sector)) [
          | inl same ↦ rw same (record {
            holds =
                same_bytes-Holds hal c.memory off c.flash.sector
                  (ap (λ a. same_bytes c.memory a c.flash.sector) fits ∙ same);
            returns = refl;
            calls = inl refl;
          })
          | inr other ↦ rw other (record {
            holds = rw full at (erase-program-Holds hal c.memory off c.flash.sector laws);
            returns = refl;
            calls = inr refl;
          })
        ])
    where
      fits : hal.xip_base + off ≡ u32 (hal.xip_base + off)
      fits = omega (arith, laws.window_fits)

  -- A refused sector changes no memory.
  pub commit_sector_refused :
      (c.flash.flash_write_lock ≡ true)
        ⊎ (((checked_sector b c.flash).1 ≡ false) ⊎ (sector_crc_matches ≡ false))
      → commit_sector b hal c ≡ finish c (start_busy_code ∷ stop_busy_code result_err ∷ [])
  commit_sector_refused why =
      rw
        (
          commit_sector-eq (checked_sector b c.flash).0 (checked_sector b c.flash).1 refl,
          refusal c.flash.flash_write_lock (checked_sector b c.flash).1 sector_crc_matches why,
        )
        refl

-- A request has stored some bytes at a flash offset: exactly their sector of the memory holds them,
-- the handler is back at idle, and the answer is busy and then OK, with an erase and a program of
-- that sector, or neither, in between.
abbrev pub StoredAt : Hal → Memory → ℕ → List ℕ → Effect → Type 0
StoredAt hal before off xs (t, calls) =
    Holds hal before t.memory off xs
    × (t.write_handler ≡ Handler.idle)
    × ((calls ≡ start_busy_code ∷ stop_busy_code result_ok ∷ [])
        ⊎ (calls
            ≡ start_busy_code
              ∷ flash_erase off 4096
              ∷ flash_program off xs
              ∷ stop_busy_code result_ok
              ∷ []))

-- A byte below 256 leaves as it is.
abbrev pub Bytes : List ℕ → Type 0
Bytes = All (λ x. x < 256)

poke_sector-eq : (xs : List ℕ) → Bytes xs → poke_sector xs ≡ xs
poke_sector-eq [] h = refl
poke_sector-eq (x ∷ xs) h = ap₂ ◌∷◌ (omega arith) (poke_sector-eq xs h.1)

module _ (b : Board) (hal : Hal) (s : Chip) (idle : s.write_handler ≡ Handler.idle)
    (buffer : length s.flash.sector ≡ 4096) where
  -- The state when the last data byte of the console's request has arrived.
  abbrev pub sector_received : ℕ → ℕ → ℕ → List ℕ → Chip
  sector_received p sector crc xs =
      receiving b hal
        (write_ordered b hal s idle p (bit_xor p 0xFF) sector (bit_xor sector 0xFFFFFFFF) crc
          (bit_xor crc 0xFFFFFFFF))
        4096 xs

  received_sector :
      (p sector crc x : ℕ) (xs : List ℕ)
      → p < 256
      → sector < 2 ^ 32
      → crc < 2 ^ 32
      → length (x ∷ xs) ≡ 4096
      → Bytes (x ∷ xs)
      → write_bytes b hal s (write_flash_sector_request p sector crc (x ∷ xs))
        ≡ commit_sector b hal (sector_received p sector crc (x ∷ xs))
  received_sector p sector crc x xs hp hs hc full bytes =
      ap (write_bytes b hal s) sent
      ∙ write_flash_sector-eq b hal s idle p (bit_xor p 0xFF) sector (bit_xor sector 0xFFFFFFFF) crc
          (bit_xor crc 0xFFFFFFFF) x xs hs (xor_ones-lt 32 sector hs) hc (xor_ones-lt 32 crc hc)
          full buffer
    where
      sent :
          write_flash_sector_request p sector crc (x ∷ xs)
          ≡ bytes32 cmd_write_flash_sector
            ++ p
              ∷ bit_xor p 0xFF
              ∷ (bytes32 sector
                  ++ (bytes32 (bit_xor sector 0xFFFFFFFF)
                      ++ (bytes32 crc ++ (bytes32 (bit_xor crc 0xFFFFFFFF) ++ x ∷ xs))))
      sent =
          rw
            (
              mod-eq_of_lt hp,
              mod-eq_of_lt (xor_ones-lt 8 p hp),
              poke_sector-eq xs bytes.1,
              mod-eq_of_lt bytes.0,
            )
            refl

  located :
      (p sector crc : ℕ) (bytes : List ℕ)
      → (p ≡ 1) ⊎ (p ≡ 2)
      → (sector + 1) * 4096 < partition_bytes b p
      → sector < 2 ^ 32
      → checked_sector b (sector_received p sector crc bytes).flash
        ≡ (partition_start p + sector * 4096, true)
  located p sector crc bytes hp inside hs =
      checked_sector-eq b _
      ∙ rw
          (
            is_complement-xor 8 p (ground arith),
            is_complement-xor 32 sector hs,
            locate_sector_lem b p sector hp (sector_fits b p sector inside),
            lt→ltb _ _ inside,
          )
          refl

  module _ (x : ℕ) (xs : List ℕ) (laws : FlashLaws hal)
      (crc_fits : hal.sniff_crc32 (x ∷ xs) 0xFFFFFFFF < 2 ^ 32) (full : length (x ∷ xs) ≡ 4096)
      (bytes : Bytes (x ∷ xs)) (unlocked : s.flash.flash_write_lock ≡ false) where
    abbrev chip_crc : ℕ
    chip_crc = hal.sniff_crc32 (x ∷ xs) 0xFFFFFFFF

    request-StoredAt :
        (p sector off : ℕ)
        → off < 2 ^ 24
        → p < 256
        → sector < 2 ^ 32
        → checked_sector b (sector_received p sector chip_crc (x ∷ xs)).flash ≡ (off, true)
        → StoredAt hal s.memory off
            (x ∷ xs)
            (write_bytes b hal s (write_flash_sector_request p sector chip_crc (x ∷ xs)))
    request-StoredAt p sector off near hp hs located_at =
        rw (received_sector p sector chip_crc x xs hp hs crc_fits full bytes)
          (stored.holds, stored.returns, stored.calls)
      where
        stored :
            Stored b hal
              (sector_received p sector chip_crc (x ∷ xs))
              off
              (commit_sector b hal (sector_received p sector chip_crc (x ∷ xs)))
        stored =
            commit_sector-Stored b hal (sector_received p sector chip_crc (x ∷ xs)) off laws near
              full unlocked located_at
              (rw (is_complement-xor 32 chip_crc crc_fits) (==-refl chip_crc))

    -- The console writes a sector of 4096 bytes with the checksum that the chip computes of it,
    -- to a partition that may be written and not as its last sector; the chip is between two
    -- commands, with its lock open. Then exactly that sector of the memory holds the bytes, every
    -- other address is unchanged, and the answer is busy and then OK, with an erase and a program
    -- of that sector, or neither, in between.
    pub write_flash_sector_stores :
        (p sector : ℕ)
        → (p ≡ 1) ⊎ (p ≡ 2)
        → (sector + 1) * 4096 < partition_bytes b p
        → StoredAt hal s.memory
            (partition_start p + sector * 4096)
            (x ∷ xs)
            (write_bytes b hal s (write_flash_sector_request p sector chip_crc (x ∷ xs)))
    write_flash_sector_stores p sector hp inside =
        let hs : sector < 2 ^ 32 = omega (arith, sector_fits b p sector inside) in
        request-StoredAt p sector (partition_start p + sector * 4096)
          (omega (arith, sector_near b p sector inside)) (ground arith) hs
          (located p sector chip_crc (x ∷ xs) hp inside hs)

    -- The same request with a sector index `2 ^ 20 - k`, for k from 1 up to the sectors before the
    -- partition, is accepted too, and stores the bytes `k` sectors before the partition.
    pub write_flash_sector_before_partition :
        (p k : ℕ)
        → (p ≡ 1) ⊎ (p ≡ 2)
        → 0 < k
        → k * 4096 ≤ partition_start p
        → StoredAt hal s.memory
            (partition_start p - k * 4096)
            (x ∷ xs)
            (write_bytes b hal s (write_flash_sector_request p (2 ^ 20 - k) chip_crc (x ∷ xs)))
    write_flash_sector_before_partition p k hp lo hi =
        request-StoredAt p (2 ^ 20 - k) (partition_start p - k * 4096) (ground arith) (ground arith)
          (omega arith)
          (checked_sector-eq b _
            ∙ rw
                (
                  is_complement-xor 8 p (ground arith),
                  is_complement-xor 32 (2 ^ 20 - k) (omega arith),
                )
                (locate_sector_wraps b p k hp lo hi))

  checked_sector-false :
      (p sector crc : ℕ) (bytes : List ℕ)
      → p < 256
      → sector < 2 ^ 32
      → (locate_sector b p sector).1 ≡ false
      → (checked_sector b (sector_received p sector crc bytes).flash).1 ≡ false
  checked_sector-false p sector crc bytes hp hs e =
      rw
        (
          checked_sector-eq b (sector_received p sector crc bytes).flash,
          is_complement-xor 8 p hp,
          is_complement-xor 32 sector hs,
        )
        e

  cause :
      (p sector crc x : ℕ) (xs : List ℕ)
      → p < 256
      → sector < 2 ^ 32
      → crc < 2 ^ 32
      → (s.flash.flash_write_lock ≡ true)
        ⊎ (((p ≢ 1) × (p ≢ 2))
            ⊎ ((hal.sniff_crc32 (x ∷ xs) 0xFFFFFFFF ≢ crc)
                ⊎ ((partition_bytes b p ≤ (sector + 1) * 4096)
                    × (partition_start p + (sector + 1) * 4096 < 2 ^ 32))))
      → (s.flash.flash_write_lock ≡ true)
        ⊎ (((checked_sector b (sector_received p sector crc (x ∷ xs)).flash).1 ≡ false)
            ⊎ (sector_crc_matches b hal (sector_received p sector crc (x ∷ xs)) ≡ false))
  cause p sector crc x xs hp hs hc (inl closed) = inl closed
  cause p sector crc x xs hp hs hc (inr (inl other)) = inr (
      inl (
        checked_sector-false p sector crc (x ∷ xs) hp hs
          (locate_sector_refused b p sector (inl other))))
  cause p sector crc x xs hp hs hc (inr (inr (inl ne))) =
      inr (inr (rw (is_complement-xor 32 crc hc) (ground arith)))
  cause p sector crc x xs hp hs hc (inr (inr (inr behind))) = inr (
      inl (
        checked_sector-false p sector crc (x ∷ xs) hp hs
          (locate_sector_refused b p sector (inr behind))))

  -- The console's request changes no memory and is answered by busy and then an error, if the lock
  -- is closed, the partition may not be written, the checksum is not the one that the chip
  -- computes, or the sector lies at or behind the last sector of its partition, its address being
  -- below 2 ^ 32.
  pub write_flash_sector_refused :
      (p sector crc x : ℕ) (xs : List ℕ)
      → p < 256
      → sector < 2 ^ 32
      → crc < 2 ^ 32
      → length (x ∷ xs) ≡ 4096
      → Bytes (x ∷ xs)
      → (s.flash.flash_write_lock ≡ true)
        ⊎ (((p ≢ 1) × (p ≢ 2))
            ⊎ ((hal.sniff_crc32 (x ∷ xs) 0xFFFFFFFF ≢ crc)
                ⊎ ((partition_bytes b p ≤ (sector + 1) * 4096)
                    × (partition_start p + (sector + 1) * 4096 < 2 ^ 32))))
      → let (t, calls) = write_bytes b hal s (write_flash_sector_request p sector crc (x ∷ xs)) in
        (t.memory ≡ s.memory)
        × (t.write_handler ≡ Handler.idle)
        × (calls ≡ start_busy_code ∷ stop_busy_code result_err ∷ [])
  write_flash_sector_refused p sector crc x xs hp hs hc full bytes why =
      rw
        (
          received_sector p sector crc x xs hp hs hc full bytes,
          commit_sector_refused b hal (sector_received p sector crc (x ∷ xs))
              (cause p sector crc x xs hp hs hc why),
        )
        (refl, refl, refl)
