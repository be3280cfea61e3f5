-- ===== src/Bootloader/Copy.antt =====
-- The loop that copies the update's sectors: which calls it makes and what they leave.
use fruitchip.Common.{
  ℕ, zero, suc, List, ◌+◌, ◌-◌, ◌*◌, ◌<◌, ◌≤◌, ◌≡◌, ◌⊎◌, inl, inr, arith, ◌∙◌, ap, All, Bool-cases,
  lt→ltb,
}
use fruitchip.Board.{fw_partition_offset, fw_partition_size, update_partition_offset}
use fruitchip.Hal.{Memory, Hal, FlashLaws}
use fruitchip.BootRom.Write.Sector.{same_bytes}
use fruitchip.BootRom.Commands.Memory.{Holds, same_bytes-Holds, erase-program-Holds}
use fruitchip.Bootloader.{
  read_bytes, perform_all, copy_sector, copy_sectors, fw_partition_addr, update_partition_addr,
}
use fruitchip.Bootloader.Operations.{
  Within, SameOutside, All-append, All-wider, perform_all-append, perform_all-SameOutside,
  length-read_bytes, get_or-read_bytes,
}

-- The firmware partition of `after` has the bytes of the update partition of `before`, between two
-- offsets into the partitions.
abbrev pub Copied : Hal → ℕ → ℕ → Memory → Memory → Type 0
Copied hal lo hi before after =
    (i : ℕ)
    → lo ≤ i
    → i < hi
    → after (hal.xip_base + (fw_partition_offset + i))
      ≡ before (hal.xip_base + (update_partition_offset + i))

module _ (hal : Hal) (laws : FlashLaws hal) where
  abbrev buffer : ℕ → Memory → List ℕ
  buffer offset m = read_bytes m (update_partition_addr hal + offset) 4096

  pub copy_sector-Within :
      (offset : ℕ) (m : Memory)
      → All
          (Within (fw_partition_offset + offset) (fw_partition_offset + (offset + 4096)))
          (copy_sector hal offset m)
  unfolding copy_sector
  copy_sector-Within offset m =
      elim (Bool-cases (same_bytes m (fw_partition_addr hal + offset) (buffer offset m))) [
        | inl same ↦ rw same tt
        | inr other ↦ rw other (
          (omega arith, omega arith),
          (
            (
              omega arith,
              omega (arith, length-read_bytes m 4096 (update_partition_addr hal + offset)),
            ),
            tt,
          ),
        )
      ]

  copy_sector-Holds :
      (offset : ℕ) (m : Memory)
      → Holds hal m
          (perform_all hal (copy_sector hal offset m) m)
          (fw_partition_offset + offset)
          (buffer offset m)
  unfolding copy_sector
  copy_sector-Holds offset m =
      elim (Bool-cases (same_bytes m (fw_partition_addr hal + offset) (buffer offset m))) [
        | inl same ↦ rw same (
            same_bytes-Holds hal m (fw_partition_offset + offset) (buffer offset m)
              (ap (λ a. same_bytes m a (buffer offset m)) (omega arith) ∙ same))
        | inr other ↦ rw other (
            rw (length-read_bytes m 4096 (update_partition_addr hal + offset)) at
              (erase-program-Holds hal m (fw_partition_offset + offset) (buffer offset m) laws))
      ]

  copy_sector-Copied :
      (offset : ℕ) (m : Memory)
      → Copied hal offset (offset + 4096) m (perform_all hal (copy_sector hal offset m) m)
  copy_sector-Copied offset m i lo hi =
      ap (perform_all hal (copy_sector hal offset m) m) (omega arith)
      ∙ (copy_sector-Holds offset m).inside (i - offset)
          (omega (arith, length-read_bytes m 4096 (update_partition_addr hal + offset)))
      ∙ get_or-read_bytes m 4096 (update_partition_addr hal + offset) (i - offset) (omega arith)
      ∙ ap m (omega arith)

  pub copy_sectors-Within :
      (n offset : ℕ) (m : Memory)
      → offset + n * 4096 ≡ fw_partition_size
      → All
          (Within (fw_partition_offset + offset) (fw_partition_offset + fw_partition_size))
          (copy_sectors hal n offset m)
  unfolding copy_sectors
  copy_sectors-Within zero offset m e = tt
  copy_sectors-Within (suc n) offset m e = rw (lt→ltb offset fw_partition_size (omega arith)) (
      All-append _ (copy_sector hal offset m) (copy_sectors hal n (offset + 4096) _)
        (All-wider (fw_partition_offset + offset) (fw_partition_offset + offset)
          (fw_partition_offset + (offset + 4096)) (fw_partition_offset + fw_partition_size)
          (copy_sector hal offset m) (omega arith) (omega arith) (copy_sector-Within offset m))
        (All-wider (fw_partition_offset + (offset + 4096)) (fw_partition_offset + offset)
          (fw_partition_offset + fw_partition_size) (fw_partition_offset + fw_partition_size)
          (copy_sectors hal n (offset + 4096) _) (omega arith) (omega arith)
          (copy_sectors-Within n (offset + 4096) _ (omega arith))))

  pub copy_sectors-SameOutside :
      (n offset : ℕ) (m : Memory)
      → offset + n * 4096 ≡ fw_partition_size
      → SameOutside hal
          (fw_partition_offset + offset)
          (fw_partition_offset + fw_partition_size)
          m
          (perform_all hal (copy_sectors hal n offset m) m)
  copy_sectors-SameOutside n offset m e =
      perform_all-SameOutside hal laws (fw_partition_offset + offset)
        (fw_partition_offset + fw_partition_size) (copy_sectors hal n offset m) m
        (copy_sectors-Within n offset m e)

  pub copy_sectors-Copied :
      (n offset : ℕ) (m : Memory)
      → offset + n * 4096 ≡ fw_partition_size
      → Copied hal offset fw_partition_size m (perform_all hal (copy_sectors hal n offset m) m)
  unfolding copy_sectors
  copy_sectors-Copied zero offset m e i lo hi = absurd (omega arith)
  copy_sectors-Copied (suc n) offset m e i lo hi =
      rw
        (
          lt→ltb offset fw_partition_size (omega arith),
          perform_all-append hal (copy_sector hal offset m) (copy_sectors hal n (offset + 4096) m1)
              m,
        )
        (elim (near i) [
          | inl here ↦
              copy_sectors-SameOutside n (offset + 4096) m1 (omega arith)
                (hal.xip_base + (fw_partition_offset + i)) (inl (omega arith))
              ∙ copy_sector-Copied offset m i lo here
          | inr there ↦
              copy_sectors-Copied n (offset + 4096) m1 (omega arith) i there hi
              ∙ perform_all-SameOutside hal laws (fw_partition_offset + offset)
                  (fw_partition_offset + (offset + 4096)) (copy_sector hal offset m) m
                  (copy_sector-Within offset m) (hal.xip_base + (update_partition_offset + i))
                  (inr (omega arith))
        ])
    where
      m1 : Memory
      m1 = perform_all hal (copy_sector hal offset m) m

      near : (i : ℕ) → (i < offset + 4096) ⊎ (offset + 4096 ≤ i)
      near i = ground arith
