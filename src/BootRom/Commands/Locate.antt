-- ===== src/BootRom/Commands/Locate.antt =====
-- The address check of the flash commands: which sectors it accepts.
use fruitchip.Common.{
  ℕ, zero, suc, true, false, ◌+◌, ◌-◌, ◌*◌, ◌^◌, ◌<◌, ◌≤◌, ◌≡◌, ◌⊎◌, ◌≢◌, arith, ltb,
}
use fruitchip.Board.{
  Board, FlashSize, update_partition_offset, update_partition_size, apps_partition_offset,
  apps_partition_size,
}
use fruitchip.BootRom.Write.Flash.{locate_sector}

-- Where a partition that may be written begins, and how many bytes it has.
abbrev pub partition_start : ℕ → ℕ
partition_start (suc zero) = update_partition_offset
partition_start (suc (suc zero)) = apps_partition_offset
partition_start _ = 0

abbrev pub partition_bytes : Board → ℕ → ℕ
partition_bytes b (suc zero) = update_partition_size
partition_bytes b (suc (suc zero)) = apps_partition_size b.flash_size
partition_bytes b _ = 0

apps_partition_bound : (f : FlashSize) → apps_partition_size f ≤ 15048 * 1024
apps_partition_bound FlashSize.mb2 = omega arith
apps_partition_bound FlashSize.mb4 = omega arith
apps_partition_bound FlashSize.mb8 = omega arith
apps_partition_bound FlashSize.mb16 = omega arith

-- The addresses of a partition stay far below 2 ^ 32.
pub sector_fits :
    (b : Board) (p sector : ℕ)
    → (sector + 1) * 4096 < partition_bytes b p
    → partition_start p + (sector + 1) * 4096 < 2 ^ 32
sector_fits b zero sector h = omega arith
sector_fits b (suc zero) sector h = omega arith
sector_fits b (suc (suc zero)) sector h = omega (arith, apps_partition_bound b.flash_size)
sector_fits b (suc (suc (suc p))) sector h = absurd (omega arith)

-- They lie in the window of 16 MB.
pub sector_near :
    (b : Board) (p sector : ℕ)
    → (sector + 1) * 4096 < partition_bytes b p
    → partition_start p + (sector + 1) * 4096 < 2 ^ 24
sector_near b zero sector h = omega arith
sector_near b (suc zero) sector h = omega arith
sector_near b (suc (suc zero)) sector h = omega (arith, apps_partition_bound b.flash_size)
sector_near b (suc (suc (suc p))) sector h = absurd (omega arith)

-- A sector whose address does not run past 2 ^ 32 is placed in its partition, and it is accepted
-- exactly when another sector of the partition follows it.
pub locate_sector_lem :
    (b : Board) (p sector : ℕ)
    → (p ≡ 1) ⊎ (p ≡ 2)
    → partition_start p + (sector + 1) * 4096 < 2 ^ 32
    → locate_sector b p sector
      ≡ (partition_start p + sector * 4096, ltb ((sector + 1) * 4096) (partition_bytes b p))
unfolding locate_sector
locate_sector_lem b zero sector h fits = ground arith
locate_sector_lem b (suc zero) sector h fits = ground arith
locate_sector_lem b (suc (suc zero)) sector h fits = ground arith
locate_sector_lem b (suc (suc (suc p))) sector h fits = ground arith

-- The check is made on a sum that wraps: a sector index just below 2 ^ 20 is accepted, and stands
-- for a sector that lies before the partition, as far back as the start of the flash.
pub locate_sector_wraps :
    (b : Board) (p k : ℕ)
    → (p ≡ 1) ⊎ (p ≡ 2)
    → 0 < k
    → k * 4096 ≤ partition_start p
    → locate_sector b p (2 ^ 20 - k) ≡ (partition_start p - k * 4096, true)
unfolding locate_sector
locate_sector_wraps b zero k h lo hi = ground arith
locate_sector_wraps b (suc zero) k h lo hi = ground arith
locate_sector_wraps b (suc (suc zero)) k h lo hi = ground arith
locate_sector_wraps b (suc (suc (suc p))) k h lo hi = ground arith

-- No other partition, and no sector from the last one of its partition on, is accepted.
pub locate_sector_refused :
    (b : Board) (p sector : ℕ)
    → ((p ≢ 1) × (p ≢ 2))
      ⊎ ((partition_bytes b p ≤ (sector + 1) * 4096)
          × (partition_start p + (sector + 1) * 4096 < 2 ^ 32))
    → (locate_sector b p sector).1 ≡ false
unfolding locate_sector
locate_sector_refused b zero sector why = ground arith
locate_sector_refused b (suc zero) sector why = ground arith
locate_sector_refused b (suc (suc zero)) sector why = ground arith
locate_sector_refused b (suc (suc (suc p))) sector why = ground arith
