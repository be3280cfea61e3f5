-- ===== src/Tests/Flash.antt =====
-- The flash commands on the simulated machine.
use fruitchip.Common.{
  ℕ, List, [], ◌∷◌, ◌+◌, ◌-◌, ◌*◌, ◌^◌, ◌≡◌, inl, refl, arith, length, length-replicate, replicate,
}
use fruitchip.Crc32.{crc32_from}
use fruitchip.Crc32.Bounds.{crc32_from-lt}
use fruitchip.Modchip.{result_err}
use fruitchip.Host.Requests.{write_flash_sector_request}
use fruitchip.BootRom.Defs.{Handler, start_busy_code, stop_busy_code}
use fruitchip.BootRom.Write.Idle.{write_bytes}
use fruitchip.BootRom.Commands.WriteSector.{
  StoredAt, Bytes, write_flash_sector_stores, write_flash_sector_before_partition,
  write_flash_sector_refused,
}
use fruitchip.Tests.Machine.{sim, sim-FlashLaws, tiny, powered_on, unlocked, length-zero_sector}

-- 4096 bytes 0xab.
repeated : ℕ → List ℕ
repeated n = replicate n 0xab

rest : List ℕ
unfolding repeated
rest = repeated 4095

length-rest : length (0xab ∷ rest) ≡ 4096
unfolding rest
length-rest = length-replicate {A = ℕ} 4096 0xab

repeated-Bytes : (n : ℕ) → Bytes (replicate n 0xab)
repeated-Bytes ℕ.zero = tt
repeated-Bytes (ℕ.suc n) = (omega arith, repeated-Bytes n)

rest-Bytes : Bytes (0xab ∷ rest)
unfolding rest
rest-Bytes = repeated-Bytes 4096

abbrev chip_crc : ℕ
chip_crc = crc32_from 0xFFFFFFFF (0xab ∷ rest)

write_flash_sector_stores_example :
    StoredAt sim unlocked.memory
      (696320 + 2 * 4096)
      (0xab ∷ rest)
      (write_bytes tiny sim unlocked (write_flash_sector_request 1 2 chip_crc (0xab ∷ rest)))
write_flash_sector_stores_example =
    write_flash_sector_stores tiny sim unlocked refl length-zero_sector 0xab rest sim-FlashLaws
      (crc32_from-lt 0xFFFFFFFF (0xab ∷ rest) (omega arith)) length-rest rest-Bytes refl 1 2
      (inl refl) (omega arith)

-- Sector index 2 ^ 20 - 170 of the update partition is the start of the flash, where the bootloader
-- lies.
write_flash_sector_before_partition_example : StoredAt sim unlocked.memory 0 (0xab ∷ rest) (
    write_bytes tiny sim unlocked
      (write_flash_sector_request 1 (2 ^ 20 - 170) chip_crc (0xab ∷ rest)))
write_flash_sector_before_partition_example =
    write_flash_sector_before_partition tiny sim unlocked refl length-zero_sector 0xab rest
      sim-FlashLaws (crc32_from-lt 0xFFFFFFFF (0xab ∷ rest) (omega arith)) length-rest rest-Bytes
      refl 1 170 (inl refl) (omega arith) (omega arith)

write_flash_sector_refused_example :
    let (t, calls) =
      write_bytes tiny sim powered_on (write_flash_sector_request 1 2 chip_crc (0xab ∷ rest)) in
    (t.memory ≡ powered_on.memory)
    × (t.write_handler ≡ Handler.idle)
    × (calls ≡ start_busy_code ∷ stop_busy_code result_err ∷ [])
write_flash_sector_refused_example =
    write_flash_sector_refused tiny sim powered_on refl length-zero_sector 1 2 chip_crc 0xab rest
      (omega arith) (omega arith) (crc32_from-lt 0xFFFFFFFF (0xab ∷ rest) (omega arith)) length-rest
      rest-Bytes (inl refl)
