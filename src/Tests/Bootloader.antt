-- ===== src/Tests/Bootloader.antt =====
-- Boots of the simulated machine with an update of zeros.
use fruitchip.Common.{
  true, [], ◌∷◌, ◌+◌, ◌-◌, ◌≡◌, inl, refl, arith, ltb, leb, ◌&&◌, if◌then◌else◌, get_or, take,
}
use fruitchip.Modchip.{update_magic}
use fruitchip.Crc32.{crc32_from}
use fruitchip.Hal.{Memory}
use fruitchip.Bootloader.{perform_all, is_update_valid, try_update_firmware, boot}
use fruitchip.Bootloader.Validity.{RefusesErased}
use fruitchip.Bootloader.Boot.{Updated, boot-Updated}
use fruitchip.Bootloader.PowerLoss.{boot_after_power_loss}
use fruitchip.Tests.Machine.{xip, sim, sim-FlashLaws}

-- 252 zeros and their checksum at the start of the update partition; all else is erased.
abbrev staged : Memory
staged a =
    if leb (xip + 696320) a && ltb a (xip + 696572)
    then 0
    else if leb (xip + 696572) a && ltb a (xip + 696576)
    then get_or (0x9a ∷ 0x39 ∷ 0x65 ∷ 0x70 ∷ []) (a - (xip + 696572)) 0
    else 0xff

staged_valid : is_update_valid sim staged ≡ true
unfolding is_update_valid crc32_from
staged_valid = refl

sim-RefusesErased : RefusesErased sim
unfolding crc32_from
sim-RefusesErased e = absurd (ground (arith, e))

boot-Updated_example : Updated sim staged (boot sim update_magic staged)
boot-Updated_example = boot-Updated sim sim-FlashLaws update_magic staged staged_valid (inl refl)

-- The power is lost after 100 calls.
boot_after_power_loss_example :
    Updated sim staged
      (boot sim 0 (perform_all sim (take 100 (try_update_firmware sim staged)) staged))
boot_after_power_loss_example =
    boot_after_power_loss sim sim-FlashLaws 0 99 staged sim-RefusesErased staged_valid
