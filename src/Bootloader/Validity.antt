-- ===== src/Bootloader/Validity.antt =====
-- When an image passes the check: it depends on the first bytes of its partition alone, and an
-- erased partition does not pass.
use fruitchip.Common.{
  ℕ, zero, suc, false, ◌∷◌, ◌+◌, ◌<◌, ◌≡◌, ◌≢◌, inr, refl, arith, ◌∙◌, ap, replicate, word32, ◌==◌,
}
use mathlib.Core.Path.{ap₂}
use fruitchip.Board.{fw_partition_offset, fw_partition_size}
use fruitchip.Hal.{Memory, Hal}
use fruitchip.Bootloader.{
  read_bytes, fw_partition_addr, update_partition_addr, bl2crc, is_fw_valid, is_update_valid,
}
use fruitchip.Bootloader.Operations.{SameOutside, read_bytes-eq}
use fruitchip.Bootloader.Copy.{Copied}

-- The checksum of 252 erased bytes is not the erased word.
abbrev pub RefusesErased : Hal → Type 0
RefusesErased hal = hal.sniff_crc32 (replicate 252 0xff) 0xffffffff ≢ 0xffffffff

-- The memory is the same but for the firmware partition.
abbrev pub SameElsewhere : Hal → Memory → Memory → Type 0
SameElsewhere hal = SameOutside hal fw_partition_offset (fw_partition_offset + fw_partition_size)

abbrev pub FirstErased : Hal → Memory → Type 0
FirstErased hal m = (i : ℕ) → i < 4096 → m (hal.xip_base + (fw_partition_offset + i)) ≡ 0xff

word32-eq :
    (a b c d a' b' c' d' : ℕ)
    → a ≡ a'
    → b ≡ b'
    → c ≡ c'
    → d ≡ d'
    → word32 a b c d ≡ word32 a' b' c' d'
word32-eq a b c d a' b' c' d' ea eb ec ed = rw (ea, eb, ec, ed) refl

read-erased :
    (m : Memory) (n a : ℕ)
    → ((i : ℕ) → i < n → m (a + i) ≡ 0xff)
    → read_bytes m a n ≡ replicate n 0xff
read-erased m zero a h = refl
read-erased m (suc n) a h =
    ap₂ ◌∷◌ (ap m (omega arith) ∙ h 0 (omega arith))
      (read-erased m n (a + 1) (λ i lt. ap m (omega arith) ∙ h (suc i) (omega arith)))

module _ (hal : Hal) where
  -- The first bytes of two memories agree, at two addresses: the images are valid or not alike.
  checked_alike :
      (m m' : Memory) (a a' : ℕ)
      → ((i : ℕ) → i < 256 → m (a + i) ≡ m' (a' + i))
      → (hal.sniff_crc32 (read_bytes m a 252) 0xffffffff == bl2crc hal m a)
        ≡ (hal.sniff_crc32 (read_bytes m' a' 252) 0xffffffff == bl2crc hal m' a')
  unfolding bl2crc
  checked_alike m m' a a' h =
      ap₂ ◌==◌
        (ap (λ l. hal.sniff_crc32 l 0xffffffff)
          (read_bytes-eq m m' 252 a a' (λ i lt. h i (omega arith))))
        (word32-eq _ _ _ _ _ _ _ _ (h 0xfc (omega arith)) (h 0xfd (omega arith))
          (h 0xfe (omega arith)) (h 0xff (omega arith)))

  pub is_update_valid-eq :
      (m t : Memory) → SameElsewhere hal m t → is_update_valid hal t ≡ is_update_valid hal m
  unfolding is_update_valid
  is_update_valid-eq m t same =
      checked_alike t m (update_partition_addr hal) (update_partition_addr hal)
        (λ i lt. same _ (inr (omega arith)))

  pub is_fw_valid-Copied :
      (m t : Memory)
      → Copied hal 0 fw_partition_size m t
      → is_fw_valid hal t ≡ is_update_valid hal m
  unfolding is_update_valid is_fw_valid
  is_fw_valid-Copied m t copied =
      checked_alike t m (fw_partition_addr hal) (update_partition_addr hal)
        (λ i lt. ap t (omega arith) ∙ copied i (omega arith) (omega arith) ∙ ap m (omega arith))

  pub is_fw_valid-erased :
      (t : Memory) → RefusesErased hal → FirstErased hal t → is_fw_valid hal t ≡ false
  unfolding is_fw_valid bl2crc
  is_fw_valid-erased t refuses erased =
      rw
        (
          read-erased t 252 (fw_partition_addr hal) (λ i lt. at i (omega arith)),
          at 0xfc (omega arith),
          at 0xfd (omega arith),
          at 0xfe (omega arith),
          at 0xff (omega arith),
        )
        (ground (arith, refuses))
    where
      at : (i : ℕ) → i < 256 → t (fw_partition_addr hal + i) ≡ 0xff
      at i lt = ap t (omega arith) ∙ erased i (omega arith)
