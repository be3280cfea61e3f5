-- ===== src/Bootloader/Boot.antt =====
-- What a boot leaves in the flash and what it starts.
use fruitchip.Common.{
  ℕ, Bool, true, false, List, [], ◌∷◌, ◌++◌, ◌+◌, ◌≡◌, ◌⊎◌, inl, inr, refl, sym, arith, ◌∙◌, ap,
  ◌==◌, if◌then◌else◌, not, ◌||◌,
}
use fruitchip.Modchip.{update_magic}
use fruitchip.Board.{fw_partition_offset, fw_partition_size}
use fruitchip.Hal.{Memory, Hal, FlashLaws}
use fruitchip.Bootloader.{
  FlashOp, flash_range_erase, Outcome, perform_all, is_fw_valid, is_update_valid,
  try_update_firmware, boot, try_start_firmware,
}
use fruitchip.Bootloader.Operations.{perform_all-SameOutside}
use fruitchip.Bootloader.Copy.{Copied}
use fruitchip.Bootloader.Validity.{SameElsewhere, is_fw_valid-Copied}
use fruitchip.Bootloader.Update.{
  copies, last_call, try_update_firmware-eq, update-Within, completed, completed-eq,
  completed-Copied,
}

-- A boot has made the firmware partition equal to the update partition, has changed nothing else,
-- has cleared the request, and starts the firmware.
abbrev pub Updated : Hal → Memory → Memory × ℕ × Outcome → Type 0
Updated hal m (t, scratch, outcome) =
    Copied hal 0 fw_partition_size m t
    × SameElsewhere hal m t
    × (scratch ≡ 0)
    × (outcome ≡ Outcome.start_firmware)

decide_if : (b : Bool) (x y : List FlashOp) → b ≡ true → (if b then x else y) ≡ x
decide_if b x y e = rw e refl

decide_else : (b : Bool) (x y : List FlashOp) → b ≡ false → (if b then x else y) ≡ y
decide_else b x y e = rw e refl

-- Whether `main` calls `try_update_firmware`.
abbrev pub should_update : Hal → ℕ → Memory → Bool
should_update hal scratch m = scratch == update_magic || not (is_fw_valid hal m)

module _ (hal : Hal) (laws : FlashLaws hal) where
  try_start-Copied :
      (m t : Memory)
      → is_update_valid hal m ≡ true
      → Copied hal 0 fw_partition_size m t
      → try_start_firmware hal t ≡ Outcome.start_firmware
  unfolding try_start_firmware
  try_start-Copied m t valid copied = rw (is_fw_valid-Copied hal m t copied, valid) refl

  pub update_memory :
      (m : Memory)
      → is_update_valid hal m ≡ true
      → perform_all hal (try_update_firmware hal m) m ≡ completed hal laws m
  update_memory m valid =
      ap (λ ops. perform_all hal ops m) (try_update_firmware-eq hal laws m valid)
      ∙ completed-eq hal laws m

  pub update-SameElsewhere : (m : Memory) → SameElsewhere hal m (completed hal laws m)
  update-SameElsewhere m a out =
      ap (λ (u : Memory). u a) (sym (completed-eq hal laws m))
      ∙ perform_all-SameOutside hal laws fw_partition_offset
          (fw_partition_offset + fw_partition_size)
          (flash_range_erase fw_partition_offset 4096
            ∷ (copies hal laws m ++ last_call hal laws m ∷ []))
          m (update-Within hal laws m) a out

  pub boot_memory :
      (scratch : ℕ) (m : Memory)
      → should_update hal scratch m ≡ true
      → (boot hal scratch m).0 ≡ perform_all hal (try_update_firmware hal m) m
  unfolding boot
  boot_memory scratch m yes_update =
      ap (λ ops. perform_all hal ops m) (decide_if (should_update hal scratch m) _ _ yes_update)

  pub boot_idle :
      (scratch : ℕ) (m : Memory) → should_update hal scratch m ≡ false → (boot hal scratch m).0 ≡ m
  unfolding boot
  boot_idle scratch m no_update =
      ap (λ ops. perform_all hal ops m) (decide_else (should_update hal scratch m) _ _ no_update)

  boot_rest :
      (scratch : ℕ) (m : Memory)
      → ((boot hal scratch m).1 ≡ 0)
        × ((boot hal scratch m).2 ≡ try_start_firmware hal (boot hal scratch m).0)
  unfolding boot
  boot_rest scratch m = (refl, refl)

  pub boot_memory-Updated :
      (scratch : ℕ) (m r : Memory)
      → (boot hal scratch m).0 ≡ r
      → (origin : Memory) → is_update_valid hal origin ≡ true
      → Copied hal 0 fw_partition_size origin r
      → SameElsewhere hal origin r
      → Updated hal origin (boot hal scratch m)
  boot_memory-Updated scratch m r e origin valid copied same = (
    (λ i lo hi.
        ap (λ (u : Memory). u (hal.xip_base + (fw_partition_offset + i))) e ∙ copied i lo hi),
    (λ a out. ap (λ (u : Memory). u a) e ∙ same a out),
    (boot_rest scratch m).0,
    (boot_rest scratch m).1
        ∙ ap (try_start_firmware hal) e
        ∙ try_start-Copied origin r valid copied,
  )

  -- The update partition has a valid image, and an update is requested through the scratch register
  -- or the firmware is not valid. Then a boot makes the firmware partition equal to the update
  -- partition, changes nothing else in the flash, clears the request and starts the firmware.
  pub boot-Updated :
      (scratch : ℕ) (m : Memory)
      → is_update_valid hal m ≡ true
      → (scratch ≡ update_magic) ⊎ (is_fw_valid hal m ≡ false)
      → Updated hal m (boot hal scratch m)
  boot-Updated scratch m valid why =
      boot_memory-Updated scratch m (completed hal laws m)
        (boot_memory scratch m (wanted why) ∙ update_memory m valid) m valid
        (completed-Copied hal laws m) (update-SameElsewhere m)
    where
      wanted :
          (scratch ≡ update_magic) ⊎ (is_fw_valid hal m ≡ false)
          → should_update hal scratch m ≡ true
      wanted (inl e) = ground arith
      wanted (inr e) = ground arith
