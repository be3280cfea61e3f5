-- ===== src/Bootloader/PowerLoss.antt =====
-- The boot after a power loss during an update.
use fruitchip.Common.{
  All-take, ℕ, suc, true, false, List, [], ◌∷◌, ◌++◌, ◌+◌, ◌≡◌, ◌⊎◌, inl, inr, arith, ◌∙◌, ap,
  Bool-cases, take,
}
use fruitchip.Board.{fw_partition_offset, fw_partition_size, update_partition_offset}
use fruitchip.Hal.{Memory, Hal, FlashLaws}
use fruitchip.Bootloader.{
  FlashOp, flash_range_erase, perform_all, is_fw_valid, is_update_valid, try_update_firmware, boot,
}
use fruitchip.Bootloader.Operations.{Within, take-snoc, perform_all-SameOutside}
use fruitchip.Bootloader.Copy.{Copied}
use fruitchip.Bootloader.Validity.{
  SameElsewhere, RefusesErased, is_update_valid-eq, is_fw_valid-erased,
}
use fruitchip.Bootloader.Update.{
  copies, last_call, erase_first, try_update_firmware-eq, update-Within, prefix-FirstErased,
  completed, completed-eq, completed-Copied,
}
use fruitchip.Bootloader.Boot.{
  Updated, should_update, boot_memory-Updated, boot_memory, boot_idle, update_memory,
  update-SameElsewhere,
}

module _ (hal : Hal) (laws : FlashLaws hal) where
  abbrev update_calls : Memory → List FlashOp
  update_calls m =
      flash_range_erase fw_partition_offset 4096 ∷ (copies hal laws m ++ last_call hal laws m ∷ [])

  -- From a state in which the firmware is not valid, or the update has been finished, a boot gives
  -- what the update partition of an earlier state has.
  boot_again :
      (scratch : ℕ) (m t : Memory)
      → is_update_valid hal m ≡ true
      → SameElsewhere hal m t
      → (is_fw_valid hal t ≡ false) ⊎ Copied hal 0 fw_partition_size m t
      → Updated hal m (boot hal scratch t)
  boot_again scratch m t valid same why = elim (Bool-cases (should_update hal scratch t)) [
    | inl yes_update ↦
        boot_memory-Updated hal laws scratch t (completed hal laws t)
          (boot_memory hal laws scratch t yes_update ∙ update_memory hal laws t valid_still) m valid
          (λ i lo hi.
            completed-Copied hal laws t i lo hi
            ∙ same (hal.xip_base + (update_partition_offset + i)) (inr (omega arith)))
          (λ a out. update-SameElsewhere hal laws t a out ∙ same a out)
    | inr no_update ↦
        boot_memory-Updated hal laws scratch t t (boot_idle hal laws scratch t no_update) m valid
          (finished no_update why) same
  ]
    where
      valid_still : is_update_valid hal t ≡ true
      valid_still = is_update_valid-eq hal m t same ∙ valid

      finished :
          should_update hal scratch t ≡ false
          → (is_fw_valid hal t ≡ false) ⊎ Copied hal 0 fw_partition_size m t
          → Copied hal 0 fw_partition_size m t
      finished no_update (inl invalid) = absurd (ground (arith, no_update, invalid))
      finished no_update (inr copied) = copied

  interrupted :
      (n : ℕ) (m : Memory)
      → RefusesErased hal
      → let t = perform_all hal (take (suc n) (update_calls m)) m in
        (is_fw_valid hal t ≡ false) ⊎ Copied hal 0 fw_partition_size m t
  unfolding erase_first
  interrupted n m refuses = elim (take-snoc n (copies hal laws m) (last_call hal laws m)) [
    | inl before ↦ inl (
        ap (λ ops. is_fw_valid hal (perform_all hal ops (erase_first hal laws m))) before
        ∙ is_fw_valid-erased hal
            (perform_all hal (take n (copies hal laws m)) (erase_first hal laws m)) refuses
            (prefix-FirstErased hal laws n m))
    | inr all ↦ inr (λ i lo hi.
        ap
          (λ ops.
            perform_all hal ops (erase_first hal laws m) (hal.xip_base + (fw_partition_offset + i)))
          all
        ∙ ap (λ (u : Memory). u (hal.xip_base + (fw_partition_offset + i)))
            (completed-eq hal laws m)
        ∙ completed-Copied hal laws m i lo hi)
  ]

  -- The power is lost during an update, after any of its calls from the first one on, each call
  -- being done or not. The update partition had a valid image before, and the check does not pass
  -- on erased bytes. Then the next boot, whatever is in the scratch register, makes the firmware
  -- partition equal to the update partition, changes nothing else in the flash as it was before the
  -- update, and starts the firmware.
  pub boot_after_power_loss :
      (scratch n : ℕ) (m : Memory)
      → RefusesErased hal
      → is_update_valid hal m ≡ true
      → Updated hal m
          (boot hal scratch (perform_all hal (take (suc n) (try_update_firmware hal m)) m))
  boot_after_power_loss scratch n m refuses valid = rw (try_update_firmware-eq hal laws m valid) (
      boot_again scratch m (perform_all hal (take (suc n) (update_calls m)) m) valid
        (perform_all-SameOutside hal laws fw_partition_offset
          (fw_partition_offset + fw_partition_size) (take (suc n) (update_calls m)) m
          (All-take (Within fw_partition_offset (fw_partition_offset + fw_partition_size)) (suc n)
            (update_calls m) (update-Within hal laws m)))
        (interrupted n m refuses))
