-- ===== src/Bootloader/Update.antt =====
-- A whole update: what its calls are confined to, what is erased until the last of them, and what
-- the memory is after it.
use fruitchip.Common.{
  All-take, ℕ, Bool, true, List, [], ◌∷◌, ◌++◌, ◌+◌, ◌<◌, ◌≤◌, ◌≡◌, ◌⊎◌, inl, inr, refl, arith, ◌∙◌,
  ap, All, take, if◌then◌else◌,
}
use fruitchip.Board.{fw_partition_offset, fw_partition_size, update_partition_offset}
use fruitchip.Hal.{Memory, Hal, FlashLaws}
use fruitchip.Bootloader.{
  FlashOp, flash_range_erase, flash_range_program, read_bytes, perform_all, copy_sectors,
  update_partition_addr, is_update_valid, try_update_firmware,
}
use fruitchip.Bootloader.Operations.{
  Within, All-append, All-wider, perform_all-append, perform_all-SameOutside, length-read_bytes,
  get_or-read_bytes,
}
use fruitchip.Bootloader.Copy.{
  Copied, copy_sectors-Within, copy_sectors-SameOutside, copy_sectors-Copied,
}
use fruitchip.Bootloader.Validity.{SameElsewhere, FirstErased}

if_true : (b : Bool) (x y : List FlashOp) → b ≡ true → (if b then x else y) ≡ x
if_true b x y e = rw e refl

module _ (hal : Hal) (laws : FlashLaws hal) where
  -- The memory after the first call of an update, and the calls of its loop.
  unfoldable pub erase_first : Memory → Memory
  erase_first m = hal.flash_range_erase fw_partition_offset 4096 m

  unfoldable pub copies : Memory → List FlashOp
  unfolding erase_first
  copies m = copy_sectors hal 161 4096 (erase_first m)

  unfoldable pub copied_by : Memory → Memory
  unfolding copies
  copied_by m = perform_all hal (copies m) (erase_first m)

  unfoldable pub last_call : Memory → FlashOp
  unfolding copied_by
  last_call m =
      flash_range_program fw_partition_offset
        (read_bytes (copied_by m) (update_partition_addr hal) 4096)

  pub try_update_firmware-eq :
      (m : Memory)
      → is_update_valid hal m ≡ true
      → try_update_firmware hal m
        ≡ flash_range_erase fw_partition_offset 4096 ∷ (copies m ++ last_call m ∷ [])
  unfolding try_update_firmware erase_first copies copied_by last_call
  try_update_firmware-eq m valid = if_true (is_update_valid hal m) _ _ valid

  copies-Within :
      (m : Memory)
      → All
          (Within (fw_partition_offset + 4096) (fw_partition_offset + fw_partition_size))
          (copies m)
  unfolding copies
  copies-Within m = copy_sectors-Within hal laws 161 4096 (erase_first m) refl

  pub update-Within :
      (m : Memory)
      → All
          (Within fw_partition_offset (fw_partition_offset + fw_partition_size))
          (flash_range_erase fw_partition_offset 4096 ∷ (copies m ++ last_call m ∷ []))
  unfolding last_call
  update-Within m = (
    (omega arith, omega arith),
    All-append _ (copies m) (last_call m ∷ [])
        (All-wider (fw_partition_offset + 4096) fw_partition_offset
          (fw_partition_offset + fw_partition_size) (fw_partition_offset + fw_partition_size)
          (copies m) (omega arith) (omega arith) (copies-Within m))
        (
          (
            omega arith,
            omega (arith, length-read_bytes (copied_by m) 4096 (update_partition_addr hal)),
          ),
          tt,
        ),
  )

  -- From the first call on to the last but one, the first sector is erased.
  pub prefix-FirstErased :
      (n : ℕ) (m : Memory) → FirstErased hal (perform_all hal (take n (copies m)) (erase_first m))
  unfolding erase_first
  prefix-FirstErased n m i lt =
      perform_all-SameOutside hal laws (fw_partition_offset + 4096)
        (fw_partition_offset + fw_partition_size) (take n (copies m)) (erase_first m)
        (All-take _ n (copies m) (copies-Within m)) (hal.xip_base + (fw_partition_offset + i))
        (inl (omega arith))
      ∙ laws.erase_in fw_partition_offset 4096 m i lt

  copied_by-FirstErased : (m : Memory) → FirstErased hal (copied_by m)
  unfolding copied_by erase_first
  copied_by-FirstErased m i lt =
      perform_all-SameOutside hal laws (fw_partition_offset + 4096)
        (fw_partition_offset + fw_partition_size) (copies m) (erase_first m) (copies-Within m)
        (hal.xip_base + (fw_partition_offset + i)) (inl (omega arith))
      ∙ laws.erase_in fw_partition_offset 4096 m i lt

  copied_by-SameElsewhere : (m : Memory) → SameElsewhere hal m (copied_by m)
  unfolding copied_by erase_first copies
  copied_by-SameElsewhere m a out =
      copy_sectors-SameOutside hal laws 161 4096 (erase_first m) refl a (ground arith)
      ∙ laws.erase_out fw_partition_offset 4096 m a (ground arith)

  copied_by-Copied : (m : Memory) → Copied hal 4096 fw_partition_size m (copied_by m)
  unfolding copied_by erase_first copies
  copied_by-Copied m i lo hi =
      copy_sectors-Copied hal laws 161 4096 (erase_first m) refl i lo hi
      ∙ laws.erase_out fw_partition_offset 4096 m (hal.xip_base + (update_partition_offset + i))
          (inr (omega arith))

  -- The memory after all calls of an update.
  abbrev pub completed : Memory → Memory
  completed m =
      hal.flash_range_program fw_partition_offset
        (read_bytes (copied_by m) (update_partition_addr hal) 4096) (copied_by m)

  pub completed-eq :
      (m : Memory)
      → perform_all hal
          (flash_range_erase fw_partition_offset 4096 ∷ (copies m ++ last_call m ∷ []))
          m
        ≡ completed m
  unfolding last_call copied_by erase_first
  completed-eq m = perform_all-append hal (copies m) (last_call m ∷ []) (erase_first m)

  pub completed-Copied : (m : Memory) → Copied hal 0 fw_partition_size m (completed m)
  completed-Copied m i lo hi = elim (side i) [
    | inl first ↦
        laws.program_in fw_partition_offset
          (read_bytes (copied_by m) (update_partition_addr hal) 4096) (copied_by m) i
          (omega (arith, length-read_bytes (copied_by m) 4096 (update_partition_addr hal)))
          (copied_by-FirstErased m i first)
        ∙ get_or-read_bytes (copied_by m) 4096 (update_partition_addr hal) i first
        ∙ copied_by-SameElsewhere m (update_partition_addr hal + i) (inr (omega arith))
        ∙ ap m (omega arith)
    | inr later ↦
        laws.program_out fw_partition_offset
          (read_bytes (copied_by m) (update_partition_addr hal) 4096) (copied_by m)
          (hal.xip_base + (fw_partition_offset + i))
          (inr (omega (arith, length-read_bytes (copied_by m) 4096 (update_partition_addr hal))))
        ∙ copied_by-Copied m i later hi
  ]
    where
      side : (i : ℕ) → (i < 4096) ⊎ (4096 ≤ i)
      side i = ground arith
