-- ===== src/BootRom/Invariants/Lock.antt =====
-- The write lock: what bytes can change while it is closed, and which byte opens it.
use fruitchip.Common.{
  ℕ, true, List, [], ◌∷◌, ◌+◌, ◌≡◌, ◌⊎◌, refl, arith, ◌∙◌, ap, inl, inr, u32, ◌&&◌, ltb,
  is_complement, ◌==◌, leb, byte_of,
}
use fruitchip.Common.Bits.{zero-bit_xor}
use fruitchip.Common.Tests.{if-cases}
use fruitchip.Modchip.{settings_keys_total, cmd_kv_set}
use fruitchip.Board.{Board}
use fruitchip.Hal.{Memory, Hal, OutsideSettings, StoreLaws}
use fruitchip.Settings.{StoreWrite, wear_leveling_write}
use fruitchip.BootRom.Defs.{Handler, Chip, Flash, Effect}
use fruitchip.BootRom.Write.Kv.{
  store_all, answer_kv_get, answer_kv_set, take_kv_set_byte, handle_write_kv_set,
}
use fruitchip.BootRom.Write.Sector.{commit_sector, commit_erase}
use fruitchip.BootRom.Write.Idle.{call_handler, write_byte, write_bytes}

-- The last byte of the command that opens the lock: `MODCHIP_CMD_WRITE_LOCK` with the value 0 and
-- its complement.
abbrev pub Opens : Handler → Chip → ℕ → Type 0
Opens h s w =
    (h ≡ Handler.write_lock) × (u32 (s.cmd_byte_counter + 1) ≡ 5) × (s.flash.value ≡ 0) × (w ≡ 0xFF)

-- Nothing of the flash is changed but what the settings partition holds.
abbrev pub SameOutsideSettings : Hal → Memory → Memory → Type 0
SameOutsideSettings hal before after = (a : ℕ) → OutsideSettings hal a → after a ≡ before a

module _ (hal : Hal) (laws : StoreLaws hal) where
  store_all-SameOutsideSettings :
      (writes : List StoreWrite) (m : Memory) → SameOutsideSettings hal m (store_all hal writes m)
  unfolding store_all
  store_all-SameOutsideSettings [] m a out = refl
  store_all-SameOutsideSettings (wear_leveling_write address value ∷ writes) m a out =
      store_all-SameOutsideSettings writes _ a out ∙ laws.write_out address value m a out

  -- What a handler leaves that does not know the lock.
  record Keeps (s : Chip) (e : Effect) : Type 0 where
    memory : SameOutsideSettings hal s.memory e.0.memory
    lock : e.0.flash ≡ s.flash

  answer_kv_set-Keeps : (c : Chip) → Keeps c (answer_kv_set hal c)
  unfolding answer_kv_set
  answer_kv_set-Keeps c =
      if-cases (Keeps c)
        ((is_complement 0xFFFF c.kv_set.idx c.kv_set.idx_xor
            && ltb c.kv_set.idx settings_keys_total)
          && is_complement 0xFFFFFFFF c.kv_set.value c.kv_set.value_xor)
        _ _ (λ e. record { memory = store_all-SameOutsideSettings _ c.memory; lock = refl })
        (λ e. record { memory = λ a out. refl; lock = refl })

  handle_write_kv_set-Keeps : (s : Chip) (w : ℕ) → Keeps s (handle_write_kv_set hal s w)
  unfolding handle_write_kv_set
  handle_write_kv_set-Keeps s w =
      if-cases (Keeps s) (n == 3) _ _
        (λ e.
          if-cases (Keeps s) (w == byte_of cmd_kv_set 3) _ _
            (λ e'. record { memory = λ a out. refl; lock = refl })
            (λ e'. record { memory = λ a out. refl; lock = refl }))
        (λ e.
          if-cases (Keeps s) (leb 4 n && leb n 14) _ _
            (λ e'. record { memory = λ a out. refl; lock = refl })
            (λ e'.
              if-cases (Keeps s) (n == 15) _ _
                (λ f. record { memory = answered.memory; lock = answered.lock })
                (λ f. record { memory = λ a out. refl; lock = refl })))
    where
      n : ℕ
      n = u32 (s.cmd_byte_counter + 1)

      taken : Chip
      taken = record s { cmd_byte_counter = n; kv_set = take_kv_set_byte s.kv_set n w }

      answered : Keeps taken (answer_kv_set hal taken)
      answered = answer_kv_set-Keeps taken

  widen :
      (before after : Memory) {L : Type 0}
      → (after ≡ before) × L
      → SameOutsideSettings hal before after × L
  widen before after (e, l) = (λ a out. ap (λ (m : Memory). m a) e, l)

module _ (b : Board) (hal : Hal) (laws : StoreLaws hal) where
  locked-call_handler :
      (h : Handler) (s : Chip) (w : ℕ)
      → s.flash.flash_write_lock ≡ true
      → let t = (call_handler b hal h s w).0 in
        SameOutsideSettings hal s.memory t.memory
        × ((t.flash.flash_write_lock ≡ true) ⊎ Opens h s w)
  unfolding call_handler answer_kv_get commit_sector commit_erase
  locked-call_handler Handler.kv_set s w h =
      let kept = handle_write_kv_set-Keeps hal laws s w in
      (kept.memory, inl (ap (λ (f : Flash). f.flash_write_lock) kept.lock ∙ h))
  locked-call_handler Handler.write_lock s w h =
      widen hal laws s.memory _ (ground (arith, zero-bit_xor w))
  locked-call_handler _ s w h = widen hal laws s.memory _ (ground arith)

  -- A byte written while the lock is closed changes no memory outside the settings partition, and
  -- leaves the lock closed unless it is the last byte of the command that opens it.
  pub locked-write_byte :
      (s : Chip) (w : ℕ)
      → s.flash.flash_write_lock ≡ true
      → let t = (write_byte b hal s w).0 in
        SameOutsideSettings hal s.memory t.memory
        × ((t.flash.flash_write_lock ≡ true) ⊎ Opens s.write_handler s w)
  unfolding write_byte
  locked-write_byte s w h = locked-call_handler s.write_handler s w h

  -- Among the bytes written from a state on there is one that opens the lock.
  pub data Unlocks : Chip → List ℕ → Type 0 where
    now : (s : Chip) (w : ℕ) (ws : List ℕ) → Opens s.write_handler s w → Unlocks s (w ∷ ws)
    later :
        (s : Chip) (w : ℕ) (ws : List ℕ) → Unlocks (write_byte b hal s w).0 ws → Unlocks s (w ∷ ws)

  -- Whatever bytes are written while the lock is closed, the flash outside the settings partition is
  -- the same afterwards and the lock is still closed, unless one of the bytes is the last of the
  -- command that opens it. The store writes only to the settings partition.
  pub locked-write_bytes :
      (s : Chip) (ws : List ℕ)
      → s.flash.flash_write_lock ≡ true
      → let t = (write_bytes b hal s ws).0 in
        (SameOutsideSettings hal s.memory t.memory × (t.flash.flash_write_lock ≡ true))
        ⊎ Unlocks s ws
  unfolding write_bytes
  locked-write_bytes s [] h = inl (λ a out. refl, h)
  locked-write_bytes s (w ∷ ws) h =
      first (locked-write_byte s w h) (locked-write_bytes (write_byte b hal s w).0 ws)
    where
      t : Chip
      t = (write_byte b hal s w).0

      u : Chip
      u = (write_bytes b hal t ws).0

      Closed : Chip → Chip → Type 0
      Closed from to =
          SameOutsideSettings hal from.memory to.memory × (to.flash.flash_write_lock ≡ true)

      rest :
          SameOutsideSettings hal s.memory t.memory
          → Closed t u ⊎ Unlocks t ws
          → Closed s u ⊎ Unlocks s (w ∷ ws)
      rest same (inl (e, closed)) = inl (λ a out. e a out ∙ same a out, closed)
      rest same (inr opened) = inr (Unlocks.later s w ws opened)

      first :
          SameOutsideSettings hal s.memory t.memory
            × ((t.flash.flash_write_lock ≡ true) ⊎ Opens s.write_handler s w)
          → (t.flash.flash_write_lock ≡ true → Closed t u ⊎ Unlocks t ws)
          → Closed s u ⊎ Unlocks s (w ∷ ws)
      first (same, inl closed) ih = rest same (ih closed)
      first (same, inr opens) ih = inr (Unlocks.now s w ws opens)
