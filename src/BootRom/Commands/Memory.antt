-- ===== src/BootRom/Commands/Memory.antt =====
-- What the flash operations leave in memory when they are used as the flash commands use them.
use native.Mathlib.Nat.{add-zero}
use fruitchip.Common.{
  ℕ, zero, suc, true, List, [], ◌∷◌, ◌+◌, ◌<◌, ◌≤◌, ◌≡◌, ◌⊎◌, refl, arith, ◌∙◌, ap, length, get_or,
}
use fruitchip.Hal.{Memory, Hal, FlashLaws}
use fruitchip.BootRom.Write.Sector.{same_bytes}

-- `after` holds `xs` from a flash offset on, and is `before` at every other address.
pub record Holds (hal : Hal) (before after : Memory) (off : ℕ) (xs : List ℕ) : Type 0 where
  pub inside : (i : ℕ) → i < length xs → after (hal.xip_base + (off + i)) ≡ get_or xs i 0
  pub outside :
      (a : ℕ)
      → (a < hal.xip_base + off) ⊎ (hal.xip_base + (off + length xs) ≤ a)
      → after a ≡ before a

same_bytes_sound :
    (m : Memory) (xs : List ℕ) (a i : ℕ)
    → same_bytes m a xs ≡ true
    → i < length xs
    → m (a + i) ≡ get_or xs i 0
unfolding same_bytes
same_bytes_sound m [] a i e h = absurd (omega arith)
same_bytes_sound m (x ∷ xs) a zero e h = rw add-zero (ground arith)
same_bytes_sound m (x ∷ xs) a (suc i) e h =
    let there : (a + suc i) ≡ a + 1 + i = omega arith in
    ap m there ∙ same_bytes_sound m xs (a + 1) i (ground arith) (omega arith)

-- Bytes that are found equal are held already.
pub same_bytes-Holds :
    (hal : Hal) (m : Memory) (off : ℕ) (xs : List ℕ)
    → same_bytes m (hal.xip_base + off) xs ≡ true
    → Holds hal m m off xs
same_bytes-Holds hal m off xs e = record {
  inside = λ i h. ap m (omega arith) ∙ same_bytes_sound m xs (hal.xip_base + off) i e h;
  outside = λ a h. refl;
}

-- An erase of the range and then a program of the bytes.
pub erase-program-Holds :
    (hal : Hal) (m : Memory) (off : ℕ) (xs : List ℕ)
    → FlashLaws hal
    → Holds hal m (hal.flash_range_program off xs (hal.flash_range_erase off (length xs) m)) off xs
erase-program-Holds hal m off xs laws = record {
  inside = λ i h. laws.program_in off xs _ i h (laws.erase_in off (length xs) m i h);
  outside = λ a h. laws.program_out off xs _ a h ∙ laws.erase_out off (length xs) m a h;
}
