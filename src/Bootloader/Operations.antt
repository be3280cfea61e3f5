-- ===== src/Bootloader/Operations.antt =====
-- The calls that change the flash, confined to a range: what a list of them, or its beginning,
-- leaves alone.
use mathlib.Core.Path.{ap₂}
use fruitchip.Common.{
  ℕ, zero, suc, List, [], ◌∷◌, ◌++◌, ◌+◌, ◌<◌, ◌≤◌, ◌≡◌, ◌⊎◌, inl, inr, refl, arith, ◌∙◌, ap,
  length, take, All, get_or,
}
use fruitchip.Hal.{Memory, Hal, FlashLaws}
use fruitchip.Bootloader.{
  FlashOp, flash_range_erase, flash_range_program, perform, perform_all, read_bytes,
}

-- The range of a call lies between two flash offsets.
abbrev pub Within : ℕ → ℕ → FlashOp → Type 0
Within lo hi (flash_range_erase off count) = (lo ≤ off) × (off + count ≤ hi)
Within lo hi (flash_range_program off bytes) = (lo ≤ off) × (off + length bytes ≤ hi)

-- Two memories agree outside a range of flash offsets.
abbrev pub SameOutside : Hal → ℕ → ℕ → Memory → Memory → Type 0
SameOutside hal lo hi m m' =
    (a : ℕ) → (a < hal.xip_base + lo) ⊎ (hal.xip_base + hi ≤ a) → m' a ≡ m a

pub All-append :
    (P : FlashOp → Type 0) (xs ys : List FlashOp) → All P xs → All P ys → All P (xs ++ ys)
All-append P [] ys h k = k
All-append P (x ∷ xs) ys h k = (h.0, All-append P xs ys h.1 k)

pub All-wider :
    (lo lo' hi hi' : ℕ) (ops : List FlashOp)
    → lo' ≤ lo
    → hi ≤ hi'
    → All (Within lo hi) ops
    → All (Within lo' hi') ops
All-wider lo lo' hi hi' [] le ge h = tt
All-wider lo lo' hi hi' (flash_range_erase off count ∷ ops) le ge h =
    ((omega (arith, h.0.0), omega (arith, h.0.1)), All-wider lo lo' hi hi' ops le ge h.1)
All-wider lo lo' hi hi' (flash_range_program off bytes ∷ ops) le ge h =
    ((omega (arith, h.0.0), omega (arith, h.0.1)), All-wider lo lo' hi hi' ops le ge h.1)

-- A beginning of a list with one more element is a beginning of the list, or all of it.
pub take-snoc :
    (n : ℕ) (xs : List FlashOp) (x : FlashOp)
    → (take n (xs ++ x ∷ []) ≡ take n xs) ⊎ (take n (xs ++ x ∷ []) ≡ xs ++ x ∷ [])
take-snoc zero xs x = inl refl
take-snoc (suc zero) [] x = inr refl
take-snoc (suc (suc n)) [] x = inr refl
take-snoc (suc n) (y ∷ xs) x = elim (take-snoc n xs x) [
  | inl e ↦ inl (ap (λ l. y ∷ l) e)
  | inr e ↦ inr (ap (λ l. y ∷ l) e)
]

module _ (hal : Hal) where
  pub perform_all-append :
      (xs ys : List FlashOp) (m : Memory)
      → perform_all hal (xs ++ ys) m ≡ perform_all hal ys (perform_all hal xs m)
  perform_all-append [] ys m = refl
  perform_all-append (x ∷ xs) ys m = perform_all-append xs ys (perform hal x m)

  perform-SameOutside :
      (laws : FlashLaws hal) (lo hi : ℕ) (op : FlashOp) (m : Memory)
      → Within lo hi op
      → SameOutside hal lo hi m (perform hal op m)
  perform-SameOutside laws lo hi (flash_range_erase off count) m h a out =
      laws.erase_out off count m a (ground arith)
  perform-SameOutside laws lo hi (flash_range_program off bytes) m h a out =
      laws.program_out off bytes m a (ground arith)

  pub perform_all-SameOutside :
      (laws : FlashLaws hal) (lo hi : ℕ) (ops : List FlashOp) (m : Memory)
      → All (Within lo hi) ops
      → SameOutside hal lo hi m (perform_all hal ops m)
  perform_all-SameOutside laws lo hi [] m h a out = refl
  perform_all-SameOutside laws lo hi (op ∷ ops) m h a out =
      perform_all-SameOutside laws lo hi ops (perform hal op m) h.1 a out
      ∙ perform-SameOutside laws lo hi op m h.0 a out

pub length-read_bytes : (m : Memory) (n a : ℕ) → length (read_bytes m a n) ≡ n
length-read_bytes m zero a = refl
length-read_bytes m (suc n) a = ap suc (length-read_bytes m n (a + 1))

pub get_or-read_bytes : (m : Memory) (n a i : ℕ) → i < n → get_or (read_bytes m a n) i 0 ≡ m (a + i)
get_or-read_bytes m zero a i h = absurd (omega arith)
get_or-read_bytes m (suc n) a zero h = ap m (omega arith)
get_or-read_bytes m (suc n) a (suc i) h =
    get_or-read_bytes m n (a + 1) i (omega arith) ∙ ap m (omega arith)

-- Memories that agree on a range, at two addresses, are read alike.
pub read_bytes-eq :
    (m m' : Memory) (n a a' : ℕ)
    → ((i : ℕ) → i < n → m (a + i) ≡ m' (a' + i))
    → read_bytes m a n ≡ read_bytes m' a' n
read_bytes-eq m m' zero a a' h = refl
read_bytes-eq m m' (suc n) a a' h =
    ap₂ ◌∷◌ (ap m (omega arith) ∙ h 0 (omega arith) ∙ ap m' (omega arith)) (
      read_bytes-eq m m' n (a + 1) (a' + 1)
        (λ i lt. ap m (omega arith) ∙ h (suc i) (omega arith) ∙ ap m' (omega arith)))
