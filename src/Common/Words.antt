-- ===== src/Common/Words.antt =====
-- Words that are sent a byte at a time, each followed by its complement.
use Prim.Native.Nat.{ℕ, ◌+◌, ◌-◌, ◌*◌, ◌^◌, ◌<◌, bit_xor}
use mathlib.Core.Path.{◌≡◌, refl, ◌∙◌}
use mathlib.Core.List.{[], ◌∷◌}
use mathlib.Core.Bool.{true}
use mathlib.Core.Logic.{◌↔◌}
use native.Mathlib.Omega.{arith}
use fruitchip.Common.Tests.{◌==◌, ==_iff}
use fruitchip.Common.Word.{byte_of, bytes32, word16, word32, is_complement}
use fruitchip.Common.Bits.{bit_or_fields, bit_xor_ones, xor_ones}

pub word16_sum : (b0 b1 : ℕ) → b0 < 256 → word16 b0 b1 ≡ b0 + b1 * 2 ^ 8
word16_sum b0 b1 h = bit_or_fields 8 b0 b1 h

pub word32_sum :
    (b0 b1 b2 b3 : ℕ)
    → b0 < 256
    → b1 < 256
    → b2 < 256
    → word32 b0 b1 b2 b3 ≡ b0 + b1 * 2 ^ 8 + b2 * 2 ^ 16 + b3 * 2 ^ 24
word32_sum b0 b1 b2 b3 h0 h1 h2 =
    rw
      (
        bit_or_fields 8 b0 b1 h0,
        bit_or_fields 16 (b0 + b1 * 2 ^ 8) b2 (omega arith),
        bit_or_fields 24 (b0 + b1 * 2 ^ 8 + b2 * 2 ^ 16) b3 (omega arith),
      )
      (omega arith)

-- The bytes of a word put it together again.
pub word16-byte_of : (v : ℕ) → v < 2 ^ 16 → word16 (byte_of v 0) (byte_of v 1) ≡ v
word16-byte_of v h = omega (arith, word16_sum (byte_of v 0) (byte_of v 1) (omega arith))

pub word32-byte_of :
    (v : ℕ) → v < 2 ^ 32 → word32 (byte_of v 0) (byte_of v 1) (byte_of v 2) (byte_of v 3) ≡ v
word32-byte_of v h =
    word32_sum (byte_of v 0) (byte_of v 1) (byte_of v 2) (byte_of v 3) (omega arith) (omega arith)
      (omega arith)
    ∙ omega arith

-- The check of a word against its complement passes for what the other side sends.
pub is_complement-xor :
    (k v : ℕ) → v < 2 ^ k → is_complement (2 ^ k - 1) v (bit_xor v (2 ^ k - 1)) ≡ true
is_complement-xor k v h =
    rw (xor_ones k v h) (
      (==_iff _ (2 ^ k - 1)).1 ((bit_xor_ones k v (2 ^ k - 1 - v) h (omega arith)).1 (omega arith)))

pub is_complement_iff :
    (k v y : ℕ)
    → v < 2 ^ k
    → y < 2 ^ k
    → (is_complement (2 ^ k - 1) v y ≡ true) ↔ (v + y ≡ 2 ^ k - 1)
is_complement_iff k v y hv hy = (
  λ e. (bit_xor_ones k v y hv hy).0 ((==_iff _ _).0 e),
  λ e. (==_iff _ _).1 ((bit_xor_ones k v y hv hy).1 e),
)

-- The complement of a word fits it.
pub xor_ones-lt : (k v : ℕ) → v < 2 ^ k → bit_xor v (2 ^ k - 1) < 2 ^ k
xor_ones-lt k v h = omega (arith, xor_ones k v h)

pub is_complement_sum :
    (k v y : ℕ) → v < 2 ^ k → y < 2 ^ k → is_complement (2 ^ k - 1) v y ≡ (v + y == 2 ^ k - 1)
is_complement_sum k v y hv hy = ground (arith, bit_xor_ones k v y hv hy)

-- A word and its complement add up to all ones.
pub sum_ones : (k v : ℕ) → v < 2 ^ k → (v + bit_xor v (2 ^ k - 1) == 2 ^ k - 1) ≡ true
sum_ones k v h = (==_iff _ _).1 (omega (arith, xor_ones k v h))

-- A word that was put together from bytes has these bytes.
pub bytes32-word32 :
    (b0 b1 b2 b3 : ℕ)
    → b0 < 256
    → b1 < 256
    → b2 < 256
    → b3 < 256
    → bytes32 (word32 b0 b1 b2 b3) ≡ b0 ∷ b1 ∷ b2 ∷ b3 ∷ []
bytes32-word32 b0 b1 b2 b3 h0 h1 h2 h3 =
    rw (word32_sum b0 b1 b2 b3 h0 h1 h2)
      (split (omega arith) (omega arith) (omega arith) (omega arith))
  where
    split :
        {w x y z w' x' y' z' : ℕ}
        → w ≡ w'
        → x ≡ x'
        → y ≡ y'
        → z ≡ z'
        → w ∷ x ∷ y ∷ z ∷ [] ≡ w' ∷ x' ∷ y' ∷ z' ∷ []
    split p q r s = rw (p, q, r, s) refl
