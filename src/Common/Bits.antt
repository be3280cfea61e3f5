-- ===== src/Common/Bits.antt =====
-- Facts about `bit_or` and `bit_xor` at variables: disjoint fields, and a word beside its
-- complement.
mod Step
use Step.{zero-bit_or, bit_or_step, bit_xor_step}
pub use Step.{zero-bit_xor}
use Prim.Native.Nat.{ℕ, zero, suc, ◌+◌, ◌-◌, ◌*◌, ◌/◌, ◌^◌, ◌<◌, bit_or, bit_xor}
use mathlib.Core.Path.{◌≡◌, refl, ap}
use mathlib.Core.Logic.{◌↔◌}
use native.Mathlib.Nat.{pow-suc, one-le-pow}
use native.Mathlib.Omega.{arith}

-- A field above `k` bits beside one that fits them.
pub bit_or_fields : (k lo hi : ℕ) → lo < 2 ^ k → bit_or lo (hi * 2 ^ k) ≡ lo + hi * 2 ^ k
bit_or_fields zero zero hi fits = omega (arith, zero-bit_or (hi * 1))
bit_or_fields zero (suc lo) hi fits = absurd (omega arith)
bit_or_fields (suc k) lo hi fits = ground (
  arith,
  bit_or_step lo (hi * 2 ^ suc k),
  pow-suc 2 k,
  ap (λ (t : ℕ). hi * t) (pow-suc 2 k),
  bit_or_fields k (lo / 2) hi (omega (arith, pow-suc 2 k)),
)

-- Two words of `k` bits differ in every bit exactly when they add up to all ones.
pub bit_xor_ones :
    (k a b : ℕ) → a < 2 ^ k → b < 2 ^ k → (bit_xor a b ≡ 2 ^ k - 1) ↔ (a + b ≡ 2 ^ k - 1)
bit_xor_ones zero zero b ha hb = ground (arith, zero-bit_xor b)
bit_xor_ones zero (suc a) b ha hb = absurd (omega arith)
bit_xor_ones (suc k) a b ha hb = ground (
  arith,
  bit_xor_step a b,
  pow-suc 2 k,
  one-le-pow k 2,
  bit_xor_ones k (a / 2) (b / 2) (omega (arith, pow-suc 2 k)) (omega (arith, pow-suc 2 k)),
)

half_ones : (k : ℕ) → (2 ^ suc k - 1) / 2 ≡ 2 ^ k - 1
half_ones k = omega (arith, pow-suc 2 k, one-le-pow k 2)

-- Exclusive or with all ones is the complement.
pub xor_ones : (k a : ℕ) → a < 2 ^ k → bit_xor a (2 ^ k - 1) ≡ 2 ^ k - 1 - a
xor_ones zero zero h = zero-bit_xor 0
xor_ones zero (suc a) h = absurd (omega arith)
xor_ones (suc k) a h = omega (
  arith,
  bit_xor_step a (2 ^ suc k - 1),
  pow-suc 2 k,
  one-le-pow k 2,
  ap (λ t. bit_xor (a / 2) t) (half_ones k),
  xor_ones k (a / 2) (omega (arith, pow-suc 2 k)),
)

pub bit_xor-lt : (k a b : ℕ) → a < 2 ^ k → b < 2 ^ k → bit_xor a b < 2 ^ k
bit_xor-lt zero zero b ha hb = omega (arith, zero-bit_xor b)
bit_xor-lt zero (suc a) b ha hb = absurd (omega arith)
bit_xor-lt (suc k) a b ha hb = omega (
  arith,
  bit_xor_step a b,
  pow-suc 2 k,
  bit_xor-lt k (a / 2) (b / 2) (omega (arith, pow-suc 2 k)) (omega (arith, pow-suc 2 k)),
)
