-- ===== src/Common/Word.antt =====
-- Machine words as native numbers: casts to a width and shifts, as C writes them.
use Prim.Native.Nat.{ℕ, ◌+◌, ◌-◌, ◌*◌, ◌/◌, ◌%◌, ◌^◌, bit_or, bit_xor}
use mathlib.Core.Bool.{Bool}
use mathlib.Core.List.{List, [], ◌∷◌}
use fruitchip.Common.Tests.{◌==◌}
use fruitchip.Common.Lists.{get_or}

abbrev pub u8 : ℕ → ℕ
u8 n = n % 2 ^ 8

abbrev pub u16 : ℕ → ℕ
u16 n = n % 2 ^ 16

abbrev pub u32 : ℕ → ℕ
u32 n = n % 2 ^ 32

-- `uint32_t` subtraction.
abbrev pub sub32 : ℕ → ℕ → ℕ
sub32 a b = (a + 2 ^ 32 - b) % 2 ^ 32

infixl 75 ◌<<<◌ ◌>>>◌
abbrev pub ◌<<<◌ : ℕ → ℕ → ℕ
x <<< k = x * 2 ^ k

abbrev pub ◌>>>◌ : ℕ → ℕ → ℕ
x >>> k = x / 2 ^ k

-- Byte `idx` of a word, least significant first.
abbrev pub byte_of : ℕ → ℕ → ℕ
byte_of v idx = u8 (v >>> (idx * 8))

-- The bytes of a 16-bit and of a 32-bit word in the order of a little-endian memory.
abbrev pub bytes16 : ℕ → List ℕ
bytes16 v = byte_of v 0 ∷ byte_of v 1 ∷ []

abbrev pub bytes32 : ℕ → List ℕ
bytes32 v = byte_of v 0 ∷ byte_of v 1 ∷ byte_of v 2 ∷ byte_of v 3 ∷ []

-- `v |= w << k`.
abbrev pub or_byte : ℕ → ℕ → ℕ → ℕ
or_byte v w k = bit_or v (w <<< k)

-- A word from its bytes, as it is put together when they arrive one at a time.
abbrev pub word16 : ℕ → ℕ → ℕ
word16 b0 b1 = or_byte b0 b1 8

abbrev pub word32 : ℕ → ℕ → ℕ → ℕ → ℕ
word32 b0 b1 b2 b3 = or_byte (or_byte (or_byte b0 b1 8) b2 16) b3 24

-- `(v ^ v_xor) == ones`.
abbrev pub is_complement : ℕ → ℕ → ℕ → Bool
is_complement ones v v_xor = bit_xor v v_xor == ones

-- A half word and a word in a piece of memory.
abbrev pub half_at : List ℕ → ℕ → ℕ
half_at xs i = word16 (get_or xs i 0) (get_or xs (i + 1) 0)

abbrev pub word_at : List ℕ → ℕ → ℕ
word_at xs i =
    word32 (get_or xs i 0) (get_or xs (i + 1) 0) (get_or xs (i + 2) 0) (get_or xs (i + 3) 0)
