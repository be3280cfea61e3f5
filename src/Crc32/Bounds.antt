-- ===== src/Crc32/Bounds.antt =====
-- The checksum stays a 32-bit word.
use fruitchip.Common.{ℕ, List, [], ◌∷◌, ◌^◌, ◌<◌, arith, get_or, get_or-lt}
use fruitchip.Common.Bits.{bit_xor-lt}
use fruitchip.Crc32.{crc32_lut, crc32_nibble, crc32_byte, crc32_from}

crc32_lut-lt : (i : ℕ) → get_or crc32_lut i 0 < 2 ^ 32
crc32_lut-lt i = get_or-lt (2 ^ 32) crc32_lut i (omega arith) (omega arith)

crc32_nibble-lt : (crc : ℕ) → crc32_nibble crc < 2 ^ 32
unfolding crc32_nibble
crc32_nibble-lt crc = bit_xor-lt 32 _ _ (omega arith) (crc32_lut-lt _)

pub crc32_byte-lt : (crc x : ℕ) → crc32_byte crc x < 2 ^ 32
unfolding crc32_byte
crc32_byte-lt crc x = crc32_nibble-lt _

pub crc32_from-lt : (crc : ℕ) (bytes : List ℕ) → crc < 2 ^ 32 → crc32_from crc bytes < 2 ^ 32
unfolding crc32_from
crc32_from-lt crc [] h = h
crc32_from-lt crc (x ∷ xs) h = crc32_from-lt (crc32_byte crc x) xs (crc32_byte-lt crc x)
