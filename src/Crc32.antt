-- ===== src/Crc32.antt =====
-- fruitchip-include/crc32.h: the checksum that the console computes, a nibble at a time by a table.
pub mod Bounds
use fruitchip.Common.{ℕ, List, [], ◌∷◌, u32, ◌<<<◌, ◌>>>◌, bit_xor, get_or}

-- `lut`.
abbrev pub crc32_lut : List ℕ
crc32_lut =
    0x00000000 ∷ 0x04C11DB7 ∷ 0x09823B6E ∷ 0x0D4326D9 ∷ 0x130476DC ∷ 0x17C56B6B ∷ 0x1A864DB2
    ∷ 0x1E475005 ∷ 0x2608EDB8 ∷ 0x22C9F00F ∷ 0x2F8AD6D6 ∷ 0x2B4BCB61 ∷ 0x350C9B64 ∷ 0x31CD86D3
    ∷ 0x3C8EA00A ∷ 0x384FBDBD ∷ []

-- `crc = (crc << 4) ^ lut[crc >> 28]`.
unfoldable pub crc32_nibble : ℕ → ℕ
crc32_nibble crc = bit_xor (u32 (crc <<< 4)) (get_or crc32_lut (crc >>> 28) 0)

-- The body of the loop.
unfoldable pub crc32_byte : ℕ → ℕ → ℕ
unfolding crc32_nibble
crc32_byte crc x = crc32_nibble (crc32_nibble (bit_xor crc (x <<< 24)))

unfoldable pub crc32_from : ℕ → List ℕ → ℕ
unfolding crc32_byte
crc32_from crc [] = crc
crc32_from crc (x ∷ xs) = crc32_from (crc32_byte crc x) xs

unfoldable pub crc32 : List ℕ → ℕ
unfolding crc32_from
crc32 bytes = crc32_from 0xFFFFFFFF bytes
