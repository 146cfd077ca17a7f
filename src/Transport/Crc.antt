-- ===== src/Transport/Crc.antt =====
-- src/core/transport.cpp, the CRC-32 of the full transport: the table's entries and the loop over
-- the bytes. `table_entry i` is what the constructor stores at index `i`.
use cpp_gram.Common.{
  ℕ, zero, suc, ◌/◌, ◌^◌, ◌<◌, List, [], ◌∷◌, bit_and, bit_xor, not, ◌==◌, arith, if◌then◌else◌,
}
use cpp_gram.Common.Bits.{xor-lt, bit_and_byte}

pub crc_step : ℕ → ℕ
crc_step c = if not (bit_and c 1 == 0) then bit_xor 0xEDB88320 (c / 2) else c / 2

unfoldable pub crc_rounds : ℕ → ℕ → ℕ
unfolding crc_step
crc_rounds zero c = c
crc_rounds (suc j) c = crc_rounds j (crc_step c)

pub table_entry : ℕ → ℕ
unfolding crc_rounds
table_entry i = crc_rounds 8 i

pub crc_byte : ℕ → ℕ → ℕ
unfolding table_entry
crc_byte crc b =
    let index = bit_and (bit_xor crc b) 0xff in bit_xor (crc / 2 ^ 8) (table_entry index)

unfoldable pub crc_loop : ℕ → List ℕ → ℕ
unfolding crc_byte
crc_loop crc [] = crc
crc_loop crc (b ∷ bs) = crc_loop (crc_byte crc b) bs

unfoldable pub compute_crc32 : List ℕ → ℕ
unfolding crc_loop
compute_crc32 bytes = bit_xor (crc_loop 0xFFFFFFFF bytes) 0xFFFFFFFF

crc_step-lt : (c : ℕ) → c < 2 ^ 32 → crc_step c < 2 ^ 32
unfolding crc_step
crc_step-lt c h = ground (arith, xor-lt 32 0xEDB88320 (c / 2))

crc_rounds-lt : (j c : ℕ) → c < 2 ^ 32 → crc_rounds j c < 2 ^ 32
unfolding crc_rounds
crc_rounds-lt zero c h = h
crc_rounds-lt (suc j) c h = crc_rounds-lt j (crc_step c) (crc_step-lt c h)

crc_byte-lt : (crc b : ℕ) → crc < 2 ^ 32 → crc_byte crc b < 2 ^ 32
unfolding crc_byte
crc_byte-lt crc b h =
    xor-lt 32 (crc / 2 ^ 8) _ (omega arith)
      (crc_rounds-lt 8 _ (omega (arith, bit_and_byte (bit_xor crc b))))

crc_loop-lt : (bytes : List ℕ) (crc : ℕ) → crc < 2 ^ 32 → crc_loop crc bytes < 2 ^ 32
unfolding crc_loop
crc_loop-lt [] crc h = h
crc_loop-lt (b ∷ bs) crc h = crc_loop-lt bs (crc_byte crc b) (crc_byte-lt crc b h)

-- The checksum is a 32-bit word.
pub compute_crc32-lt : (bytes : List ℕ) → compute_crc32 bytes < 2 ^ 32
unfolding compute_crc32
compute_crc32-lt bytes =
    xor-lt 32 (crc_loop 0xFFFFFFFF bytes) 0xFFFFFFFF (crc_loop-lt bytes _ (omega arith))
      (omega arith)
