-- ===== src/Protocol/Crc.antt =====
-- `protocol_crc32` of protocol.c: the reflected CRC-32, one bit at a time.
pub mod Step
pub mod Detects
use esp32_ota_link.Base.{
  ℕ, zero, suc, ◌-◌, ◌^◌, ◌≡◌, refl, List, [], ◌∷◌, bit_and, bit_xor, u32, ◌>>>◌, take,
}

abbrev pub polynomial : ℕ
polynomial = 0xedb88320

-- The body of the inner loop. `mask` is `-(crc & 1U)` on `uint32_t`.
pub crc_bit : ℕ → ℕ
crc_bit crc =
    let mask = u32 (2 ^ 32 - bit_and crc 1) in bit_xor (crc >>> 1) (bit_and polynomial mask)

-- The inner loop, with the rounds left.
pub crc_bits : ℕ → ℕ → ℕ
crc_bits zero crc = crc
crc_bits (suc rounds) crc = crc_bits rounds (crc_bit crc)

-- The body of the outer loop.
pub crc_byte : ℕ → ℕ → ℕ
crc_byte crc byte = crc_bits 8 (bit_xor crc byte)

-- The outer loop over the bytes left.
pub crc_loop : ℕ → List ℕ → ℕ
crc_loop crc [] = crc
crc_loop crc (b ∷ bs) = crc_loop (crc_byte crc b) bs

-- `~crc` flips the 32 bits.
pub protocol_crc32 : List ℕ → ℕ → ℕ
protocol_crc32 xs length = bit_xor (crc_loop 0xffffffff (take length xs)) 0xffffffff

crc_check_value :
    protocol_crc32 (0x31 ∷ 0x32 ∷ 0x33 ∷ 0x34 ∷ 0x35 ∷ 0x36 ∷ 0x37 ∷ 0x38 ∷ 0x39 ∷ []) 9
    ≡ 0xcbf43926
unfolding protocol_crc32 crc_loop crc_byte crc_bits crc_bit
crc_check_value = refl
