-- ===== src/Crc.antt =====
-- The CRC-32 of src/frame_transport.cpp: the lookup table and `ComputeCrc32`. A `std::uint32_t` is a
-- number below 2 ^ 32, a byte one below 256, and the bytes of a buffer are a list.
pub mod Reference
pub mod Detect
pub mod Examples
use midi2pwmv2_libcomm.Common.{
  ℕ, zero, suc, ◌+◌, ◌/◌, ◌^◌, ◌==◌, List, [], ◌∷◌, if◌then◌else◌, bit_and, bit_xor, get_or, not,
}

abbrev pub crc32_polynomial_reversed : ℕ
crc32_polynomial_reversed = 0xEDB88320

-- The body of the inner loop of `generateCrc32LookupTable`.
pub table_round : ℕ → ℕ
table_round crc32_accumulator =
    let lowest_bit_is_set = not (bit_and crc32_accumulator 1 == 0) in
    if lowest_bit_is_set
    then bit_xor (crc32_accumulator / 2) crc32_polynomial_reversed
    else crc32_accumulator / 2

-- The inner loop: the rounds that are left.
pub table_rounds : ℕ → ℕ → ℕ
table_rounds zero crc32_accumulator = crc32_accumulator
table_rounds (suc n) crc32_accumulator = table_rounds n (table_round crc32_accumulator)

-- The outer loop, from `byte_value` on: the entries that are left.
table_entries : ℕ → ℕ → List ℕ
table_entries zero byte_value = []
table_entries (suc n) byte_value = table_rounds 8 byte_value ∷ table_entries n (byte_value + 1)

pub generate_crc32_lookup_table : List ℕ
generate_crc32_lookup_table = table_entries 256 0

-- One round of the loop of `ComputeCrc32`, over the table.
pub crc_round : List ℕ → ℕ → ℕ → ℕ
crc_round table crc32_accumulator byte =
    let table_lookup_index = bit_and (bit_xor crc32_accumulator byte) 0xFF in
    bit_xor (crc32_accumulator / 2 ^ 8) (get_or table table_lookup_index 0)

pub crc_loop : List ℕ → ℕ → List ℕ → ℕ
crc_loop table crc32_accumulator [] = crc32_accumulator
crc_loop table crc32_accumulator (byte ∷ rest) =
    crc_loop table (crc_round table crc32_accumulator byte) rest

pub compute_crc32 : List ℕ → ℕ
compute_crc32 bytes = bit_xor (crc_loop generate_crc32_lookup_table 0xFFFFFFFF bytes) 0xFFFFFFFF
