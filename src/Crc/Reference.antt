-- ===== src/Crc/Reference.antt =====
-- `ComputeCrc32` is the bit-serial CRC: the register shifts once for each bit of the message, lowest
-- bit of a byte first, and takes in the polynomial where the bit that leaves is set.
use midi2pwmv2_libcomm.Common.{
  ℕ, zero, suc, ◌+◌, ◌*◌, ◌/◌, ◌%◌, ◌^◌, ◌<◌, ◌≡◌, refl, sym, ap, ◌∙◌, arith, List, [], ◌∷◌, IsByte,
  bit_xor, get_or, All,
}
use midi2pwmv2_libcomm.Common.Digits.{and_1, and_255}
use midi2pwmv2_libcomm.Common.Xor.{
  xor_assoc, xor_comm, xor-half, xor-low, xor-zero, xor-div_pow, xor_parts, halve_pow,
}
use midi2pwmv2_libcomm.Crc.{
  crc32_polynomial_reversed, table_round, table_rounds, table_entries, generate_crc32_lookup_table,
  crc_round, crc_loop, compute_crc32,
}
use native.Mathlib.Nat.{pow-suc}

-- The register after one bit of the message.
abbrev pub serial_bit : ℕ → ℕ → ℕ
serial_bit crc bit = bit_xor (crc / 2) ((crc + bit) % 2 * crc32_polynomial_reversed)

-- The lowest `n` bits of `byte`, one after the other.
unfoldable pub serial_bits : ℕ → ℕ → ℕ → ℕ
serial_bits zero crc byte = crc
serial_bits (suc n) crc byte = serial_bits n (serial_bit crc (byte % 2)) (byte / 2)

unfoldable pub serial_loop : ℕ → List ℕ → ℕ
serial_loop crc [] = crc
serial_loop crc (byte ∷ rest) = serial_loop (serial_bits 8 crc byte) rest

unfoldable pub serial_crc32 : List ℕ → ℕ
serial_crc32 bytes = bit_xor (serial_loop 0xFFFFFFFF bytes) 0xFFFFFFFF

pub table_round_lem : (a : ℕ) → table_round a ≡ serial_bit a 0
unfolding table_round
table_round_lem a = ground (arith, and_1 a, xor-zero (a / 2))

-- A round on a xor of two numbers, the second without its lowest bit.
table_round-xor : (c b : ℕ) → table_round (bit_xor c b) ≡ bit_xor (serial_bit c (b % 2)) (b / 2)
table_round-xor c b =
    let fed : (bit_xor c b + 0) % 2 ≡ (c + b % 2) % 2 = omega (arith, xor-low c b) in
    table_round_lem (bit_xor c b)
    ∙ rw (fed, xor-half c b)
        (xor_assoc _ _ _ ∙ ap (bit_xor (c / 2)) (xor_comm _ _) ∙ sym (xor_assoc _ _ _))

shifted_round :
    (n h l : ℕ) → table_round (bit_xor (h * 2 ^ suc n) l) ≡ bit_xor (h * 2 ^ n) (table_round l)
shifted_round n h l =
    let twice : h * 2 ^ suc n ≡ h * 2 ^ n * 2 =
      omega (arith, ap (λ (t : ℕ). h * t) (pow-suc 2 n)) in
    let half : h * 2 ^ n * 2 / 2 ≡ h * 2 ^ n = omega arith in
    let fed : (bit_xor (h * 2 ^ n * 2) l + 0) % 2 ≡ (l + 0) % 2 =
      omega (arith, xor-low (h * 2 ^ n * 2) l) in
    rw twice (
      table_round_lem _
      ∙ rw (fed, xor-half (h * 2 ^ n * 2) l, half) (xor_assoc _ _ _)
      ∙ ap (bit_xor (h * 2 ^ n)) (sym (table_round_lem l)))

-- The high part of the register only moves down while the low part is worked off.
pub table_rounds-shift :
    (n h l : ℕ) → table_rounds n (bit_xor (h * 2 ^ n) l) ≡ bit_xor h (table_rounds n l)
unfolding table_rounds
table_rounds-shift zero h l = ap (λ (t : ℕ). bit_xor t l) (omega arith)
table_rounds-shift (suc n) h l =
    ap (table_rounds n) (shifted_round n h l) ∙ table_rounds-shift n h (table_round l)

table_rounds-serial :
    (n c b : ℕ) → table_rounds n (bit_xor c b) ≡ bit_xor (serial_bits n c b) (b / 2 ^ n)
unfolding table_rounds serial_bits
table_rounds-serial zero c b = ap (bit_xor c) (omega arith)
table_rounds-serial (suc n) c b =
    ap (table_rounds n) (table_round-xor c b)
    ∙ table_rounds-serial n (serial_bit c (b % 2)) (b / 2)
    ∙ ap (bit_xor (serial_bits n (serial_bit c (b % 2)) (b / 2))) (sym (halve_pow n b))

get_or-table_entries :
    (n i start : ℕ) → i < n → get_or (table_entries n start) i 0 ≡ table_rounds 8 (start + i)
unfolding table_entries
get_or-table_entries zero i start h = absurd (omega arith)
get_or-table_entries (suc n) zero start h = ap (table_rounds 8) (omega arith)
get_or-table_entries (suc n) (suc i) start h =
    get_or-table_entries n i (start + 1) (omega arith) ∙ ap (table_rounds 8) (omega arith)

table_entry : (i : ℕ) → i < 256 → get_or generate_crc32_lookup_table i 0 ≡ table_rounds 8 i
unfolding generate_crc32_lookup_table
table_entry i h = get_or-table_entries 256 i 0 h ∙ ap (table_rounds 8) (omega arith)

-- One table lookup does the work of eight rounds.
pub crc_round-rounds :
    (c b : ℕ) → IsByte b → crc_round generate_crc32_lookup_table c b ≡ table_rounds 8 (bit_xor c b)
unfolding crc_round
crc_round-rounds c b h =
    let t : ℕ = bit_xor c b in
    let high : t / 2 ^ 8 ≡ c / 2 ^ 8 =
      xor-div_pow 8 c b ∙ ap (bit_xor (c / 2 ^ 8)) (omega arith) ∙ xor-zero (c / 2 ^ 8) in
    let parts : bit_xor (c / 2 ^ 8 * 2 ^ 8) (t % 256) ≡ t =
      xor_parts 8 (c / 2 ^ 8) (t % 256) (omega arith) ∙ omega (arith, high) in
    rw (and_255 t, table_entry (t % 256) (omega arith))
      (sym (table_rounds-shift 8 (c / 2 ^ 8) (t % 256)) ∙ ap (table_rounds 8) parts)

crc_round-serial :
    (c b : ℕ) → IsByte b → crc_round generate_crc32_lookup_table c b ≡ serial_bits 8 c b
crc_round-serial c b h =
    crc_round-rounds c b h
    ∙ table_rounds-serial 8 c b
    ∙ ap (bit_xor (serial_bits 8 c b)) (omega arith)
    ∙ xor-zero (serial_bits 8 c b)

crc_loop-serial :
    (c : ℕ) (bytes : List ℕ)
    → All IsByte bytes
    → crc_loop generate_crc32_lookup_table c bytes ≡ serial_loop c bytes
unfolding crc_loop serial_loop
crc_loop-serial c [] h = refl
crc_loop-serial c (b ∷ bytes) h =
    ap (λ (t : ℕ). crc_loop generate_crc32_lookup_table t bytes) (crc_round-serial c b h.0)
    ∙ crc_loop-serial (serial_bits 8 c b) bytes h.1

-- On every list of bytes the table-driven `compute_crc32` returns the bit-serial CRC-32.
pub compute_crc32-serial :
    (bytes : List ℕ) → All IsByte bytes → compute_crc32 bytes ≡ serial_crc32 bytes
unfolding compute_crc32 serial_crc32
compute_crc32-serial bytes h =
    ap (λ (t : ℕ). bit_xor t 0xFFFFFFFF) (crc_loop-serial 0xFFFFFFFF bytes h)
