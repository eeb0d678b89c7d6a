-- ===== src/Crc/Examples.antt =====
-- Runs of the CRC on small messages.
use midi2pwmv2_libcomm.Common.{◌≡◌, ◌≢◌, refl, ap, arith, List, [], ◌∷◌, ◌++◌, get_or, ℕ}
use midi2pwmv2_libcomm.Crc.{
  table_round, table_rounds, table_entries, generate_crc32_lookup_table, crc_round, crc_loop,
  compute_crc32,
}
use midi2pwmv2_libcomm.Crc.Reference.{serial_crc32, compute_crc32-serial}
use midi2pwmv2_libcomm.Crc.Detect.{burst_detected}

-- The check value of CRC-32, over the digits 1 to 9.
check_value :
    compute_crc32 (0x31 ∷ 0x32 ∷ 0x33 ∷ 0x34 ∷ 0x35 ∷ 0x36 ∷ 0x37 ∷ 0x38 ∷ 0x39 ∷ []) ≡ 0xCBF43926
unfolding compute_crc32 crc_loop crc_round generate_crc32_lookup_table table_entries table_rounds
    table_round
check_value = refl

-- The value over the header and the payload of a small frame.
pub frame_value : compute_crc32 (1 ∷ 0 ∷ 2 ∷ 0 ∷ 2 ∷ 0 ∷ 0 ∷ 0 ∷ 7 ∷ 9 ∷ []) ≡ 0x35388B5D
unfolding compute_crc32 crc_loop crc_round generate_crc32_lookup_table table_entries table_rounds
    table_round
frame_value = refl

compute_crc32-serial_example :
    compute_crc32 (0x31 ∷ 0x32 ∷ 0x33 ∷ []) ≡ serial_crc32 (0x31 ∷ 0x32 ∷ 0x33 ∷ [])
compute_crc32-serial_example =
    compute_crc32-serial (0x31 ∷ 0x32 ∷ 0x33 ∷ []) (omega arith, (omega arith, (omega arith, tt)))

burst_detected_example :
    compute_crc32 ((1 ∷ []) ++ (2 ∷ []) ++ (4 ∷ []))
    ≢ compute_crc32 ((1 ∷ []) ++ (3 ∷ []) ++ (4 ∷ []))
burst_detected_example =
    burst_detected (1 ∷ []) (2 ∷ []) (3 ∷ []) (4 ∷ []) (omega arith, tt) (omega arith, tt)
      (omega arith, tt) (omega arith, tt) refl (omega arith)
      (λ e. omega (arith, ap (λ (r : List ℕ). get_or r 0 0) e))
