-- ===== src/Crc/Detect.antt =====
-- Which errors the CRC of src/frame_transport.cpp detects.
use midi2pwmv2_libcomm.Common.{
  ℕ, zero, suc, ◌+◌, ◌*◌, ◌/◌, ◌%◌, ◌^◌, ◌≤◌, ◌<◌, ◌≡◌, ◌≢◌, refl, sym, ap, ◌∙◌, arith, List, [],
  ◌∷◌, ◌++◌, bit_xor, All, length, IsByte, le_word, le_word_injective, le_bytes, le_word-le_bytes,
  le_bytes-IsByte, short_word,
}
use midi2pwmv2_libcomm.Common.Xor.{
  xor_assoc, xor_comm, xor_self, xor-lt, xor-zero, xor-div_pow, xor_cancel, xor_cancel_left,
  xor_parts, zero-bit_xor,
}
use midi2pwmv2_libcomm.Crc.{
  crc32_polynomial_reversed, table_round, table_rounds, generate_crc32_lookup_table, crc_round,
  crc_loop, compute_crc32,
}
use midi2pwmv2_libcomm.Crc.Reference.{
  serial_bit, table_round_lem, table_rounds-shift, crc_round-rounds,
}

abbrev IsU32 : ℕ → Type 0
IsU32 v = v < 2 ^ 32

selected-lt : (a : ℕ) → a % 2 * crc32_polynomial_reversed < 2 ^ 32
selected-lt a = omega arith

table_round-lt : (a : ℕ) → IsU32 a → IsU32 (table_round a)
table_round-lt a h = rw (table_round_lem a) (xor-lt 32 _ _ (omega arith) (selected-lt (a + 0)))

-- The polynomial has its top bit set, so the top bit of the result is the bit that left.
table_round-top : (a : ℕ) → IsU32 a → table_round a / 2 ^ 31 ≡ a % 2
table_round-top a h =
    let high : a / 2 / 2 ^ 31 ≡ 0 = omega arith in
    ap (λ (t : ℕ). t / 2 ^ 31) (table_round_lem a)
    ∙ xor-div_pow 31 (a / 2) ((a + 0) % 2 * crc32_polynomial_reversed)
    ∙ rw high (zero-bit_xor ((a + 0) % 2 * crc32_polynomial_reversed / 2 ^ 31) ∙ omega arith)

table_round_injective : (a b : ℕ) → IsU32 a → IsU32 b → table_round a ≡ table_round b → a ≡ b
table_round_injective a b ha hb e =
    let low : a % 2 ≡ b % 2 =
      sym (table_round-top a ha) ∙ ap (λ (t : ℕ). t / 2 ^ 31) e ∙ table_round-top b hb in
    let fed : (a + 0) % 2 ≡ (b + 0) % 2 = omega (arith, low) in
    let same : serial_bit a 0 ≡ bit_xor (b / 2) ((a + 0) % 2 * crc32_polynomial_reversed) =
      sym (table_round_lem a) ∙ e ∙ table_round_lem b ∙ rw fed in
    omega (arith, low, xor_cancel (a / 2) (b / 2) _ same)

table_rounds-lt : (n a : ℕ) → IsU32 a → IsU32 (table_rounds n a)
unfolding table_rounds
table_rounds-lt zero a h = h
table_rounds-lt (suc n) a h = table_rounds-lt n (table_round a) (table_round-lt a h)

table_rounds_injective :
    (n a b : ℕ) → IsU32 a → IsU32 b → table_rounds n a ≡ table_rounds n b → a ≡ b
unfolding table_rounds
table_rounds_injective zero a b ha hb e = e
table_rounds_injective (suc n) a b ha hb e =
    table_round_injective a b ha hb
      (table_rounds_injective n _ _ (table_round-lt a ha) (table_round-lt b hb) e)

-- Eight rounds for each byte.
abbrev rounds_of : List ℕ → ℕ
rounds_of [] = 0
rounds_of (b ∷ bs) = suc (suc (suc (suc (suc (suc (suc (suc (rounds_of bs))))))))

-- A byte further on stands eight places higher.
next_byte : (c b w : ℕ) → IsByte b → bit_xor (w * 2 ^ 8) (bit_xor c b) ≡ bit_xor c (b + 256 * w)
next_byte c b w h =
    xor_comm (w * 2 ^ 8) (bit_xor c b)
    ∙ xor_assoc c b (w * 2 ^ 8)
    ∙ ap (bit_xor c) (xor_comm b (w * 2 ^ 8) ∙ xor_parts 8 w b h ∙ omega arith)

-- A run of bytes acts on the register as one word.
crc_loop-word :
    (c : ℕ) (bs : List ℕ)
    → All IsByte bs
    → crc_loop generate_crc32_lookup_table c bs
      ≡ table_rounds (rounds_of bs) (bit_xor c (le_word bs))
unfolding crc_loop table_rounds
crc_loop-word c [] h = sym (xor-zero c)
crc_loop-word c (b ∷ bs) h =
    ap (λ (t : ℕ). crc_loop generate_crc32_lookup_table t bs) (crc_round-rounds c b h.0)
    ∙ crc_loop-word (table_rounds 8 (bit_xor c b)) bs h.1
    ∙ ap (table_rounds (rounds_of bs)) (
        xor_comm _ (le_word bs)
        ∙ sym (table_rounds-shift 8 (le_word bs) (bit_xor c b))
        ∙ ap (table_rounds 8) (next_byte c b (le_word bs) h.0))

crc_loop-append :
    (t : List ℕ) (c : ℕ) (xs ys : List ℕ)
    → crc_loop t c (xs ++ ys) ≡ crc_loop t (crc_loop t c xs) ys
unfolding crc_loop
crc_loop-append t c [] ys = refl
crc_loop-append t c (x ∷ xs) ys = crc_loop-append t (crc_round t c x) xs ys

crc_round-lt : (c b : ℕ) → IsByte b → IsU32 c → IsU32 (crc_round generate_crc32_lookup_table c b)
crc_round-lt c b h hc =
    rw (crc_round-rounds c b h) (table_rounds-lt 8 _ (xor-lt 32 c b hc (omega arith)))

crc_loop-lt :
    (c : ℕ) (bs : List ℕ)
    → All IsByte bs
    → IsU32 c
    → IsU32 (crc_loop generate_crc32_lookup_table c bs)
unfolding crc_loop
crc_loop-lt c [] h hc = hc
crc_loop-lt c (b ∷ bs) h hc =
    crc_loop-lt (crc_round generate_crc32_lookup_table c b) bs h.1 (crc_round-lt c b h.0 hc)

-- The CRC is a `std::uint32_t`.
pub compute_crc32-lt : (bs : List ℕ) → All IsByte bs → IsU32 (compute_crc32 bs)
unfolding compute_crc32
compute_crc32-lt bs h = xor-lt 32 _ _ (crc_loop-lt _ bs h (omega arith)) (omega arith)

crc_round_injective :
    (c d b : ℕ)
    → IsByte b
    → IsU32 c
    → IsU32 d
    → crc_round generate_crc32_lookup_table c b ≡ crc_round generate_crc32_lookup_table d b
    → c ≡ d
crc_round_injective c d b h hc hd e = xor_cancel c d b (
    table_rounds_injective 8 _ _ (xor-lt 32 c b hc (omega arith)) (xor-lt 32 d b hd (omega arith))
      (sym (crc_round-rounds c b h) ∙ e ∙ crc_round-rounds d b h))

-- Two registers that differ still differ after the same bytes.
crc_loop_injective :
    (c d : ℕ) (bs : List ℕ)
    → All IsByte bs
    → IsU32 c
    → IsU32 d
    → crc_loop generate_crc32_lookup_table c bs ≡ crc_loop generate_crc32_lookup_table d bs
    → c ≡ d
unfolding crc_loop
crc_loop_injective c d [] h hc hd e = e
crc_loop_injective c d (b ∷ bs) h hc hd e = crc_round_injective c d b h.0 hc hd (
    crc_loop_injective (crc_round generate_crc32_lookup_table c b)
      (crc_round generate_crc32_lookup_table d b) bs h.1 (crc_round-lt c b h.0 hc)
      (crc_round-lt d b h.0 hd) e)

rounds_of-length : (bs : List ℕ) → rounds_of bs ≡ 8 * length bs
rounds_of-length [] = refl
rounds_of-length (b ∷ bs) = omega (arith, rounds_of-length bs)

-- A changed run of at most four bytes changes the register.
burst_changes :
    (c : ℕ) (e f : List ℕ)
    → IsU32 c
    → All IsByte e
    → All IsByte f
    → length e ≡ length f
    → length e ≤ 4
    → crc_loop generate_crc32_lookup_table c e ≡ crc_loop generate_crc32_lookup_table c f
    → e ≡ f
burst_changes c e f hc he hf same short eq =
    let we : IsU32 (le_word e) = short_word e he short in
    let wf : IsU32 (le_word f) = short_word f hf (omega arith) in
    let rounds : rounds_of f ≡ rounds_of e =
      omega (arith, rounds_of-length e, rounds_of-length f) in
    le_word_injective e f he hf same (
      xor_cancel_left _ _ c (
        table_rounds_injective (rounds_of e) _ _ (xor-lt 32 c _ hc we) (xor-lt 32 c _ hc wf) (
          sym (crc_loop-word c e he)
          ∙ eq
          ∙ crc_loop-word c f hf
          ∙ ap (λ (n : ℕ). table_rounds n (bit_xor c (le_word f))) rounds)))

compute_crc32_lem :
    (bs : List ℕ)
    → compute_crc32 bs ≡ bit_xor (crc_loop generate_crc32_lookup_table 0xFFFFFFFF bs) 0xFFFFFFFF
unfolding compute_crc32
compute_crc32_lem bs = refl

-- What the CRC of a message with its own CRC behind it comes to.
pub residue : ℕ
residue = bit_xor (table_rounds 32 0xFFFFFFFF) 0xFFFFFFFF

pub compute_crc32-residue :
    (bs : List ℕ) → All IsByte bs → compute_crc32 (bs ++ le_bytes 4 (compute_crc32 bs)) ≡ residue
unfolding residue
compute_crc32-residue bs h =
    let c : ℕ = crc_loop generate_crc32_lookup_table 0xFFFFFFFF bs in
    let word : le_word (le_bytes 4 (compute_crc32 bs)) ≡ bit_xor c 0xFFFFFFFF =
      le_word-le_bytes 4 (compute_crc32 bs) (compute_crc32-lt bs h) ∙ compute_crc32_lem bs in
    let back : bit_xor c (bit_xor c 0xFFFFFFFF) ≡ 0xFFFFFFFF =
      sym (xor_assoc c c 0xFFFFFFFF)
      ∙ ap (λ (t : ℕ). bit_xor t 0xFFFFFFFF) (xor_self c)
      ∙ zero-bit_xor 0xFFFFFFFF in
    let run : crc_loop generate_crc32_lookup_table 0xFFFFFFFF (bs ++ le_bytes 4 (compute_crc32 bs))
        ≡ table_rounds 32 0xFFFFFFFF =
      crc_loop-append generate_crc32_lookup_table 0xFFFFFFFF bs (le_bytes 4 (compute_crc32 bs))
      ∙ crc_loop-word c (le_bytes 4 (compute_crc32 bs)) (le_bytes-IsByte 4 (compute_crc32 bs))
      ∙ ap (table_rounds 32) (ap (bit_xor c) word ∙ back) in
    compute_crc32_lem (bs ++ le_bytes 4 (compute_crc32 bs))
    ∙ ap (λ (t : ℕ). bit_xor t 0xFFFFFFFF) run

-- Two messages of equal length that differ, and only within a run of at most four consecutive bytes,
-- have different CRCs.
pub burst_detected :
    (xs e f ys : List ℕ)
    → All IsByte xs
    → All IsByte e
    → All IsByte f
    → All IsByte ys
    → length e ≡ length f
    → length e ≤ 4
    → e ≢ f
    → compute_crc32 (xs ++ e ++ ys) ≢ compute_crc32 (xs ++ f ++ ys)
unfolding compute_crc32
burst_detected xs e f ys hx he hf hy same short differ eq =
    let c : ℕ = crc_loop generate_crc32_lookup_table 0xFFFFFFFF xs in
    let hc : IsU32 c = crc_loop-lt 0xFFFFFFFF xs hx (omega arith) in
    let split : (r : List ℕ)
        → crc_loop generate_crc32_lookup_table 0xFFFFFFFF (xs ++ r ++ ys)
          ≡ crc_loop generate_crc32_lookup_table (crc_loop generate_crc32_lookup_table c r) ys =
      λ r.
        crc_loop-append _ _ (xs ++ r) ys
        ∙ ap (λ (t : ℕ). crc_loop generate_crc32_lookup_table t ys) (crc_loop-append _ _ xs r) in
    differ (
      burst_changes c e f hc he hf same short (
        crc_loop_injective _ _ ys hy (crc_loop-lt c e he hc) (crc_loop-lt c f hf hc)
          (sym (split e) ∙ xor_cancel _ _ 0xFFFFFFFF eq ∙ split f)))
